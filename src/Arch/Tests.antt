-- ===== src/Arch/Tests.antt =====
-- A table of gates with stubs at made-up addresses.
use layla_os.Base.{
  ℕ, ◌+◌, ◌*◌, ◌≡◌, refl, List, [], ◌∷◌, Option, none, some, get_elem?, replicate, length-replicate,
  min, arith,
}
use layla_os.Arch.Interrupts.{Gate, Step, new_idt, do_handle_interrupt, new_handler, delete_handler}
use layla_os.Arch.Interrupts.Gates.{offset_of, type_of, route, new_idt-routes}
use layla_os.Arch.Interrupts.Acknowledge.{
  acknowledged, controllers, acknowledged-do_handle_interrupt,
}

-- The stubs are 16 bytes each.
abbrev stub : ℕ → ℕ
stub k = 0x100000 + 16 * min k 255

abbrev blank_gate : Gate
blank_gate = record { offset_low = 0; selector = 0; reserved = 0; type_attr = 0; offset_high = 0 }

abbrev blank : List Gate
blank = replicate 256 blank_gate

-- The timer's interrupt.
new_idt-routes_example :
    (g : Gate) × (get_elem? (new_idt stub 0x100F00 0x20 0x08 blank) 0x20 ≡ some g)
    × (offset_of g ≡ route stub 0x100F00 0x20 0x20)
    × (g.selector ≡ 0x08)
    × (g.type_attr ≡ type_of 0x20)
new_idt-routes_example =
    new_idt-routes stub 0x100F00 0x20 0x08 0x20 blank (λ k. omega arith) (omega arith) (omega arith)
      (omega arith) (length-replicate {A = Gate} 256 blank_gate)

-- A mouse's handler at the second controller.
abbrev handlers : List (Option ℕ)
handlers = new_handler (replicate 256 none) 0x2C 7

acknowledged-do_handle_interrupt_example :
    acknowledged (do_handle_interrupt (λ h esp. esp) (λ esp. esp) handlers 0x20 0x2C 500).0
    ≡ controllers 0x20 0x2C
acknowledged-do_handle_interrupt_example =
    acknowledged-do_handle_interrupt (λ h esp. esp) (λ esp. esp) handlers 0x20 0x2C 500
      (omega arith) (omega arith)

-- The run of that interrupt.
mouse_run :
    do_handle_interrupt (λ h esp. esp + 4) (λ esp. esp) handlers 0x20 0x2C 500
    ≡ (Step.handled 7 500 ∷ (Step.wrote 0xA0 0x20 ∷ (Step.wrote 0x20 0x20 ∷ [])), 504)
unfolding do_handle_interrupt new_handler layla_os.Arch.Interrupts.call_handler
    layla_os.Arch.Interrupts.end_of_interrupt
mouse_run = refl

-- Only the handler itself leaves the table.
handler_leaves :
    (get_elem? (delete_handler handlers 0x2C 8) 0x2C ≡ some (some 7))
    × (get_elem? (delete_handler handlers 0x2C 7) 0x2C ≡ some none)
unfolding delete_handler new_handler
handler_leaves = (refl, refl)
