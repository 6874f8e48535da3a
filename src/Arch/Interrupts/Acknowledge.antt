-- ===== src/Arch/Interrupts/Acknowledge.antt =====
-- src/arch/i386/interrupts.cpp, `DoHandleInterrupt`: which interrupts are acknowledged.
use layla_os.Base.{
  ℕ, ◌+◌, ◌≤◌, ◌<◌, ◌≡◌, refl, sym, ◌∙◌, ◌⊎◌, inl, inr, List, [], ◌∷◌, ◌++◌, Option, none, some,
  true, false, if◌then◌else◌, ltb, leb, ◌==◌, Bool-cases, get_or, arith,
}
use layla_os.Arch.Interrupts.{
  Step, page_fault, handled, dispatched, wrote, pic_master, pic_slave, call_handler,
  end_of_interrupt, do_handle_interrupt,
}

-- The ports that a run writes a 0x20 to, in their order.
pub acknowledged : List Step → List ℕ
acknowledged [] = []
acknowledged (wrote port value ∷ steps) =
    if value == 0x20 then port ∷ acknowledged steps else acknowledged steps
acknowledged (page_fault ∷ steps) = acknowledged steps
acknowledged (handled h esp ∷ steps) = acknowledged steps
acknowledged (dispatched esp ∷ steps) = acknowledged steps

-- The two controllers have eight lines each, and the second hangs on the first.
pub controllers : ℕ → ℕ → List ℕ
controllers hw_offset interrupt =
    if ltb interrupt hw_offset
    then []
    else if ltb interrupt (hw_offset + 8)
    then pic_master ∷ []
    else if ltb interrupt (hw_offset + 16)
    then pic_slave ∷ (pic_master ∷ [])
    else []

-- The call of a handler is not a write; what the handler itself writes is not in the list.
after_handler :
    (handle : ℕ → ℕ → ℕ) (h : Option ℕ) (esp : ℕ) (rest : List Step)
    → acknowledged ((call_handler handle h esp).0 ++ rest) ≡ acknowledged rest
unfolding acknowledged call_handler
after_handler handle none esp rest = refl
after_handler handle (some h) esp rest = refl

acknowledged-end_of_interrupt :
    (hw_offset interrupt : ℕ)
    → acknowledged (end_of_interrupt hw_offset interrupt) ≡ controllers hw_offset interrupt
unfolding acknowledged end_of_interrupt controllers
acknowledged-end_of_interrupt hw_offset interrupt = elim (Bool-cases (ltb interrupt hw_offset)) [
  | inl below ↦ let low : leb hw_offset interrupt ≡ false = ground arith in rw (below, low) refl
  | inr above ↦
      let from : leb hw_offset interrupt ≡ true = ground arith in
      elim (Bool-cases (ltb interrupt (hw_offset + 8))) [
        | inl first ↦
            let in_ : ltb interrupt (hw_offset + 16) ≡ true = ground arith in
            let not_slave : leb (hw_offset + 8) interrupt ≡ false = ground arith in
            rw (above, from, first, in_, not_slave) refl
        | inr later ↦
            let slave : leb (hw_offset + 8) interrupt ≡ true = ground arith in
            elim (Bool-cases (ltb interrupt (hw_offset + 16))) [
              | inl in_ ↦ rw (above, from, later, in_, slave) refl
              | inr out ↦ rw (above, from, later, out) refl
            ]
      ]
]

controllers-outside :
    (hw_offset interrupt : ℕ)
    → (interrupt < hw_offset) ⊎ (hw_offset + 16 ≤ interrupt)
    → controllers hw_offset interrupt ≡ []
unfolding controllers
controllers-outside hw_offset interrupt (inl below) =
    let e : ltb interrupt hw_offset ≡ true = ground arith in rw e refl
controllers-outside hw_offset interrupt (inr above) =
    let low : ltb interrupt hw_offset ≡ false = ground arith in
    let mid : ltb interrupt (hw_offset + 8) ≡ false = ground arith in
    let high : ltb interrupt (hw_offset + 16) ≡ false = ground arith in rw (low, mid, high) refl

-- Whatever handlers there are, an interrupt of a hardware line is acknowledged once at the first
-- controller, and before that at the second one if it comes from there; a page fault, a system
-- call and any other interrupt is not. The lines lie between the page fault and the system call.
pub acknowledged-do_handle_interrupt :
    (handle : ℕ → ℕ → ℕ) (dispatch : ℕ → ℕ) (handlers : List (Option ℕ))
    (hw_offset interrupt esp : ℕ)
    → 14 < hw_offset
    → hw_offset + 16 ≤ 128
    → acknowledged (do_handle_interrupt handle dispatch handlers hw_offset interrupt esp).0
      ≡ controllers hw_offset interrupt
unfolding do_handle_interrupt acknowledged
acknowledged-do_handle_interrupt handle dispatch handlers hw_offset interrupt esp low high =
    let h = get_or handlers interrupt none in
    elim (Bool-cases (interrupt == 14)) [
      | inl fault ↦ rw fault (sym (controllers-outside hw_offset interrupt (inl (ground arith))))
      | inr no_fault ↦ elim (Bool-cases (interrupt == 128)) [
        | inl call ↦
            rw (no_fault, call)
              (after_handler handle h esp _
                ∙ sym (controllers-outside hw_offset interrupt (inr (ground arith))))
        | inr no_call ↦
            rw (no_fault, no_call)
              (after_handler handle h esp _ ∙ acknowledged-end_of_interrupt hw_offset interrupt)
      ]
    ]
