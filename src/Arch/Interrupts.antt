-- ===== src/Arch/Interrupts.antt =====
-- src/arch/i386/interrupts.h, src/arch/i386/interrupts.cpp: the gates of the interrupt table, the table
-- of handlers, and the way of an interrupt. The stubs' addresses and what a handler does are
-- arguments; a run is the list of what it calls and which ports it writes, in that order.
pub mod Gates
pub mod Acknowledge
use layla_os.Base.{
  ℕ, zero, suc, ◌+◌, ◌*◌, ◌^◌, List, [], ◌∷◌, ◌++◌, Option, none, some, Bool, true, false, ◌&&◌,
  if◌then◌else◌, ltb, leb, ◌==◌, u8, bit_and, ◌>>>◌, get_or, set,
}

pub record Gate : Type 0 where
  pub offset_low : ℕ
  pub selector : ℕ
  pub reserved : ℕ
  pub type_attr : ℕ
  pub offset_high : ℕ

-- The descriptor that `SetGate` stores.
unfoldable pub gate : ℕ → ℕ → ℕ → Gate
gate handler selector type_attr = record {
  offset_low = bit_and handler 0xFFFF;
  selector = selector;
  reserved = 0;
  type_attr = type_attr;
  offset_high = bit_and (handler >>> 16) 0xFFFF;
}

abbrev pub set_gate : List Gate → ℕ → ℕ → ℕ → ℕ → List Gate
set_gate idt interrupt handler selector type_attr =
    set idt interrupt (gate handler selector type_attr)

-- The loops of the constructor: `n` gates from the index `first + i` on.
unfoldable pub set_gates : ℕ → ℕ → ℕ → (ℕ → ℕ) → ℕ → List Gate → List Gate
set_gates zero i first handler selector idt = idt
set_gates (suc n) i first handler selector idt =
    set_gates n (suc i) first handler selector
      (set_gate idt (u8 (first + i)) (handler i) selector 0x8E)

-- The table after the constructor; `isr k` is the address of `isr_k`.
unfoldable pub new_idt : (ℕ → ℕ) → ℕ → ℕ → ℕ → List Gate → List Gate
new_idt isr ignore hw_offset selector idt =
    let ignored = set_gates 256 0 0 (λ i. ignore) selector idt in
    let lines = set_gates 16 0 hw_offset (λ i. isr (32 + i)) selector ignored in
    let t8 = set_gate lines 8 (isr 8) selector 0x8E in
    let t10 = set_gate t8 10 (isr 10) selector 0x8E in
    let t11 = set_gate t10 11 (isr 11) selector 0x8E in
    let t12 = set_gate t11 12 (isr 12) selector 0x8E in
    let t13 = set_gate t12 13 (isr 13) selector 0x8E in
    let t14 = set_gate t13 14 (isr 14) selector 0x8E in set_gate t14 128 (isr 128) selector 0xEF

-- A handler is a pointer; its constructor and its destructor change the table.
unfoldable pub new_handler : List (Option ℕ) → ℕ → ℕ → List (Option ℕ)
new_handler handlers interrupt handler = set handlers interrupt (some handler)

unfoldable pub delete_handler : List (Option ℕ) → ℕ → ℕ → List (Option ℕ)
delete_handler handlers interrupt handler = elim (get_or handlers interrupt none) [
  | none ↦ handlers
  | some h ↦ if h == handler then set handlers interrupt none else handlers
]

-- `HandlePageFault`, a handler's `HandleInterrupt` and `SyscallDispatch` with the stack pointer they
-- get, and a byte written to a port.
pub data Step : Type 0 where
  page_fault : Step
  handled : ℕ → ℕ → Step
  dispatched : ℕ → Step
  wrote : ℕ → ℕ → Step

-- `pic_master_command` and `pic_slave_command`.
abbrev pub pic_master : ℕ
pic_master = 0x20

abbrev pub pic_slave : ℕ
pic_slave = 0xA0

-- The end of interrupt that `DoHandleInterrupt` sends.
unfoldable pub end_of_interrupt : ℕ → ℕ → List Step
end_of_interrupt hw_offset interrupt =
    if leb hw_offset interrupt && ltb interrupt (hw_offset + 16)
    then (if leb (hw_offset + 8) interrupt then wrote pic_slave 0x20 ∷ [] else [])
      ++ (wrote pic_master 0x20 ∷ [])
    else []

-- The call of the handler, if there is one, and its result.
unfoldable pub call_handler : (ℕ → ℕ → ℕ) → Option ℕ → ℕ → List Step × ℕ
call_handler handle none esp = ([], esp)
call_handler handle (some h) esp = (handled h esp ∷ [], handle h esp)

unfoldable pub do_handle_interrupt :
    (ℕ → ℕ → ℕ) → (ℕ → ℕ) → List (Option ℕ) → ℕ → ℕ → ℕ → List Step × ℕ
do_handle_interrupt handle dispatch handlers hw_offset interrupt esp =
    let called = call_handler handle (get_or handlers interrupt none) esp in
    if interrupt == 14
    then (page_fault ∷ [], esp)
    else if interrupt == 128
    then (called.0 ++ (dispatched called.1 ∷ []), dispatch called.1)
    else (called.0 ++ end_of_interrupt hw_offset interrupt, called.1)
