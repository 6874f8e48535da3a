-- ===== src/Arch/Interrupts/Gates.antt =====
-- src/arch/i386/interrupts.cpp: the interrupt table that the constructor leaves.
use layla_os.Base.{
  ℕ, zero, suc, ◌+◌, ◌-◌, ◌*◌, ◌/◌, ◌^◌, ◌≤◌, ◌<◌, ◌≡◌, inl, inr, refl, sym, ap, ◌∙◌, List, Option,
  some, Bool, true, false, ◌&&◌, ◌||◌, if◌then◌else◌, ltb, leb, ◌==◌, Bool-cases, get_elem?, length,
  length-set, get_elem?-set_self, get_elem?-set_ne, bit_and_mask, u8, arith,
}
use layla_os.Arch.Interrupts.{Gate, gate, set_gate, set_gates, new_idt}

-- The address that the processor reads from a gate.
abbrev pub offset_of : Gate → ℕ
offset_of g = g.offset_low + g.offset_high * 2 ^ 16

offset-gate :
    (handler selector type_attr : ℕ)
    → handler < 2 ^ 32
    → offset_of (gate handler selector type_attr) ≡ handler
unfolding gate
offset-gate handler selector type_attr h =
    omega (arith, bit_and_mask 16 handler, bit_and_mask 16 (handler / 2 ^ 16))

-- One store, whichever entry is asked for.
get_elem?-set_gate :
    (idt : List Gate) (i v handler selector type_attr : ℕ)
    → i < length idt
    → get_elem? (set_gate idt i handler selector type_attr) v
      ≡ (if v == i then some (gate handler selector type_attr) else get_elem? idt v)
get_elem?-set_gate idt i v handler selector type_attr h = elim (Bool-cases (v == i)) [
  | inl same ↦ let e : v ≡ i = ground arith in rw (same, e) (get_elem?-set_self idt i _ h)
  | inr other ↦ rw other (get_elem?-set_ne idt i v _ (λ e. ground arith))
]

length-set_gates :
    (n i first : ℕ) (handler : ℕ → ℕ) (selector : ℕ) (idt : List Gate)
    → length (set_gates n i first handler selector idt) ≡ length idt
unfolding set_gates
length-set_gates zero i first handler selector idt = refl
length-set_gates (suc n) i first handler selector idt =
    length-set_gates n (suc i) first handler selector _ ∙ length-set idt (u8 (first + i)) _

-- A loop stores its gates in the entries from `first + i` on and in no other.
get_elem?-set_gates :
    (n i first : ℕ) (handler : ℕ → ℕ) (selector v : ℕ) (idt : List Gate)
    → first + i + n ≤ 256
    → length idt ≡ 256
    → get_elem? (set_gates n i first handler selector idt) v ≡ (
        if leb (first + i) v && ltb v (first + i + n)
        then some (gate (handler (v - first)) selector 0x8E)
        else get_elem? idt v)
unfolding set_gates
get_elem?-set_gates zero i first handler selector v idt h whole =
    let out : (leb (first + i) v && ltb v (first + i + 0)) ≡ false = ground arith in rw out refl
get_elem?-set_gates (suc n) i first handler selector v idt h whole =
    let at : u8 (first + i) ≡ first + i = omega arith in
    let idt1 = set_gate idt (u8 (first + i)) (handler i) selector 0x8E in
    let rest =
      get_elem?-set_gates n (suc i) first handler selector v idt1 (omega arith)
        (length-set idt (u8 (first + i)) _ ∙ whole) in
    let one = get_elem?-set_gate idt (u8 (first + i)) v (handler i) selector 0x8E (omega arith) in
    elim (Bool-cases (v == first + i)) [
      | inl here ↦
          let e : v ≡ first + i = ground arith in
          let index : v - first ≡ i = omega arith in
          let in_ : (leb (first + i) v && ltb v (first + i + suc n)) ≡ true = ground arith in
          let past : (leb (first + suc i) v && ltb v (first + suc i + n)) ≡ false = ground arith in
          let hit : (v == u8 (first + i)) ≡ true = ground arith in
          rest ∙ simp (past, one, hit, in_, index)
      | inr there ↦
          let miss : (v == u8 (first + i)) ≡ false = ground arith in
          let same : (leb (first + suc i) v && ltb v (first + suc i + n))
              ≡ (leb (first + i) v && ltb v (first + i + suc n)) =
            ground arith in
          rest ∙ simp (same, one, miss)
    ]

-- The processor's exceptions that have a stub.
unfoldable pub is_exception : ℕ → Bool
is_exception v = v == 14 || (v == 13 || (v == 12 || (v == 11 || (v == 10 || v == 8))))

-- Where an interrupt is to go, and whether a program may raise it by `int`.
unfoldable pub route : (ℕ → ℕ) → ℕ → ℕ → ℕ → ℕ
route isr ignore hw_offset v =
    if v == 128
    then isr 128
    else if is_exception v
    then isr v
    else if leb hw_offset v && ltb v (hw_offset + 16)
    then isr (32 + (v - hw_offset))
    else ignore

route_small :
    (isr : ℕ → ℕ) (ignore hw_offset v : ℕ)
    → ((k : ℕ) → isr k < 2 ^ 32)
    → ignore < 2 ^ 32
    → route isr ignore hw_offset v < 2 ^ 32
unfolding route
route_small isr ignore hw_offset v stubs small = elim (Bool-cases (v == 128)) [
  | inl e ↦ rw e (stubs 128)
  | inr e ↦ elim (Bool-cases (is_exception v)) [
    | inl x ↦ rw (e, x) (stubs v)
    | inr x ↦ elim (Bool-cases (leb hw_offset v && ltb v (hw_offset + 16))) [
      | inl l ↦ rw (e, x, l) (stubs _)
      | inr l ↦ rw (e, x, l) small
    ]
  ]
]

abbrev pub type_of : ℕ → ℕ
type_of v = if v == 128 then 0xEF else 0x8E

-- The stores of the constructor in one formula, the last one first.
routed :
    (call e14 e13 e12 e11 e10 e8 line : Bool) (selector at_call at_stub at_line at_rest : ℕ)
    → (if call
        then some (gate at_call selector 0xEF)
        else if e14
        then some (gate at_stub selector 0x8E)
        else if e13
        then some (gate at_stub selector 0x8E)
        else if e12
        then some (gate at_stub selector 0x8E)
        else if e11
        then some (gate at_stub selector 0x8E)
        else if e10
        then some (gate at_stub selector 0x8E)
        else if e8
        then some (gate at_stub selector 0x8E)
        else if line
        then some (gate at_line selector 0x8E)
        else some (gate at_rest selector 0x8E))
      ≡ some (
          gate
            (if call
              then at_call
              else if e14 || (e13 || (e12 || (e11 || (e10 || e8))))
              then at_stub
              else if line
              then at_line
              else at_rest)
            selector
            (if call then 0xEF else 0x8E))
routed true e14 e13 e12 e11 e10 e8 line s c x l r = refl
routed false true e13 e12 e11 e10 e8 line s c x l r = refl
routed false false true e12 e11 e10 e8 line s c x l r = refl
routed false false false true e11 e10 e8 line s c x l r = refl
routed false false false false true e10 e8 line s c x l r = refl
routed false false false false false true e8 line s c x l r = refl
routed false false false false false false true line s c x l r = refl
routed false false false false false false false true s c x l r = refl
routed false false false false false false false false s c x l r = refl

-- A whole table, and what it has for an interrupt.
abbrev Has : List Gate → ℕ → Option Gate → Type 0
Has idt v g = (length idt ≡ 256) × (get_elem? idt v ≡ g)

module _ (isr : ℕ → ℕ) (selector : ℕ) where
  -- One of the single stores at the end of the constructor.
  exception_stored :
      (idt : List Gate) (k v : ℕ) (before : Option Gate)
      → k < 256
      → Has idt v before
      → Has
          (set_gate idt k (isr k) selector 0x8E)
          v
          (if v == k then some (gate (isr v) selector 0x8E) else before)
  exception_stored idt k v before h (whole, e) =
      let stored = get_elem?-set_gate idt k v (isr k) selector 0x8E (omega arith) in
      (
        length-set idt k _ ∙ whole,
        elim (Bool-cases (v == k)) [
          | inl same ↦
              let v_k : v ≡ k = ground arith in
              stored ∙ simp (same, ap (λ (j : ℕ). some (gate (isr j) selector 0x8E)) (sym v_k))
          | inr other ↦ stored ∙ simp (other, e)
        ],
      )

  -- The two loops.
  lines_stored :
      (ignore hw_offset v : ℕ) (idt : List Gate)
      → hw_offset + 16 ≤ 256
      → v < 256
      → length idt ≡ 256
      → Has
          (set_gates 16 0 hw_offset
            (λ i. isr (32 + i))
            selector
            (set_gates 256 0 0 (λ i. ignore) selector idt))
          v
          (if leb hw_offset v && ltb v (hw_offset + 16)
            then some (gate (isr (32 + (v - hw_offset))) selector 0x8E)
            else some (gate ignore selector 0x8E))
  lines_stored ignore hw_offset v idt lines_in v_in whole =
      let t0 = set_gates 256 0 0 (λ i. ignore) selector idt in
      let l0 : length t0 ≡ 256 = length-set_gates 256 0 0 (λ i. ignore) selector idt ∙ whole in
      let every : (leb (0 + 0) v && ltb v (0 + 0 + 256)) ≡ true = ground arith in
      let e0 : get_elem? t0 v ≡ some (gate ignore selector 0x8E) =
        get_elem?-set_gates 256 0 0 (λ i. ignore) selector v idt (omega arith) whole ∙ simp every in
      let from : hw_offset + 0 ≡ hw_offset = omega arith in
      (
        length-set_gates 16 0 hw_offset (λ i. isr (32 + i)) selector t0 ∙ l0,
        get_elem?-set_gates 16 0 hw_offset (λ i. isr (32 + i)) selector v t0 (omega arith) l0
            ∙ simp (from, e0),
      )

  get_elem?-new_idt :
      (ignore hw_offset v : ℕ) (idt : List Gate)
      → hw_offset + 16 ≤ 256
      → v < 256
      → length idt ≡ 256
      → get_elem? (new_idt isr ignore hw_offset selector idt) v
        ≡ some (gate (route isr ignore hw_offset v) selector (type_of v))
  unfolding new_idt route is_exception
  get_elem?-new_idt ignore hw_offset v idt lines_in v_in whole =
      let lines = lines_stored ignore hw_offset v idt lines_in v_in whole in
      let t8 = exception_stored _ 8 v _ (omega arith) lines in
      let t10 = exception_stored _ 10 v _ (omega arith) t8 in
      let t11 = exception_stored _ 11 v _ (omega arith) t10 in
      let t12 = exception_stored _ 12 v _ (omega arith) t11 in
      let t13 = exception_stored _ 13 v _ (omega arith) t12 in
      let t14 = exception_stored _ 14 v _ (omega arith) t13 in
      get_elem?-set_gate _ 128 v (isr 128) selector 0xEF (omega (arith, t14.0))
      ∙ ap (λ (g : Option Gate). if v == 128 then some (gate (isr 128) selector 0xEF) else g) t14.1
      ∙ routed (v == 128) (v == 14) (v == 13) (v == 12) (v == 11) (v == 10) (v == 8)
          (leb hw_offset v && ltb v (hw_offset + 16)) selector (isr 128) (isr v)
          (isr (32 + (v - hw_offset))) ignore

-- After the constructor every interrupt has a gate, with the kernel's code selector. It leads to the
-- interrupt's stub, for the sixteen hardware lines, six exceptions and the system call, or else to
-- the one that ignores it; the system call's is the only gate that a program may use. The hardware
-- lines are within the table, and the stubs' addresses are 32-bit words.
pub new_idt-routes :
    (isr : ℕ → ℕ) (ignore hw_offset selector v : ℕ) (idt : List Gate)
    → ((k : ℕ) → isr k < 2 ^ 32)
    → ignore < 2 ^ 32
    → hw_offset + 16 ≤ 256
    → v < 256
    → length idt ≡ 256
    → (g : Gate) × (get_elem? (new_idt isr ignore hw_offset selector idt) v ≡ some g)
      × (offset_of g ≡ route isr ignore hw_offset v)
      × (g.selector ≡ selector)
      × (g.type_attr ≡ type_of v)
unfolding gate
new_idt-routes isr ignore hw_offset selector v idt stubs small lines_in v_in whole =
    let to = route isr ignore hw_offset v in
    (
      gate to selector (type_of v),
      get_elem?-new_idt isr selector ignore hw_offset v idt lines_in v_in whole,
      offset-gate to selector (type_of v) (route_small isr ignore hw_offset v stubs small),
      refl,
      refl,
    )
