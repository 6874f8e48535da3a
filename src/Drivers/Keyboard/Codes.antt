-- ===== src/Drivers/Keyboard/Codes.antt =====
-- src/drivers/keyboard.cpp: the range of the characters, and the modifier keys.
use layla_os.Base.{
  ℕ, zero, suc, ◌≤◌, ◌<◌, ◌≡◌, ◌⊎◌, refl, List, [], ◌∷◌, Option, none, some, Bool, true, false,
  ◌&&◌, ◌||◌, if◌then◌else◌, ltb, ◌==◌, ◌!=◌, Bool-cases, inl, inr, bit_and, bit_and_mask, get_or,
  arith,
}
use layla_os.Drivers.Keyboard.{
  KeyboardDriver, normal_table, shifted_table, xor, is_letter, key_char, apply_ctrl, decode,
}

abbrev all_ascii : List ℕ → Bool
all_ascii [] = true
all_ascii (c ∷ cs) = ltb c 128 && all_ascii cs

get_or-lt : (cs : List ℕ) (i : ℕ) → all_ascii cs ≡ true → get_or cs i 0 < 128
get_or-lt [] i h = omega arith
get_or-lt (c ∷ cs) zero h = ground arith
get_or-lt (c ∷ cs) (suc i) h = get_or-lt cs i (ground arith)

key_char-lt : (k : KeyboardDriver) (scancode : ℕ) → key_char k scancode < 128
unfolding key_char
key_char-lt k scancode = elim (Bool-cases (ltb scancode 88)) [
  | inr e ↦ rw (key_char, e) (omega arith)
  | inl e ↦ elim (Bool-cases (xor k.shift k.caps_lock)) [
    | inl f ↦ rw (key_char, e, f) (get_or-lt shifted_table scancode refl)
    | inr f ↦ rw (key_char, e, f) (get_or-lt normal_table scancode refl)
  ]
]

-- A character that is neither 0 nor outside ASCII, or no character.
abbrev pub IsTyped : Option ℕ → Type 0
IsTyped none = Unit {0}
IsTyped (some c) = (0 < c) × (c < 128)

apply_ctrl-IsTyped :
    (k : KeyboardDriver) (c : ℕ) → c < 128 → (c == 0) ≡ false → IsTyped (some (apply_ctrl k c))
unfolding apply_ctrl
apply_ctrl-IsTyped k c small some_char = elim (Bool-cases (k.ctrl && is_letter c)) [
  | inr e ↦ rw (apply_ctrl, e) (ground arith, small)
  | inl e ↦
      let low = bit_and_mask 5 c in
      let letter : is_letter c ≡ true = ground arith in
      let range : ((65 ≤ c) × (c ≤ 90)) ⊎ ((97 ≤ c) × (c ≤ 122)) = ground arith in
      rw (apply_ctrl, e)
        (
          elim range [
            | inl r ↦ (let a = r.0 in let b = r.1 in omega arith)
            | inr r ↦ (let a = r.0 in let b = r.1 in omega arith)
          ],
          omega arith,
        )
]

or_none :
    (b : Bool) (k : KeyboardDriver) (r : KeyboardDriver × Option ℕ)
    → IsTyped r.1
    → IsTyped (if b then (k, none) else r).1
or_none true k r h = tt
or_none false k r h = h

-- The last test of the handler.
abbrev last_test : KeyboardDriver → ℕ → KeyboardDriver × Option ℕ
last_test k c = if c == 0 then (k, none) else (k, some (apply_ctrl k c))

last_test-IsTyped : (k : KeyboardDriver) (c : ℕ) → c < 128 → IsTyped (last_test k c).1
last_test-IsTyped k c small = elim (Bool-cases (c == 0)) [
  | inl e ↦ rw e tt
  | inr e ↦ rw e (apply_ctrl-IsTyped k c small e)
]

-- Whatever the scan code and the modifiers, the handler makes an ASCII character other than 0 or none.
pub decode-IsTyped : (k : KeyboardDriver) (scancode : ℕ) → IsTyped (decode k scancode).1
unfolding decode
decode-IsTyped k scancode = or_none (scancode == 0x9D) _ _ (
    or_none (scancode == 0xAA || scancode == 0xB6) _ _ (
      or_none (scancode == 0x1D) _ _ (
        or_none (scancode == 0x2A || scancode == 0x36) _ _ (
          or_none (scancode == 0x3A) _ _ (
            or_none (bit_and scancode 0x80 != 0) _ _
              (last_test-IsTyped k (key_char k scancode) (key_char-lt k scancode)))))))
