-- ===== src/Memory/Pmm/Bitmap.antt =====
-- The digits of the frame bitmap: what `SetBit`, `ClearBit` and `TestBit` do to each.
use native.Mathlib.Nat.{pow-le-pow_right, one-le-pow}
use layla_os.Base.{
  [], ◌∷◌, dec_lt, ℕ_discrete, ℕ, zero, suc, ◌/◌, ◌%◌, ◌^◌, ◌≤◌, ◌<◌, ◌≡◌, ◌≢◌, refl, ap, true,
  List, length, get_or, set, get_or-set_self, get_or-set_ne, bit, bit_and, bit_or, bit-bit_or,
  bit-bit_and, bit-lt_two, bit-pow_self, bit-pow_ne, bit-not32, bit_and-pow, bit_or-lt, bit_and-le,
  not32, arith, ◌↔◌,
}
use layla_os.Memory.Pmm.{set_bit, clear_bit, test_bit}

-- The digit of a frame: 1 if it is used.
unfoldable pub used : List ℕ → ℕ → ℕ
used bm frame = bit (frame % 32) (get_or bm (frame / 32) 0)

pub used-lt_two : (bm : List ℕ) (frame : ℕ) → used bm frame < 2
unfolding used
used-lt_two bm frame = bit-lt_two (frame % 32) (get_or bm (frame / 32) 0)

pub two_pow_lt_word : (k : ℕ) → k < 32 → 2 ^ k < 2 ^ 32
two_pow_lt_word k h =
    omega (arith, pow-le-pow_right {n = 2} (omega arith) {i = k} {j = 31} (omega arith))

-- What a write of one word does to the digit of a frame.
set_self :
    (bm : List ℕ) (f w : ℕ) → f / 32 < length bm → used (set bm (f / 32) w) f ≡ bit (f % 32) w
unfolding used
set_self bm f w h = rw (get_or-set_self bm (f / 32) w 0 h)

set-same_word :
    (bm : List ℕ) (f g w : ℕ)
    → f / 32 < length bm
    → f / 32 ≡ g / 32
    → used (set bm (f / 32) w) g ≡ bit (g % 32) w
unfolding used
set-same_word bm f g w h e = rw (← e, get_or-set_self bm (f / 32) w 0 h)

set-other_word :
    (bm : List ℕ) (f g w : ℕ) → f / 32 ≢ g / 32 → used (set bm (f / 32) w) g ≡ used bm g
unfolding used
set-other_word bm f g w e = rw (get_or-set_ne bm (f / 32) (g / 32) w 0 e)

set_above : (bm : List ℕ) (i w : ℕ) → length bm ≤ i → set bm i w ≡ bm
set_above [] i w h = refl
set_above (x ∷ bm) zero w h = absurd (omega arith)
set_above (x ∷ bm) (suc i) w h = ap (◌∷◌ x) (set_above bm i w (omega arith))

word_of :
    (bm : List ℕ) (f g : ℕ) → f / 32 ≡ g / 32 → used bm g ≡ bit (g % 32) (get_or bm (f / 32) 0)
unfolding used
word_of bm f g e = rw e

-- `SetBit` uses its frame and no other.
pub used-set_bit_self : (bm : List ℕ) (f : ℕ) → f / 32 < length bm → used (set_bit bm f) f ≡ 1
unfolding set_bit
used-set_bit_self bm f h = omega (
  arith,
  set_self bm f (bit_or (get_or bm (f / 32) 0) (2 ^ (f % 32))) h,
  bit-bit_or (f % 32) (get_or bm (f / 32) 0) (2 ^ (f % 32)),
  bit-pow_self (f % 32),
  bit-lt_two (f % 32) (get_or bm (f / 32) 0),
)

pub used-set_bit_ne : (bm : List ℕ) (f g : ℕ) → f ≢ g → used (set_bit bm f) g ≡ used bm g
unfolding set_bit
used-set_bit_ne bm f g ne = elim (dec_lt (f / 32) (length bm)) [
  | no out ↦ rw (set_above bm (f / 32) _ (omega arith))
  | yes h ↦ elim (ℕ_discrete (f / 32) (g / 32)) [
    | no e ↦ set-other_word bm f g _ e
    | yes e ↦ omega (
      arith,
      set-same_word bm f g (bit_or (get_or bm (f / 32) 0) (2 ^ (f % 32))) h e,
      bit-bit_or (g % 32) (get_or bm (f / 32) 0) (2 ^ (f % 32)),
      bit-pow_ne (g % 32) (f % 32) (omega arith),
      word_of bm f g e,
    )
  ]
]

-- `ClearBit` frees its frame and no other.
mask_self : (f : ℕ) → bit (f % 32) (not32 (2 ^ (f % 32))) ≡ 0
mask_self f = omega (
  arith,
  bit-not32 (f % 32) (2 ^ (f % 32)) (omega arith) (two_pow_lt_word (f % 32) (omega arith)),
  bit-pow_self (f % 32),
)

mask_other : (f g : ℕ) → g % 32 ≢ f % 32 → bit (g % 32) (not32 (2 ^ (f % 32))) ≡ 1
mask_other f g h = omega (
  arith,
  bit-not32 (g % 32) (2 ^ (f % 32)) (omega arith) (two_pow_lt_word (f % 32) (omega arith)),
  bit-pow_ne (g % 32) (f % 32) h,
)

pub used-clear_bit_self : (bm : List ℕ) (f : ℕ) → f / 32 < length bm → used (clear_bit bm f) f ≡ 0
unfolding clear_bit
used-clear_bit_self bm f h = omega (
  arith,
  set_self bm f (bit_and (get_or bm (f / 32) 0) (not32 (2 ^ (f % 32)))) h,
  bit-bit_and (f % 32) (get_or bm (f / 32) 0) (not32 (2 ^ (f % 32))),
  mask_self f,
)

pub used-clear_bit_ne : (bm : List ℕ) (f g : ℕ) → f ≢ g → used (clear_bit bm f) g ≡ used bm g
unfolding clear_bit
used-clear_bit_ne bm f g ne = elim (dec_lt (f / 32) (length bm)) [
  | no out ↦ rw (set_above bm (f / 32) _ (omega arith))
  | yes h ↦ elim (ℕ_discrete (f / 32) (g / 32)) [
    | no e ↦ set-other_word bm f g _ e
    | yes e ↦ omega (
      arith,
      set-same_word bm f g (bit_and (get_or bm (f / 32) 0) (not32 (2 ^ (f % 32)))) h e,
      bit-bit_and (g % 32) (get_or bm (f / 32) 0) (not32 (2 ^ (f % 32))),
      mask_other f g (omega arith),
      bit-lt_two (g % 32) (get_or bm (f / 32) 0),
      word_of bm f g e,
    )
  ]
]

-- `TestBit` reads the digit.
pub test_bit_iff : (bm : List ℕ) (f : ℕ) → (test_bit bm f ≡ true) ↔ (used bm f ≡ 1)
unfolding test_bit used
test_bit_iff bm f = ground (
  arith,
  bit_and-pow (f % 32) (get_or bm (f / 32) 0),
  bit-lt_two (f % 32) (get_or bm (f / 32) 0),
  one-le-pow (f % 32) 2,
)

-- Every word of the bitmap fits 32 digits.
abbrev pub AreWords : List ℕ → Type 0
AreWords bm = (i : ℕ) → get_or bm i 0 < 2 ^ 32

set-AreWords : (bm : List ℕ) (i w : ℕ) → w < 2 ^ 32 → AreWords bm → AreWords (set bm i w)
set-AreWords bm i w h a j = elim (ℕ_discrete i j) [
  | no ne ↦ rw (get_or-set_ne bm i j w 0 ne) (a j)
  | yes e ↦ elim (dec_lt i (length bm)) [
    | no out ↦ rw (set_above bm i w (omega arith)) (a j)
    | yes l ↦ rw (← e, get_or-set_self bm i w 0 l) h
  ]
]

pub set_bit-AreWords : (bm : List ℕ) (f : ℕ) → AreWords bm → AreWords (set_bit bm f)
unfolding set_bit
set_bit-AreWords bm f a =
    set-AreWords bm (f / 32) _
      (bit_or-lt 32 _ _ (a (f / 32)) (two_pow_lt_word (f % 32) (omega arith))) a

pub clear_bit-AreWords : (bm : List ℕ) (f : ℕ) → AreWords bm → AreWords (clear_bit bm f)
unfolding clear_bit
clear_bit-AreWords bm f a =
    set-AreWords bm (f / 32) _
      (omega (arith, a (f / 32), bit_and-le (get_or bm (f / 32) 0) (not32 (2 ^ (f % 32))))) a
