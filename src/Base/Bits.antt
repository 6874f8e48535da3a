-- ===== src/Base/Bits.antt =====
-- The binary digits of a word, and what `&`, `|`, `~` and `1u << b` do to each of them.
-- The native operations are a recursion on digits with fuel; here the fuel is dropped.
use Prim.Native.Nat.{
  ℕ, zero, suc, ◌+◌, ◌-◌, ◌*◌, ◌/◌, ◌%◌, ◌^◌, ◌≤◌, ◌<◌, min, max, digits, bitwise, bit_and, bit_or,
  bit_and-bitwise, bit_or-bitwise,
}
use mathlib.Core.Path.{◌≡◌, refl, sym, ap, ◌∙◌}
use mathlib.Core.Logic.{◌≢◌}
use native.Mathlib.Nat.{pow-suc, one-le-pow, le_refl, div-div-eq-div-mul}
use native.Mathlib.Omega.{arith}
use layla_os.Base.Word.{not32}

-- Digit `b` of `w`.
unfoldable pub bit : ℕ → ℕ → ℕ
bit zero w = w % 2
bit (suc b) w = bit b (w / 2)

-- The recursion behind the operations, for the digits `g` and the rest `z` of the second word once
-- the first is 0. More fuel than the first word needs changes nothing.
module _ (z : ℕ → ℕ) (g : ℕ → ℕ → ℕ) where
  digits_one_more : (n a b : ℕ) → a ≤ n → digits z g (suc n) a b ≡ digits z g n a b
  digits_one_more zero zero b h = refl
  digits_one_more zero (suc a) b h = absurd (omega arith)
  digits_one_more (suc n) zero b h = refl
  digits_one_more (suc n) (suc a) b h = rw (digits_one_more n (suc a / 2) (b / 2) (omega arith))

  digits_more : (k n m a b : ℕ) → m ≡ n + k → a ≤ n → digits z g m a b ≡ digits z g n a b
  digits_more zero n m a b e h = ap (λ (i : ℕ). digits z g i a b) (omega arith)
  digits_more (suc k) n m a b e h =
      ap (λ (i : ℕ). digits z g i a b) {x = m} {y = suc (n + k)} (omega arith)
      ∙ digits_one_more (n + k) a b (omega arith)
      ∙ digits_more k n (n + k) a b refl h

  halves :
      (a b : ℕ)
      → bitwise z g (suc a) b ≡ bitwise z g (suc a / 2) (b / 2) * 2 + g (suc a % 2) (b % 2)
  halves a b =
      let less = digits_more (a - suc a / 2) (suc a / 2) a (suc a / 2) (b / 2) (omega arith) in
      omega (arith, less (omega arith))

bit_or-halves : (v w : ℕ) → bit_or v w ≡ bit_or (v / 2) (w / 2) * 2 + max (v % 2) (w % 2)
bit_or-halves zero w = omega (arith, bit_or-bitwise 0 w, bit_or-bitwise 0 (w / 2))
bit_or-halves (suc v) w =
    omega
      (arith, bit_or-bitwise (suc v) w, bit_or-bitwise (suc v / 2) (w / 2), halves (λ y. y) max v w)

bit_and-halves : (v w : ℕ) → bit_and v w ≡ bit_and (v / 2) (w / 2) * 2 + min (v % 2) (w % 2)
bit_and-halves zero w = omega (arith, bit_and-bitwise 0 w, bit_and-bitwise 0 (w / 2))
bit_and-halves (suc v) w =
    omega (
      arith,
      bit_and-bitwise (suc v) w,
      bit_and-bitwise (suc v / 2) (w / 2),
      halves (λ y. 0) min v w,
    )

pub bit-bit_or : (k a b : ℕ) → bit k (bit_or a b) ≡ max (bit k a) (bit k b)
unfolding bit
bit-bit_or zero a b = omega (arith, bit_or-halves a b)
bit-bit_or (suc k) a b =
    let half : bit_or a b / 2 ≡ bit_or (a / 2) (b / 2) = omega (arith, bit_or-halves a b) in
    rw half (bit-bit_or k (a / 2) (b / 2))

pub bit-bit_and : (k a b : ℕ) → bit k (bit_and a b) ≡ min (bit k a) (bit k b)
unfolding bit
bit-bit_and zero a b = omega (arith, bit_and-halves a b)
bit-bit_and (suc k) a b =
    let half : bit_and a b / 2 ≡ bit_and (a / 2) (b / 2) = omega (arith, bit_and-halves a b) in
    rw half (bit-bit_and k (a / 2) (b / 2))

pub bit-lt_two : (k a : ℕ) → bit k a < 2
unfolding bit
bit-lt_two zero a = omega arith
bit-lt_two (suc k) a = bit-lt_two k (a / 2)

pub bit-zero : (k : ℕ) → bit k 0 ≡ 0
unfolding bit
bit-zero zero = refl
bit-zero (suc k) = bit-zero k

bit-one : (k : ℕ) → k ≢ 0 → bit k 1 ≡ 0
unfolding bit
bit-one zero h = absurd (h refl)
bit-one (suc k) h = bit-zero k

half-pow : (j : ℕ) → 2 ^ suc j / 2 ≡ 2 ^ j
half-pow j = omega (arith, pow-suc 2 j)

pub bit-pow_self : (k : ℕ) → bit k (2 ^ k) ≡ 1
unfolding bit
bit-pow_self zero = refl
bit-pow_self (suc k) = rw (half-pow k) (bit-pow_self k)

pub bit-pow_ne : (k j : ℕ) → k ≢ j → bit k (2 ^ j) ≡ 0
unfolding bit
bit-pow_ne zero zero h = absurd (h refl)
bit-pow_ne zero (suc j) h = omega (arith, pow-suc 2 j)
bit-pow_ne (suc k) zero h = bit-zero k
bit-pow_ne (suc k) (suc j) h = rw (half-pow j) (bit-pow_ne k j (λ e. h (ap suc e)))

-- The complement within `n` digits.
bit-complement : (n k w : ℕ) → k < n → w < 2 ^ n → bit k (2 ^ n - 1 - w) ≡ 1 - bit k w
unfolding bit
bit-complement zero k w h l = absurd (omega arith)
bit-complement (suc n) zero w h l = omega (arith, pow-suc 2 n)
bit-complement (suc n) (suc k) w h l =
    let half : (2 ^ suc n - 1 - w) / 2 ≡ 2 ^ n - 1 - w / 2 = omega (arith, pow-suc 2 n) in
    rw half (bit-complement n k (w / 2) (omega arith) (omega (arith, pow-suc 2 n)))

pub bit-not32 : (k w : ℕ) → k < 32 → w < 2 ^ 32 → bit k (not32 w) ≡ 1 - bit k w
bit-not32 k w h l = bit-complement 32 k w h l

-- A word is its digits.
pub bits_ext : (n w v : ℕ) → w < 2 ^ n → v < 2 ^ n → ((k : ℕ) → k < n → bit k w ≡ bit k v) → w ≡ v
unfolding bit
bits_ext zero w v hw hv h = omega arith
bits_ext (suc n) w v hw hv h =
    let halves : w / 2 ≡ v / 2 =
      bits_ext n (w / 2) (v / 2) (omega (arith, pow-suc 2 n)) (omega (arith, pow-suc 2 n))
        (λ k l. h (suc k) (omega arith)) in
    omega (arith, h 0 (omega arith))

bit_and-zero_below : (n a : ℕ) → a ≤ n → bit_and a 0 ≡ 0
bit_and-zero_below n zero h = refl
bit_and-zero_below zero (suc a) h = absurd (omega arith)
bit_and-zero_below (suc n) (suc a) h =
    omega (arith, bit_and-halves (suc a) 0, bit_and-zero_below n (suc a / 2) (omega arith))

pub bit_and-zero : (a : ℕ) → bit_and a 0 ≡ 0
bit_and-zero a = bit_and-zero_below a a (le_refl a)

bit_or-zero_below : (n a : ℕ) → a ≤ n → bit_or a 0 ≡ a
bit_or-zero_below n zero h = refl
bit_or-zero_below zero (suc a) h = absurd (omega arith)
bit_or-zero_below (suc n) (suc a) h =
    omega (arith, bit_or-halves (suc a) 0, bit_or-zero_below n (suc a / 2) (omega arith))

pub bit_or-zero : (a : ℕ) → bit_or a 0 ≡ a
bit_or-zero a = bit_or-zero_below a a (le_refl a)

mul-two-pow : (q k : ℕ) → q * 2 ^ suc k ≡ 2 * (q * 2 ^ k)
mul-two-pow q k = omega (arith, ap (λ (t : ℕ). q * t) (pow-suc 2 k))

-- A mask of one digit: the conjunction is nonzero exactly when the digit is set.
pub bit_and-pow : (b w : ℕ) → bit_and w (2 ^ b) ≡ bit b w * 2 ^ b
unfolding bit
bit_and-pow zero w = omega (arith, bit_and-halves w 1, bit_and-zero (w / 2))
bit_and-pow (suc b) w = omega (
  arith,
  bit_and-halves w (2 ^ suc b),
  half-pow b,
  pow-suc 2 b,
  ap (bit_and (w / 2)) (half-pow b),
  bit_and-pow b (w / 2),
  mul-two-pow (bit b (w / 2)) b,
)

mask_half : (k : ℕ) → (2 ^ suc k - 1) / 2 ≡ 2 ^ k - 1
mask_half k = omega (arith, pow-suc 2 k, one-le-pow k 2)

bit_and_low : (k q r : ℕ) → r < 2 ^ k → bit_and (q * 2 ^ k + r) (2 ^ k - 1) ≡ r
bit_and_low zero q r fits = rw bit_and-zero (omega arith)
bit_and_low (suc k) q r fits = ground (
  arith,
  bit_and-halves (q * 2 ^ suc k + r) (2 ^ suc k - 1),
  mul-two-pow q k,
  pow-suc 2 k,
  mask_half k,
  one-le-pow k 2,
  bit_and_low k q (r / 2) (omega (arith, pow-suc 2 k)),
)

-- A mask of the `k` low digits is the remainder by `2 ^ k`.
pub bit_and_mask : (k a : ℕ) → bit_and a (2 ^ k - 1) ≡ a % 2 ^ k
bit_and_mask k a = ground (arith, one-le-pow k 2, bit_and_low k (a / 2 ^ k) (a % 2 ^ k))

-- `|` of fields that do not overlap is their sum.
pub bit_or_fields : (k q r : ℕ) → r < 2 ^ k → bit_or (q * 2 ^ k) r ≡ q * 2 ^ k + r
bit_or_fields zero q r fits = ground (arith, bit_or-zero q)
bit_or_fields (suc k) q r fits = ground (
  arith,
  bit_or-halves (q * 2 ^ suc k) r,
  mul-two-pow q k,
  bit_or_fields k q (r / 2) (omega (arith, pow-suc 2 k)),
)

-- `|` stays within the width of its operands, and `&` below each of them.
pub bit_or-lt : (n a b : ℕ) → a < 2 ^ n → b < 2 ^ n → bit_or a b < 2 ^ n
bit_or-lt zero a b ha hb =
    let a0 : a ≡ 0 = omega arith in let b0 : b ≡ 0 = omega arith in rw (a0, b0) (omega arith)
bit_or-lt (suc n) a b ha hb = omega (
  arith,
  pow-suc 2 n,
  bit_or-halves a b,
  bit_or-lt n (a / 2) (b / 2) (omega (arith, pow-suc 2 n)) (omega (arith, pow-suc 2 n)),
)

bit_and_zero_left : (b : ℕ) → bit_and 0 b ≡ 0
bit_and_zero_left b = bit_and-bitwise 0 b

bit_and-le_below : (n a b : ℕ) → a ≤ n → bit_and a b ≤ a
bit_and-le_below n zero b h = omega (arith, bit_and_zero_left b)
bit_and-le_below zero (suc a) b h = absurd (omega arith)
bit_and-le_below (suc n) (suc a) b h =
    omega (arith, bit_and-halves (suc a) b, bit_and-le_below n (suc a / 2) (b / 2) (omega arith))

pub bit_and-le : (a b : ℕ) → bit_and a b ≤ a
bit_and-le a b = bit_and-le_below a a b (le_refl a)

-- A mask shifted up selects the digits above.
pub bit_and_high : (k y m : ℕ) → bit_and y (m * 2 ^ k) ≡ bit_and (y / 2 ^ k) m * 2 ^ k
bit_and_high zero y m =
    let one : m * 2 ^ 0 ≡ m = omega arith in
    let whole : y / 2 ^ 0 ≡ y = omega arith in rw (one, whole) (omega arith)
bit_and_high (suc k) y m =
    let half : m * 2 ^ suc k / 2 ≡ m * 2 ^ k = omega (arith, mul-two-pow m k) in
    let quotient : y / 2 ^ suc k ≡ y / 2 / 2 ^ k =
      ap (λ (t : ℕ). y / t) {x = 2 ^ suc k} {y = 2 * 2 ^ k} (omega (arith, pow-suc 2 k))
      ∙ sym (div-div-eq-div-mul y 2 (2 ^ k)) in
    omega (
      arith,
      bit_and-halves y (m * 2 ^ suc k),
      ap (bit_and (y / 2)) half,
      bit_and_high k (y / 2) m,
      ap (λ (t : ℕ). bit_and t m * 2 ^ suc k) quotient,
      mul-two-pow m k,
      mul-two-pow (bit_and (y / 2 / 2 ^ k) m) k,
    )

-- The order of the operands does not matter.
pub bit_or_comm : (n a b : ℕ) → a < 2 ^ n → b < 2 ^ n → bit_or a b ≡ bit_or b a
bit_or_comm n a b ha hb =
    bits_ext n (bit_or a b) (bit_or b a) (bit_or-lt n a b ha hb) (bit_or-lt n b a hb ha)
      λ k l. omega (arith, bit-bit_or k a b, bit-bit_or k b a)
