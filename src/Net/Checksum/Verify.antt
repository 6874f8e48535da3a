-- ===== src/Net/Checksum/Verify.antt =====
-- src/net/net.h, `InternetChecksum`: what a sender that stores it and a receiver that recomputes it
-- agree on.
use layla_os.Base.{
  ℕ, zero, suc, ◌+◌, ◌*◌, ◌/◌, ◌%◌, ◌^◌, ◌≤◌, ◌<◌, List, [], ◌∷◌, ◌++◌, ◌≡◌, refl, ◌↔◌, bit_and,
  bit_and_mask, dec_lt, ℕ_discrete, add32, ◌>>>◌, length, length-append, arith,
}
use layla_os.Net.Wire.{bytes16, bytes32}
use layla_os.Net.Checksum.{sum_words, fold_carries, internet_checksum}

-- Every element is a byte.
abbrev pub IsBytes : List ℕ → Type 0
IsBytes [] = Unit {0}
IsBytes (x ∷ rest) = (x < 256) × IsBytes rest

-- The sum of the words, as a number without bound.
unfoldable pub word_sum : List ℕ → ℕ
word_sum [] = 0
word_sum (x ∷ []) = x
word_sum (x ∷ (y ∷ rest)) = x + 256 * y + word_sum rest

word_sum-le : (block : List ℕ) → IsBytes block → 2 * word_sum block ≤ 65535 * suc (length block)
unfolding word_sum
word_sum-le [] h = omega arith
word_sum-le (x ∷ []) h = let p = h.0 in omega arith
word_sum-le (x ∷ (y ∷ rest)) h =
    let p = h.0 in let q = h.1.0 in omega (arith, word_sum-le rest h.1.1)

-- In a block whose sum fits, the 32-bit additions do not wrap.
sum_words_lem :
    (block : List ℕ) (s : ℕ) → s + word_sum block < 2 ^ 32 → sum_words block s ≡ s + word_sum block
unfolding word_sum sum_words
sum_words_lem [] s h = omega arith
sum_words_lem (x ∷ []) s h = omega arith
sum_words_lem (x ∷ (y ∷ rest)) s h =
    let e : add32 s (x + 256 * y) ≡ s + (x + 256 * y) = omega arith in
    omega (arith, sum_words_lem rest (add32 s (x + 256 * y)) (omega arith))

-- What is left of a sum after the carries are in.
abbrev IsFolded : ℕ → ℕ → Type 0
IsFolded s r = (r < 2 ^ 16) × (r % 65535 ≡ s % 65535) × (r ≡ 0 ↔ s ≡ 0)

fold_done : (n s : ℕ) → s < 2 ^ 16 → fold_carries (suc n) s ≡ s
unfolding fold_carries
fold_done n s h = ground arith

fold_once :
    (n s : ℕ)
    → 2 ^ 16 ≤ s
    → s < 2 ^ 32
    → fold_carries (suc n) s ≡ fold_carries n (s % 65536 + s / 65536)
unfolding fold_carries
fold_once n s l h =
    let mask = bit_and_mask 16 s in
    let next : add32 (bit_and s 0xFFFF) (s >>> 16) ≡ s % 65536 + s / 65536 = omega (arith, mask) in
    rw next (ground arith)

fold_carries_lem : (s : ℕ) → s < 2 ^ 32 → IsFolded s (fold_carries 3 s)
fold_carries_lem s h =
    let s1 = s % 65536 + s / 65536 in
    let s2 = s1 % 65536 + s1 / 65536 in
    elim (dec_lt s (2 ^ 16)) [
      | yes l ↦ rw (fold_done 2 s l) (l, refl, (λ e. e, λ e. e))
      | no l ↦ elim (dec_lt s1 (2 ^ 16)) [
        | yes l1 ↦
            rw (fold_once 2 s (omega arith) h, fold_done 1 s1 l1)
              (omega arith, omega arith, (λ e. omega arith, λ e. omega arith))
        | no l1 ↦
            rw
              (
                fold_once 2 s (omega arith) h,
                fold_once 1 s1 (omega arith) (omega arith),
                fold_done 0 s2 (omega arith),
              )
              (omega arith, omega arith, (λ e. omega arith, λ e. omega arith))
      ]
    ]

-- Appending in the middle of the words.
word_sum-append :
    (k : ℕ) (front back : List ℕ)
    → length front ≡ 2 * k
    → word_sum (front ++ back) ≡ word_sum front + word_sum back
unfolding word_sum
word_sum-append zero [] back e = omega arith
word_sum-append zero (x ∷ front) back e = absurd (omega arith)
word_sum-append (suc k) [] back e = absurd (omega arith)
word_sum-append (suc k) (x ∷ []) back e = absurd (omega arith)
word_sum-append (suc k) (x ∷ (y ∷ front)) back e =
    omega (arith, word_sum-append k front back (omega arith))

pub IsBytes-append : (front back : List ℕ) → IsBytes front → IsBytes back → IsBytes (front ++ back)
IsBytes-append [] back f b = b
IsBytes-append (x ∷ front) back f b = (f.0, IsBytes-append front back f.1 b)

pub IsBytes-bytes16 : (x : ℕ) (rest : List ℕ) → IsBytes rest → IsBytes (bytes16 x ++ rest)
IsBytes-bytes16 x rest b = (omega arith, (omega arith, b))

pub IsBytes-bytes32 : (x : ℕ) (rest : List ℕ) → IsBytes rest → IsBytes (bytes32 x ++ rest)
IsBytes-bytes32 x rest b = (omega arith, (omega arith, (omega arith, (omega arith, b))))

-- A block of at most 131,000 bytes has the checksum that its word sum leaves modulo 65535: the sum of the
-- two is a multiple of 65535, the checksum is a 16-bit word, and it is 0xFFFF only for a zero sum.
pub internet_checksum_lem :
    (block : List ℕ)
    → IsBytes block
    → length block ≤ 131000
    → (internet_checksum block < 2 ^ 16)
      × ((internet_checksum block + word_sum block) % 65535 ≡ 0)
      × ((internet_checksum block ≡ 65535) ↔ (word_sum block ≡ 0))
unfolding internet_checksum
internet_checksum_lem block bytes small =
    let bound = word_sum-le block bytes in
    let total = sum_words_lem block 0 (omega arith) in
    let r = fold_carries_lem (sum_words block 0) (omega arith) in
    let under = r.0 in
    let same = r.1 in
    (
      omega arith,
      omega arith,
      (
        λ e. let none_left = r.2.0 (omega arith) in omega arith,
        λ e. let none_left = r.2.1 (omega arith) in omega arith,
      ),
    )

stored_sum :
    (k : ℕ) (front back : List ℕ) (c : ℕ)
    → length front ≡ 2 * k
    → c < 2 ^ 16
    → word_sum (front ++ (bytes16 c ++ back)) ≡ word_sum (front ++ (0 ∷ (0 ∷ back))) + c
unfolding word_sum
stored_sum k front back c even h = omega (
  arith,
  word_sum-append k front (bytes16 c ++ back) even,
  word_sum-append k front (0 ∷ (0 ∷ back)) even,
)

-- A receiver that sums the block with its checksum in place gets 0: when the checksum of a block of
-- at most 130,000 bytes, with a zeroed 16-bit field at an even offset, is stored little-endian in that
-- field, the checksum of the result is 0.
pub internet_checksum-bytes16 :
    (k : ℕ) (front back : List ℕ)
    → length front ≡ 2 * k
    → IsBytes front
    → IsBytes back
    → length front + length back ≤ 130000
    → internet_checksum (front ++ (bytes16 (internet_checksum (front ++ (0 ∷ (0 ∷ back)))) ++ back))
      ≡ 0
internet_checksum-bytes16 k front back even bf bb small =
    let zeroed = front ++ (0 ∷ (0 ∷ back)) in
    let c = internet_checksum zeroed in
    let stored = front ++ (bytes16 c ++ back) in
    let first =
      internet_checksum_lem zeroed
        (IsBytes-append front (0 ∷ (0 ∷ back)) bf (omega arith, (omega arith, bb)))
        (omega (arith, length-append front (0 ∷ (0 ∷ back)))) in
    let second =
      internet_checksum_lem stored
        (IsBytes-append front (bytes16 c ++ back) bf (omega arith, (omega arith, bb)))
        (omega (arith, length-append front (bytes16 c ++ back))) in
    let under = first.0 in
    let sum : word_sum stored ≡ word_sum zeroed + c = stored_sum k front back c even under in
    let whole = second.0 in
    let multiple = first.1 in
    let multiple2 = second.1 in
    elim (ℕ_discrete (internet_checksum stored) 65535) [
      | yes e ↦ let s = second.2.0 e in let t = first.2.1 (omega arith) in absurd (omega arith)
      | no e ↦ omega arith
    ]
