-- ===== src/Memory/Pmm/Search.antt =====
-- `FirstFree` finds the lowest free frame, or there is none.
use layla_os.Base.{
  ℕ, zero, suc, ◌+◌, ◌*◌, ◌/◌, ◌%◌, ◌^◌, ◌≤◌, ◌<◌, ◌≡◌, true, Option, none, some, List, ltb, ◌!=◌,
  ◌&&◌, get_or, bit_and, bit-zero, bit-not32, bit_and-pow, bit-lt_two, not32, u32, arith,
  Bool-cases, inl, inr, ◌↔◌, subst, dec_lt, refl,
}
use native.Mathlib.Nat.{one-le-pow}
use layla_os.Memory.Pmm.{Pmm, scan_bits, scan_words, first_free, dwords}
use layla_os.Memory.Pmm.Bitmap.{used, used-lt_two, AreWords}

-- Frames `lo` to `hi`, below `total`, are used.
abbrev pub AllUsed : List ℕ → ℕ → ℕ → ℕ → Type 0
AllUsed bm total lo hi = (g : ℕ) → lo ≤ g → g < hi → g < total → used bm g ≡ 1

-- What a search from frame `lo` to frame `hi` has found.
abbrev pub Found : List ℕ → ℕ → ℕ → ℕ → Option ℕ → Type 0
Found bm total lo hi none = AllUsed bm total lo hi
Found bm total lo hi (some f) =
    (lo ≤ f) × (f < hi) × (f < total) × (used bm f ≡ 0) × AllUsed bm total lo f

-- The test of one digit of the inverted word.
free_digit :
    (bm : List ℕ) (i b : ℕ)
    → AreWords bm
    → b < 32
    → ((bit_and (not32 (get_or bm i 0)) (2 ^ b) != 0) ≡ true) ↔ (used bm (i * 32 + b) ≡ 0)
unfolding used
free_digit bm i b a h =
    let e : (i * 32 + b) / 32 ≡ i = omega arith in
    let m : (i * 32 + b) % 32 ≡ b = omega arith in
    rw (e, m)
      (ground (
        arith,
        bit_and-pow b (not32 (get_or bm i 0)),
        bit-not32 b (get_or bm i 0) h (a i),
        bit-lt_two b (get_or bm i 0),
        one-le-pow b 2,
      ))

AllUsed-next :
    (bm : List ℕ) (total lo hi : ℕ)
    → (lo < total → used bm lo ≡ 1)
    → AllUsed bm total (lo + 1) hi
    → AllUsed bm total lo hi
AllUsed-next bm total lo hi h f g l u t = elim (dec_lt lo g) [
  | yes p ↦ f g (omega arith) u t
  | no p ↦ let e : g ≡ lo = omega arith in rw e (h (omega arith))
]

Found-next :
    (bm : List ℕ) (total lo hi : ℕ) (r : Option ℕ)
    → (lo < total → used bm lo ≡ 1)
    → Found bm total (lo + 1) hi r
    → Found bm total lo hi r
Found-next bm total lo hi none h f = AllUsed-next bm total lo hi h f
Found-next bm total lo hi (some k) h f =
    (omega arith, f.1, f.2, f.3, AllUsed-next bm total lo k h f.4)

scan_bits-Found :
    (bm : List ℕ) (total i b n : ℕ)
    → AreWords bm
    → i < 2 ^ 26
    → b + n ≡ 32
    → Found bm total (i * 32 + b) (i * 32 + 32) (scan_bits total (not32 (get_or bm i 0)) i b n)
unfolding scan_bits
scan_bits-Found bm total i b zero a hi e = λ g l u t. absurd (omega arith)
scan_bits-Found bm total i b (suc n) a hi e =
    let test = bit_and (not32 (get_or bm i 0)) (2 ^ b) != 0 && ltb (u32 (i * 32 + b)) total in
    let digit = free_digit bm i b a (omega arith) in
    let small : u32 (i * 32 + b) ≡ i * 32 + b = omega arith in
    elim (Bool-cases test) [
      | inl hit ↦ rw hit (
          rw small (
            omega arith,
            omega arith,
            ground (arith, digit),
            ground (arith, digit),
            λ g l u t. absurd (omega arith),
          ))
      | inr miss ↦ rw miss (
          Found-next bm total (i * 32 + b) (i * 32 + 32) _
            (ground (arith, digit, used-lt_two bm (i * 32 + b)))
            (subst
              (λ k.
                Found bm total k (i * 32 + 32)
                  (scan_bits total (not32 (get_or bm i 0)) i (b + 1) n))
              (omega arith) (scan_bits-Found bm total i (b + 1) n a hi (omega arith))))
    ]

-- A word of ones has no free frame.
pub full_word : (bm : List ℕ) (i g : ℕ) → get_or bm i 0 ≡ 0xFFFFFFFF → g / 32 ≡ i → used bm g ≡ 1
unfolding used
full_word bm i g e p =
    rw (p, e) (omega (arith, bit-not32 (g % 32) 0 (omega arith) (omega arith), bit-zero (g % 32)))

Found-append :
    (bm : List ℕ) (total lo mid hi : ℕ) (r : Option ℕ)
    → lo ≤ mid
    → AllUsed bm total lo mid
    → Found bm total mid hi r
    → Found bm total lo hi r
Found-append bm total lo mid hi none q f r =
    λ g l u t. elim (dec_lt g mid) [ yes p ↦ f g l p t | no p ↦ r g (omega arith) u t ]
Found-append bm total lo mid hi (some k) q f r = (
  omega arith,
  r.1,
  r.2,
  r.3,
  λ g l u t. elim (dec_lt g mid) [ yes p ↦ f g l p t | no p ↦ r.4 g (omega arith) u t ],
)

Found-or_else :
    (bm : List ℕ) (total lo mid hi : ℕ) (r rest : Option ℕ)
    → lo ≤ mid
    → mid ≤ hi
    → Found bm total lo mid r
    → Found bm total mid hi rest
    → Found bm total lo hi (elim r [ none ↦ rest | some f ↦ some f ])
Found-or_else bm total lo mid hi none rest q q' f g = Found-append bm total lo mid hi rest q f g
Found-or_else bm total lo mid hi (some k) rest q q' f g = (f.0, omega (arith, f.1), f.2, f.3, f.4)

Found-total :
    (bm : List ℕ) (total hi : ℕ) (r : Option ℕ)
    → total ≤ hi
    → Found bm total 0 hi r
    → Found bm total 0 total r
Found-total bm total hi none q f = λ g l u t. f g l (omega arith) t
Found-total bm total hi (some k) q f = (f.0, f.2, f.2, f.3, f.4)

scan_words-Found :
    (bm : List ℕ) (total i n : ℕ)
    → AreWords bm
    → i + n ≤ 2 ^ 26
    → Found bm total (i * 32) ((i + n) * 32) (scan_words bm total i n)
unfolding scan_words
scan_words-Found bm total i zero a h = λ g l u t. absurd (omega arith)
scan_words-Found bm total i (suc n) a h =
    let rest =
      subst (λ k. Found bm total k ((i + suc n) * 32) (scan_words bm total (i + 1) n))
        {x = (i + 1) * 32} {y = i * 32 + 32} (omega arith)
        (subst (λ k. Found bm total ((i + 1) * 32) k (scan_words bm total (i + 1) n))
          {x = (i + 1 + n) * 32} {y = (i + suc n) * 32} (omega arith)
          (scan_words-Found bm total (i + 1) n a (omega arith))) in
    let word =
      subst (λ k. Found bm total k (i * 32 + 32) (scan_bits total (not32 (get_or bm i 0)) i 0 32))
        {x = i * 32 + 0} {y = i * 32} (omega arith)
        (scan_bits-Found bm total i 0 32 a (omega arith) refl) in
    elim (Bool-cases (get_or bm i 0 != 0xFFFFFFFF)) [
      | inl partly ↦ rw partly (
          Found-or_else bm total (i * 32) (i * 32 + 32) ((i + suc n) * 32)
            (scan_bits total (not32 (get_or bm i 0)) i 0 32) (scan_words bm total (i + 1) n)
            (omega arith) (omega arith) word rest)
      | inr full ↦ rw full (
          Found-append bm total (i * 32) (i * 32 + 32) ((i + suc n) * 32)
            (scan_words bm total (i + 1) n) (omega arith)
            (λ g l u t. full_word bm i g (ground arith) (omega arith)) rest)
    ]

-- `FirstFree` returns the lowest frame that is free, and -1 only if every frame is used.
pub first_free_lem :
    (p : Pmm)
    → AreWords p.bitmap
    → p.total_frames ≤ 2 ^ 20
    → Found p.bitmap p.total_frames 0 p.total_frames (first_free p)
unfolding first_free
first_free_lem p a h =
    Found-total p.bitmap p.total_frames ((0 + dwords p.total_frames) * 32)
      (scan_words p.bitmap p.total_frames 0 (dwords p.total_frames)) (omega arith)
      (scan_words-Found p.bitmap p.total_frames 0 (dwords p.total_frames) a (omega arith))
