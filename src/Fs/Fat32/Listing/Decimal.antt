-- ===== src/Fs/Fat32/Listing/Decimal.antt =====
-- src/fs/fat32.cpp, `fat_output_u32`: the number that the digits stand for.
use layla_os.Base.{
  ℕ, zero, suc, ◌+◌, ◌-◌, ◌*◌, ◌/◌, ◌%◌, ◌^◌, ◌≤◌, ◌<◌, ◌≡◌, refl, ◌∙◌, inl, inr, Bool-cases, List,
  [], ◌∷◌, ◌++◌, ltb, ◌==◌, length, length-append, arith,
}
use native.Mathlib.Nat.{pow-suc}
use layla_os.Fs.Fat32.Listing.{Output, output_u32, digits_of}
use layla_os.Fs.Fat32.Listing.Text.{text, rev, decimal, text-output_u32}

-- The number that a text of digits stands for, behind the number `acc`.
abbrev pub parse : ℕ → List ℕ → ℕ
parse acc [] = acc
parse acc (c ∷ cs) = parse (acc * 10 + (c - b'0')) cs

abbrev pub IsDigits : List ℕ → Type 0
IsDigits [] = Unit {0}
IsDigits (c ∷ cs) = (b'0' ≤ c) × (c ≤ b'9') × IsDigits cs

parse-append : (cs ds : List ℕ) (acc : ℕ) → parse acc (cs ++ ds) ≡ parse (parse acc cs) ds
parse-append [] ds acc = refl
parse-append (c ∷ cs) ds acc = parse-append cs ds (acc * 10 + (c - b'0'))

IsDigits-append : (cs ds : List ℕ) → IsDigits cs → IsDigits ds → IsDigits (cs ++ ds)
IsDigits-append [] ds h k = k
IsDigits-append (c ∷ cs) ds h k = (h.0, h.1, IsDigits-append cs ds h.2 k)

digits_of-parse : (n value : ℕ) → value < 10 ^ n → parse 0 (rev (digits_of n value)) ≡ value
unfolding digits_of
digits_of-parse zero value h = omega arith
digits_of-parse (suc n) value h =
    let rest = digits_of-parse n (value / 10) (omega (arith, pow-suc 10 n)) in
    elim (Bool-cases (ltb 0 value)) [
      | inr e ↦ rw e (ground arith)
      | inl e ↦ rw e (
          parse-append (rev (digits_of n (value / 10))) ((b'0' + value % 10) ∷ []) 0
          ∙ omega (arith, rest))
    ]

IsDigits-digits_of : (n value : ℕ) → IsDigits (rev (digits_of n value))
unfolding digits_of
IsDigits-digits_of zero value = tt
IsDigits-digits_of (suc n) value = elim (Bool-cases (ltb 0 value)) [
  | inr e ↦ rw e tt
  | inl e ↦ rw e (
      IsDigits-append (rev (digits_of n (value / 10))) ((b'0' + value % 10) ∷ [])
        (IsDigits-digits_of n (value / 10)) (omega arith, omega arith, tt))
]

length-digits_of : (n value : ℕ) → length (rev (digits_of n value)) ≤ n
unfolding digits_of
length-digits_of zero value = omega arith
length-digits_of (suc n) value = elim (Bool-cases (ltb 0 value)) [
  | inr e ↦ rw e (omega arith)
  | inl e ↦ rw e (
      omega (
        arith,
        length-append (rev (digits_of n (value / 10))) ((b'0' + value % 10) ∷ []),
        length-digits_of n (value / 10),
      ))
]

-- The decimal number that fat_output_u32 adds to the output is the 32-bit value: it has at most ten
-- characters, all of them digits, and reading them gives the value again.
pub output_u32-parse :
    (o : Output) (value : ℕ)
    → value < 2 ^ 32
    → (digits : List ℕ) × (text (output_u32 o value) ≡ text o ++ digits)
      × IsDigits digits
      × (length digits ≤ 10)
      × (parse 0 digits ≡ value)
unfolding decimal
output_u32-parse o value h = (
  decimal value,
  text-output_u32 o value,
  elim (Bool-cases (value == 0)) [
    | inl e ↦ rw e (omega arith, omega arith, tt)
    | inr e ↦ rw e (IsDigits-digits_of 10 value)
  ],
  elim (Bool-cases (value == 0)) [
    | inl e ↦ rw e (omega arith)
    | inr e ↦ rw e (length-digits_of 10 value)
  ],
  elim (Bool-cases (value == 0)) [
    | inl e ↦ rw e (ground arith)
    | inr e ↦ rw e (digits_of-parse 10 value (omega arith))
  ],
)
