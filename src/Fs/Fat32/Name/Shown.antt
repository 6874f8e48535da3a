-- ===== src/Fs/Fat32/Name/Shown.antt =====
-- src/fs/fat32.cpp: the name that a listing shows is the name that finds the entry.
use layla_os.Base.{
  ℕ, zero, suc, ◌+◌, ◌≤◌, ◌≡◌, ◌≢◌, refl, sym, ap, ◌∙◌, true, false, List, [], ◌∷◌, ◌++◌,
  if◌then◌else◌, ◌==◌, ◌!=◌, length, drop-append, get_or, get_or-drop, arith, append-nil,
}
use layla_os.Net.Wire.{load8, read}
use layla_os.Net.Wire.Read.{read-append}
use layla_os.Fs.Fat32.Name.{
  to_upper, short_base, short_ext, over_blanks, after_dot, to_short_name, match_from,
}
use layla_os.Fs.Fat32.Listing.{visible, listed_name}

-- No blank, no dot and no lower-case letter.
abbrev pub IsShort : List ℕ → Type 0
IsShort [] = Unit {0}
IsShort (c ∷ cs) = (c ≢ b'.') × (c ≢ b' ') × (to_upper c ≡ c) × IsShort cs

pub length-over_blanks : (n : ℕ) (cs : List ℕ) → length (over_blanks n cs) ≡ n
unfolding over_blanks
length-over_blanks zero cs = refl
length-over_blanks (suc n) [] = ap suc (length-over_blanks n [])
length-over_blanks (suc n) (c ∷ cs) = ap suc (length-over_blanks n cs)

short_base-dot :
    (n : ℕ) (cs rest : List ℕ)
    → IsShort cs
    → length cs ≤ n
    → short_base n (cs ++ (b'.' ∷ rest)) ≡ (cs, b'.' ∷ rest)
unfolding short_base
short_base-dot zero [] rest s h = refl
short_base-dot zero (c ∷ cs) rest s h = absurd (omega arith)
short_base-dot (suc n) [] rest s h = refl
short_base-dot (suc n) (c ∷ cs) rest s h =
    let other : (c == b'.') ≡ false = ground (arith, s.0) in
    rw (short_base-dot n cs rest s.3 (omega arith), other, s.2) refl

short_base-nil : (n : ℕ) (cs : List ℕ) → IsShort cs → length cs ≤ n → short_base n cs ≡ (cs, [])
unfolding short_base
short_base-nil zero [] s h = refl
short_base-nil zero (c ∷ cs) s h = absurd (omega arith)
short_base-nil (suc n) [] s h = refl
short_base-nil (suc n) (c ∷ cs) s h =
    let other : (c == b'.') ≡ false = ground (arith, s.0) in
    rw (short_base-nil n cs s.3 (omega arith), other, s.2) refl

short_ext-all : (n : ℕ) (cs : List ℕ) → IsShort cs → length cs ≤ n → short_ext n cs ≡ cs
unfolding short_ext
short_ext-all zero [] s h = refl
short_ext-all zero (c ∷ cs) s h = absurd (omega arith)
short_ext-all (suc n) [] s h = refl
short_ext-all (suc n) (c ∷ cs) s h = rw (short_ext-all n cs s.3 (omega arith), s.2) refl

visible-blanks : (n : ℕ) → visible (over_blanks n []) ≡ []
unfolding visible over_blanks
visible-blanks zero = refl
visible-blanks (suc n) = visible-blanks n

visible-over_blanks :
    (n : ℕ) (cs : List ℕ) → IsShort cs → length cs ≤ n → visible (over_blanks n cs) ≡ cs
unfolding visible over_blanks
visible-over_blanks zero [] s h = refl
visible-over_blanks zero (c ∷ cs) s h = absurd (omega arith)
visible-over_blanks (suc n) [] s h = visible-blanks n
visible-over_blanks (suc n) (c ∷ cs) s h =
    let other : (c != b' ') ≡ true = ground (arith, s.1) in
    rw (visible-over_blanks n cs s.3 (omega arith), other) refl

listed_name-append :
    (xs ys : List ℕ)
    → length xs ≡ 8
    → listed_name (xs ++ ys)
      ≡ visible xs ++ (if load8 ys 0 != b' ' then b'.' ∷ visible (read 3 ys) else [])
unfolding listed_name
listed_name-append xs ys h =
    rw (read-append 8 xs ys h, sym (get_or-drop 8 (xs ++ ys) 0 0), drop-append 8 xs ys h) refl

-- What a listing shows of the entry whose name field holds `base` and `ext` over blanks.
abbrev shown : List ℕ → List ℕ → List ℕ
shown base [] = base
shown base (c ∷ ext) = base ++ (b'.' ∷ (c ∷ ext))

module _ (base : List ℕ) (short : IsShort base) (fits : length base ≤ 8) where
  listed_name-shown :
      (ext more : List ℕ)
      → IsShort ext
      → length ext ≤ 3
      → listed_name (over_blanks 8 base ++ (over_blanks 3 ext ++ more)) ≡ shown base ext
  unfolding over_blanks
  listed_name-shown [] more s h =
      listed_name-append (over_blanks 8 base) (over_blanks 3 [] ++ more) (length-over_blanks 8 base)
      ∙ append-nil (visible (over_blanks 8 base))
      ∙ visible-over_blanks 8 base short fits
  listed_name-shown (c ∷ ext) more s h =
      let other : (c != b' ') ≡ true = ground (arith, s.1) in
      listed_name-append (over_blanks 8 base) (over_blanks 3 (c ∷ ext) ++ more)
        (length-over_blanks 8 base)
      ∙ rw
          (
            other,
            read-append 3 (over_blanks 3 (c ∷ ext)) more (length-over_blanks 3 (c ∷ ext)),
            visible-over_blanks 3 (c ∷ ext) s h,
            visible-over_blanks 8 base short fits,
          )
          refl

  to_short_name-shown :
      (ext : List ℕ)
      → IsShort ext
      → length ext ≤ 3
      → to_short_name (shown base ext) ≡ over_blanks 8 base ++ over_blanks 3 ext
  unfolding to_short_name after_dot
  to_short_name-shown [] s h = rw (short_base-nil 8 base short fits) refl
  to_short_name-shown (c ∷ ext) s h =
      rw (short_base-dot 8 base (c ∷ ext) short fits, short_ext-all 3 (c ∷ ext) s h) refl

-- The name that a listing shows of an entry finds the entry again: as a component of a path it
-- becomes the entry's eleven characters. The entry's name and extension hold no blank, dot or
-- lower-case letter before the blanks that fill them up.
pub to_short_name-listed_name :
    (base ext more : List ℕ)
    → IsShort base
    → IsShort ext
    → length base ≤ 8
    → length ext ≤ 3
    → to_short_name (listed_name (over_blanks 8 base ++ (over_blanks 3 ext ++ more)))
      ≡ over_blanks 8 base ++ over_blanks 3 ext
to_short_name-listed_name base ext more b e hb he =
    ap to_short_name (listed_name-shown base b hb ext more e he)
    ∙ to_short_name-shown base b hb ext e he

-- The comparison is equality of the eleven characters.
pub match_from-agree :
    (n i : ℕ) (xs ys : List ℕ)
    → ((k : ℕ) → i ≤ k → suc k ≤ i + n → get_or xs k 0 ≡ get_or ys k 0)
    → match_from n i xs ys ≡ true
unfolding match_from
match_from-agree zero i xs ys h = refl
match_from-agree (suc n) i xs ys h =
    let same : (get_or xs i 0 == get_or ys i 0) ≡ true =
      ground (arith, h i (omega arith) (omega arith)) in
    rw same (match_from-agree n (i + 1) xs ys (λ k lo hi. h k (omega arith) (omega arith)))
