-- ===== src/Fs/Fat32/Path/Split.antt =====
-- src/fs/fat32.cpp, `ResolvePath`: a component of a path that is too long.
use layla_os.Base.{
  ℕ, zero, suc, ◌≡◌, refl, sym, ap, ap₂, ◌∙◌, false, List, [], ◌∷◌, ◌++◌, ◌==◌, length, arith,
}
use layla_os.Fs.Fat32.{Fat32}
use layla_os.Fs.Fat32.Path.Ends.{walk, resolve_loop-walk}
use layla_os.Fs.Fat32.Path.{take_component, skip_slashes, resolve_loop}

abbrev pub HasNoSlash : List ℕ → Type 0
HasNoSlash [] = Unit {0}
HasNoSlash (c ∷ cs) = ((c == b'/') ≡ false) × HasNoSlash cs

take_component-full :
    (n : ℕ) (cs rest : List ℕ)
    → length cs ≡ n
    → HasNoSlash cs
    → take_component n (cs ++ rest) ≡ (cs, rest)
unfolding take_component
take_component-full zero [] rest h s = refl
take_component-full zero (c ∷ cs) rest h s = absurd (omega arith)
take_component-full (suc n) [] rest h s = absurd (omega arith)
take_component-full (suc n) (c ∷ cs) rest h s =
    rw (s.0, take_component-full n cs rest (omega arith) s.1) refl

skip_slashes-cons :
    (c : ℕ) (rest : List ℕ)
    → (c == b'/') ≡ false
    → skip_slashes (b'/' ∷ (c ∷ rest)) ≡ skip_slashes (c ∷ rest)
unfolding skip_slashes
skip_slashes-cons c rest h = refl

-- A component of more than twelve characters is not refused: the walk takes its first twelve for
-- a directory and the rest for a component of its own, as if a slash stood between them.
pub resolve_loop-split :
    (fs : Fat32) (fuel dir_cluster : ℕ) (front : List ℕ) (c : ℕ) (rest : List ℕ)
    → length front ≡ 12
    → HasNoSlash front
    → (c == b'/') ≡ false
    → resolve_loop fs (suc fuel) dir_cluster (front ++ (c ∷ rest))
      ≡ resolve_loop fs (suc fuel) dir_cluster (front ++ (b'/' ∷ (c ∷ rest)))
resolve_loop-split fs fuel dir_cluster front c rest h s e =
    let whole = front ++ (c ∷ rest) in
    let split = front ++ (b'/' ∷ (c ∷ rest)) in
    let name : (take_component 12 whole).0 ≡ (take_component 12 split).0 =
      ap (λ (p : List ℕ × List ℕ). p.0) (take_component-full 12 front (c ∷ rest) h s)
      ∙ sym (
          ap (λ (p : List ℕ × List ℕ). p.0)
            (take_component-full 12 front (b'/' ∷ (c ∷ rest)) h s)) in
    let after : skip_slashes (take_component 12 whole).1
        ≡ skip_slashes (take_component 12 split).1 =
      ap (λ (p : List ℕ × List ℕ). skip_slashes p.1) (take_component-full 12 front (c ∷ rest) h s)
      ∙ sym (
          ap (λ (p : List ℕ × List ℕ). skip_slashes p.1)
            (take_component-full 12 front (b'/' ∷ (c ∷ rest)) h s)
          ∙ skip_slashes-cons c rest e) in
    resolve_loop-walk fs fuel dir_cluster whole
    ∙ ap₂ (walk fs fuel dir_cluster) name after
    ∙ sym (resolve_loop-walk fs fuel dir_cluster split)
