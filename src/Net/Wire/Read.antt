-- ===== src/Net/Wire/Read.antt =====
-- Net/Wire `read`: the bytes that a copy loop takes from a pointer.
use layla_os.Base.{
  ℕ, zero, suc, ◌+◌, ◌≤◌, List, [], ◌∷◌, ◌++◌, ◌≡◌, refl, ap, ◌∙◌, length, take, drop, drop-nil,
  drop-append, ap₂, get_or, ◌<◌, arith,
}
use layla_os.Net.Wire.{read}

pub length-read : (n : ℕ) (mem : List ℕ) → length (read n mem) ≡ n
length-read zero mem = refl
length-read (suc n) [] = ap suc (length-read n [])
length-read (suc n) (x ∷ mem) = ap suc (length-read n mem)

pub read-append : (n : ℕ) (xs ys : List ℕ) → length xs ≡ n → read n (xs ++ ys) ≡ xs
read-append zero [] ys h = refl
read-append zero (x ∷ xs) ys h = absurd (omega arith)
read-append (suc n) [] ys h = absurd (omega arith)
read-append (suc n) (x ∷ xs) ys h = ap (λ (t : List ℕ). x ∷ t) (read-append n xs ys (omega arith))

pub read-length : (xs : List ℕ) → read (length xs) xs ≡ xs
read-length [] = refl
read-length (x ∷ xs) = ap (λ (t : List ℕ). x ∷ t) (read-length xs)

pub read-eq-take : (n : ℕ) (xs : List ℕ) → n ≤ length xs → read n xs ≡ take n xs
read-eq-take zero xs h = refl
read-eq-take (suc n) [] h = absurd (omega arith)
read-eq-take (suc n) (x ∷ xs) h = ap (λ (t : List ℕ). x ∷ t) (read-eq-take n xs (omega arith))

pub get_or-read : (n : ℕ) (xs : List ℕ) (i : ℕ) → i < n → get_or (read n xs) i 0 ≡ get_or xs i 0
get_or-read zero xs i h = absurd (omega arith)
get_or-read (suc n) [] zero h = refl
get_or-read (suc n) [] (suc i) h = get_or-read n [] i (omega arith)
get_or-read (suc n) (x ∷ xs) zero h = refl
get_or-read (suc n) (x ∷ xs) (suc i) h = get_or-read n xs i (omega arith)

pub read-add : (a b : ℕ) (xs : List ℕ) → read (a + b) xs ≡ read a xs ++ read b (drop a xs)
read-add zero b xs = ap (λ (k : ℕ). read k xs) {x = 0 + b} {y = b} (omega arith)
read-add (suc a) b [] =
    ap (λ (k : ℕ). read k []) {x = suc a + b} {y = suc (a + b)} (omega arith)
    ∙ ap (λ (t : List ℕ). 0 ∷ t)
        (read-add a b [] ∙ ap (λ (t : List ℕ). read a [] ++ read b t) (drop-nil a))
read-add (suc a) b (x ∷ xs) =
    ap (λ (k : ℕ). read k (x ∷ xs)) {x = suc a + b} {y = suc (a + b)} (omega arith)
    ∙ ap (λ (t : List ℕ). x ∷ t) (read-add a b xs)

pub read-add-append :
    (a b : ℕ) (xs ys : List ℕ) → length xs ≡ a → read (a + b) (xs ++ ys) ≡ xs ++ read b ys
read-add-append a b xs ys h =
    read-add a b (xs ++ ys)
    ∙ ap₂ (λ (s t : List ℕ). s ++ read b t) (read-append a xs ys h) (drop-append a xs ys h)

pub read-append_within : (n : ℕ) (xs ys : List ℕ) → n ≤ length xs → read n (xs ++ ys) ≡ read n xs
read-append_within zero xs ys h = refl
read-append_within (suc n) [] ys h = absurd (omega arith)
read-append_within (suc n) (x ∷ xs) ys h =
    ap (λ (t : List ℕ). x ∷ t) (read-append_within n xs ys (omega arith))

pub read-read : (n m : ℕ) (xs : List ℕ) → n ≤ m → read n (read m xs) ≡ read n xs
read-read zero m xs h = refl
read-read (suc n) zero xs h = absurd (omega arith)
read-read (suc n) (suc m) [] h = ap (λ (t : List ℕ). 0 ∷ t) (read-read n m [] (omega arith))
read-read (suc n) (suc m) (x ∷ xs) h = ap (λ (t : List ℕ). x ∷ t) (read-read n m xs (omega arith))
