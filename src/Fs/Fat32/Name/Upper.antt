-- ===== src/Fs/Fat32/Name/Upper.antt =====
-- src/fs/fat32.cpp, `ToShortName`: the case of letters.
use layla_os.Base.{
  ℕ, zero, suc, ◌≡◌, refl, ap₂, Bool-cases, inl, inr, List, [], ◌∷◌, map, ◌==◌, arith,
}
use layla_os.Fs.Fat32.Name.{to_upper, short_base, short_ext, after_dot, to_short_name}

to_upper_twice : (c : ℕ) → to_upper (to_upper c) ≡ to_upper c
to_upper_twice c = ground arith

dot-to_upper : (c : ℕ) → (to_upper c == b'.') ≡ (c == b'.')
dot-to_upper c = ground arith

short_ext-map : (n : ℕ) (cs : List ℕ) → short_ext n (map to_upper cs) ≡ short_ext n cs
unfolding short_ext
short_ext-map zero cs = refl
short_ext-map (suc n) [] = refl
short_ext-map (suc n) (c ∷ cs) =
    ap₂ (λ (x : ℕ) (t : List ℕ). x ∷ t) (to_upper_twice c) (short_ext-map n cs)

short_base-map :
    (n : ℕ) (cs : List ℕ)
    → short_base n (map to_upper cs) ≡ ((short_base n cs).0, map to_upper (short_base n cs).1)
unfolding short_base
short_base-map zero cs = refl
short_base-map (suc n) [] = refl
short_base-map (suc n) (c ∷ cs) = elim (Bool-cases (c == b'.')) [
  | inl e ↦ rw (dot-to_upper c, e) refl
  | inr e ↦ rw (dot-to_upper c, e, short_base-map n cs, to_upper_twice c) refl
]

after_dot-map : (cs : List ℕ) → after_dot (map to_upper cs) ≡ after_dot cs
unfolding after_dot
after_dot-map [] = refl
after_dot-map (c ∷ cs) = rw (dot-to_upper c, short_ext-map 3 cs) refl

-- A component and the component in upper case give the same eleven characters, so that paths
-- are compared without regard to case.
pub to_short_name-map :
    (component : List ℕ) → to_short_name (map to_upper component) ≡ to_short_name component
unfolding to_short_name
to_short_name-map component =
    let parts = short_base 8 component in
    rw (short_base-map 8 component, after_dot-map parts.1) refl
