-- ===== src/Fs/Fat32/Path/Ends.antt =====
-- src/fs/fat32.cpp, `ResolvePath`: the walk along a path ends.
use layla_os.Base.{
  ℕ, zero, suc, ◌≤◌, ◌≡◌, refl, sym, ap, ◌∙◌, inl, inr, Bool-cases, false, Option, none, some, List,
  [], ◌∷◌, if◌then◌else◌, ◌==◌, length, get_or, arith,
}
use layla_os.Fs.Disk.{Disk, Cmd, pure, ok, ◌>>=◌}
use layla_os.Fs.Fat32.{Fat32}
use layla_os.Fs.Fat32.Entry.{Fat32DirEntry, first_cluster, is_directory}
use layla_os.Fs.Fat32.Directory.{find_entry}
use layla_os.Fs.Fat32.Path.{
  Resolved, not_found, at_root, entry, take_component, skip_slashes, resolve_loop, resolve_path,
}

length-skip_slashes : (path : List ℕ) → length (skip_slashes path) ≤ length path
unfolding skip_slashes
length-skip_slashes [] = omega arith
length-skip_slashes (c ∷ path) = elim (Bool-cases (c == b'/')) [
  | inl e ↦ rw e (omega (arith, length-skip_slashes path))
  | inr e ↦ rw e (omega arith)
]

-- What is left after the slashes begins with another character.
skip_slashes-head :
    (path : List ℕ) (c : ℕ) (rest : List ℕ) → skip_slashes path ≡ c ∷ rest → (c == b'/') ≡ false
unfolding skip_slashes
skip_slashes-head [] c rest h = cc
skip_slashes-head (x ∷ path) c rest h = elim (Bool-cases (x == b'/')) [
  | inl e ↦ skip_slashes-head path c rest (rw e at h)
  | inr e ↦ ap (λ (k : ℕ). k == b'/') (ap (λ (l : List ℕ). get_or l 0 0) (sym (rw e at h))) ∙ e
]

length-take_component : (n : ℕ) (path : List ℕ) → length (take_component n path).1 ≤ length path
unfolding take_component
length-take_component zero path = omega arith
length-take_component (suc n) [] = omega arith
length-take_component (suc n) (c ∷ path) = elim (Bool-cases (c == b'/')) [
  | inl e ↦ rw e (omega arith)
  | inr e ↦ rw e (omega (arith, length-take_component n path))
]

-- A component takes at least one character that is no slash.
take_component-shorter :
    (c : ℕ) (path : List ℕ)
    → (c == b'/') ≡ false
    → length (take_component 12 (c ∷ path)).1 ≤ length path
unfolding take_component
take_component-shorter c path e = rw e (length-take_component 11 path)

-- The search of a directory returns, whatever the directory and the name.
abbrev pub Finds : Fat32 → Disk → Type 0
Finds fs d =
    (dir_cluster : ℕ) (name : List ℕ)
    → (r : Option Fat32DirEntry) × (find_entry fs dir_cluster name d ≡ ok r d)

module _ (fs : Fat32) where
  -- A round, for the component's name and the path that follows it.
  abbrev pub walk : ℕ → ℕ → List ℕ → List ℕ → Cmd Resolved
  walk fuel dir_cluster name rest = find_entry fs dir_cluster name >>= λ e. elim e [
    | none ↦ pure not_found
    | some e ↦ elim rest [
      | [] ↦ pure (entry e)
      | c ∷ rest ↦
          if is_directory e
          then resolve_loop fs fuel (first_cluster e) (c ∷ rest)
          else pure not_found
    ]
  ]

  pub resolve_loop-walk :
      (fuel dir_cluster : ℕ) (path : List ℕ)
      → let parts = take_component 12 path in
        resolve_loop fs (suc fuel) dir_cluster path
        ≡ walk fuel dir_cluster parts.0 (skip_slashes parts.1)
  unfolding resolve_loop
  resolve_loop-walk fuel dir_cluster path = refl

  abbrev Returns : Cmd Resolved → Disk → Type 0
  Returns m d = (r : Resolved) × (m d ≡ ok r d)

  walk-Returns :
      (d : Disk) (fuel dir_cluster : ℕ) (name rest : List ℕ) (e : Option Fat32DirEntry)
      → find_entry fs dir_cluster name d ≡ ok e d
      → ((dir c : ℕ) (more : List ℕ)
          → rest ≡ c ∷ more
          → Returns (resolve_loop fs fuel dir (c ∷ more)) d)
      → Returns (walk fuel dir_cluster name rest) d
  walk-Returns d fuel dir_cluster name rest none eq onward = (not_found, rw eq refl)
  walk-Returns d fuel dir_cluster name [] (some e) eq onward = (entry e, rw eq refl)
  walk-Returns d fuel dir_cluster name (c ∷ more) (some e) eq onward =
      elim (Bool-cases (is_directory e)) [
        | inl dir ↦ let (r, rest) = onward (first_cluster e) c more refl in (r, rw eq (rw dir rest))
        | inr file ↦ (not_found, rw eq (rw file refl))
      ]

  resolve_loop-Returns :
      (d : Disk) (finds : Finds fs d) (fuel dir_cluster c : ℕ) (path : List ℕ)
      → (c == b'/') ≡ false
      → suc (length path) ≤ fuel
      → Returns (resolve_loop fs fuel dir_cluster (c ∷ path)) d
  resolve_loop-Returns d finds zero dir_cluster c path e f = absurd (omega arith)
  resolve_loop-Returns d finds (suc fuel) dir_cluster c path e f =
      let parts = take_component 12 (c ∷ path) in
      let (r, eq) = finds dir_cluster parts.0 in
      let shorter = take_component-shorter c path e in
      let (out, ends) =
        walk-Returns d fuel dir_cluster parts.0 (skip_slashes parts.1) r eq (λ dir c' more split.
          resolve_loop-Returns d finds fuel dir c' more (skip_slashes-head parts.1 c' more split)
            (omega (arith, shorter, length-skip_slashes parts.1, ap length split))) in
      (out, ap (λ (m : Cmd Resolved). m d) (resolve_loop-walk fuel dir_cluster (c ∷ path)) ∙ ends)

  resolve_path_from :
      (d : Disk) (finds : Finds fs d) (path rest : List ℕ)
      → skip_slashes path ≡ rest
      → Returns (resolve_path fs path) d
  unfolding resolve_path
  resolve_path_from d finds path [] e = (at_root, rw (resolve_path, e) refl)
  resolve_path_from d finds path (c ∷ rest) e =
      let opened : resolve_path fs path d
          ≡ resolve_loop fs (length path) fs.bpb.root_cluster (c ∷ rest) d =
        rw (resolve_path, e) refl in
      let (r, ends) =
        resolve_loop-Returns d finds (length path) fs.bpb.root_cluster c rest
          (skip_slashes-head path c rest e)
          (omega (arith, length-skip_slashes path, ap length e)) in
      (r, opened ∙ ends)

-- ResolvePath ends on every path and does not touch the disk, as long as the search of a directory
-- does: the length of the path bounds the number of components.
pub resolve_path-ends :
    (fs : Fat32) (d : Disk) (path : List ℕ)
    → Finds fs d
    → (r : Resolved) × (resolve_path fs path d ≡ ok r d)
resolve_path-ends fs d path finds = resolve_path_from fs d finds path (skip_slashes path) refl
