-- ===== src/Fs/Fat32/Path.antt =====
-- src/fs/fat32.cpp, `ResolvePath`, `ResolveParentDir` and `IsDirectory`.
pub mod Ends
pub mod Split
use layla_os.Base.{
  ℕ, zero, suc, Bool, true, false, Option, none, some, List, [], ◌∷◌, if◌then◌else◌, ◌==◌, length,
}
use layla_os.Fs.Disk.{Cmd, out_of_fuel, pure, ◌>>=◌}
use layla_os.Fs.Fat32.{Fat32}
use layla_os.Fs.Fat32.Entry.{Fat32DirEntry, first_cluster, is_directory}
use layla_os.Fs.Fat32.Directory.{find_entry}

pub data Resolved : Type 0 where
  not_found : Resolved
  at_root : Resolved
  entry : Fat32DirEntry → Resolved

-- The loop that fills `component`, with room for `n` characters, and the path after it.
unfoldable pub take_component : ℕ → List ℕ → List ℕ × List ℕ
take_component zero path = ([], path)
take_component (suc n) [] = ([], [])
take_component (suc n) (c ∷ path) =
    let rest = take_component n path in if c == b'/' then ([], c ∷ path) else (c ∷ rest.0, rest.1)

-- `while (path[i] == '/') i++`.
unfoldable pub skip_slashes : List ℕ → List ℕ
skip_slashes [] = []
skip_slashes (c ∷ path) = let rest = skip_slashes path in if c == b'/' then rest else c ∷ path

-- `if (path[i] == '/') i++`.
unfoldable pub skip_slash : List ℕ → List ℕ
skip_slash [] = []
skip_slash (c ∷ path) = if c == b'/' then path else c ∷ path

module _ (fs : Fat32) where
  -- Every round takes a character of the path, so its length is enough fuel.
  unfoldable pub resolve_loop : ℕ → ℕ → List ℕ → Cmd Resolved
  resolve_loop zero dir_cluster path = λ _. out_of_fuel
  resolve_loop (suc fuel) dir_cluster path =
      let parts = take_component 12 path in
      find_entry fs dir_cluster parts.0 >>= λ e. elim e [
        | none ↦ pure not_found
        | some e ↦ elim (skip_slashes parts.1) [
          | [] ↦ pure (entry e)
          | c ∷ rest ↦
              if is_directory e
              then resolve_loop fuel (first_cluster e) (c ∷ rest)
              else pure not_found
        ]
      ]

  unfoldable pub resolve_path : List ℕ → Cmd Resolved
  resolve_path path = elim (skip_slashes path) [
    | [] ↦ pure at_root
    | c ∷ rest ↦ resolve_loop (length path) fs.bpb.root_cluster (c ∷ rest)
  ]

  -- The directory of the last component, and that component.
  unfoldable pub parent_loop : ℕ → ℕ → List ℕ → Cmd (Option (ℕ × List ℕ))
  parent_loop fuel dir_cluster [] = pure none
  parent_loop zero dir_cluster (c ∷ path) = λ _. out_of_fuel
  parent_loop (suc fuel) dir_cluster (c ∷ path) =
      let parts = take_component 12 (c ∷ path) in
      elim (skip_slash parts.1) [
        | [] ↦ pure (some (dir_cluster, parts.0))
        | c' ∷ rest ↦ find_entry fs dir_cluster parts.0 >>= λ e. elim e [
          | none ↦ pure none
          | some e ↦
              if is_directory e then parent_loop fuel (first_cluster e) (c' ∷ rest) else pure none
        ]
      ]

  unfoldable pub resolve_parent_dir : List ℕ → Cmd (Option (ℕ × List ℕ))
  resolve_parent_dir path = parent_loop (length path) fs.bpb.root_cluster (skip_slash path)

  unfoldable pub is_directory_path : List ℕ → Cmd Bool
  is_directory_path path = resolve_path path >>= λ r. elim r [
    | not_found ↦ pure false
    | at_root ↦ pure true
    | entry e ↦ pure (is_directory e)
  ]
