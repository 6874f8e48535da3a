-- ===== src/Fs/Fat32/File.antt =====
-- src/fs/fat32.cpp: `ReadFile`, `WriteClusterChain`, `WriteFile`, `DeleteFile`, `CreateFile`, `MakeDir`.
pub mod Chain
pub mod Written
pub mod Loop
pub mod ReadBack
use layla_os.Base.{
  ℕ, zero, suc, ◌+◌, ◌-◌, Bool, true, false, ◌&&◌, Option, none, some, List, [], ◌∷◌, ◌++◌,
  if◌then◌else◌, ltb, leb, ◌==◌, add32, sub32, take, drop, length, replicate,
}
use layla_os.Net.Wire.{read}
use layla_os.Fs.Disk.{Disk, Cmd, fault, out_of_fuel, pure, gets, reads, ◌>>=◌, ◌&&&◌}
use layla_os.Fs.Fat32.{
  Fat32, chain_fuel, buf_size, end_of_chain, entry_mask, next_cluster, read_cluster, write_cluster,
  alloc_cluster, set_fat_entry,
}
use layla_os.Fs.Fat32.Name.{to_short_name}
use layla_os.Fs.Fat32.Entry.{
  Fat32DirEntry, build_dir_entry, entry_bytes, first_cluster, is_directory,
}
use layla_os.Fs.Fat32.Directory.{find_entry, add_dir_entry, mark_entry_deleted}
use layla_os.Fs.Fat32.Path.{not_found, at_root, entry, resolve_path, resolve_parent_dir}

module _ (fs : Fat32) where
  -- `ReadCluster(cluster, buffer + written)`.
  abbrev pub read_cluster_at : Disk → ℕ → ℕ → List ℕ → Option (List ℕ)
  read_cluster_at d cluster written buffer =
      elim (read_cluster fs d cluster (drop written buffer)) [
        | none ↦ none
        | some rest ↦ some (take written buffer ++ rest)
      ]

  -- The loop of `ReadFile`; the buffer is what the caller gave.
  unfoldable pub read_chain : ℕ → ℕ → ℕ → List ℕ → Cmd (List ℕ)
  read_chain zero cluster written buffer = λ _. out_of_fuel
  read_chain (suc fuel) cluster written buffer =
      if ltb cluster end_of_chain
      then (do
        buffer' ← reads (λ d. read_cluster_at d cluster written buffer)
        next ← gets (λ d. next_cluster fs d cluster)
        read_chain fuel next (add32 written fs.cluster_size) buffer')
      else pure buffer

  -- The size and the buffer, or `none` for false.
  unfoldable pub read_file : List ℕ → List ℕ → Cmd (Option (ℕ × List ℕ))
  read_file path buffer = resolve_path fs path >>= λ r. elim r [
    | not_found ↦ pure none
    | at_root ↦ pure none
    | entry e ↦
        if is_directory e
        then pure none
        else read_chain (chain_fuel fs) (first_cluster e) 0 buffer >>= λ buffer'.
            pure (some (e.size, buffer'))
  ]

  -- The bytes of a round: at most a buffer full of the file, and zeros after it.
  abbrev pub to_write : ℕ → ℕ → ℕ
  to_write size written = if ltb (buf_size fs) (size - written) then buf_size fs else size - written

  abbrev pub chunk : List ℕ → ℕ → ℕ → List ℕ
  chunk buf size written =
      read (to_write size written) (drop written buf)
      ++ replicate (buf_size fs - to_write size written) 0

  -- The link to a new cluster.
  unfoldable pub extend_chain : ℕ → Cmd ℕ
  extend_chain cluster = do
    next ← alloc_cluster fs
    if next == 0 then pure 0 else do
      linked ← set_fat_entry fs cluster next &&& set_fat_entry fs next entry_mask
      pure (if linked then next else 0)

  unfoldable pub write_loop : ℕ → ℕ → List ℕ → ℕ → ℕ → Cmd Bool
  write_loop zero cluster buf size written = λ _. out_of_fuel
  write_loop (suc fuel) cluster buf size written =
      if ltb written size
      then write_cluster fs cluster (chunk buf size written)
        &&& (let written' = add32 written (to_write size written) in
            if ltb written' size
            then (do
              next ← extend_chain cluster
              if next == 0 then pure false else write_loop fuel next buf size written')
            else set_fat_entry fs cluster entry_mask &&& write_loop fuel cluster buf size written')
      else pure true

  unfoldable pub write_cluster_chain : ℕ → List ℕ → ℕ → Cmd Bool
  write_cluster_chain first buf size =
      if size == 0
      then (do
        written ← write_cluster fs first (replicate (buf_size fs) 0)
        set_fat_entry fs first entry_mask)
      else write_loop (suc size) first buf size 0

  -- The loop that frees the clusters of a file.
  unfoldable pub free_chain : ℕ → ℕ → Cmd (Unit {0})
  free_chain zero c = λ _. out_of_fuel
  free_chain (suc fuel) c =
      if leb 2 c && ltb c end_of_chain
      then (do
        next ← gets (λ d. next_cluster fs d c)
        freed ← set_fat_entry fs c 0
        free_chain fuel next)
      else pure tt

  -- `WriteFile` once the parent is known and the old file's clusters are free.
  unfoldable pub store_file : ℕ → List ℕ → Bool → List ℕ → ℕ → Cmd Bool
  store_file dir_cluster name83 exists buffer size = do
    first ← alloc_cluster fs
    if first == 0
        then pure false
        else set_fat_entry fs first entry_mask
          &&& (write_cluster_chain first buffer size &&& (do
            marked ← (if exists then mark_entry_deleted fs dir_cluster name83 else pure true)
            add_dir_entry fs dir_cluster (build_dir_entry name83 0x20 first size)))

  unfoldable pub write_file : List ℕ → List ℕ → ℕ → Cmd Bool
  write_file path buffer size = resolve_parent_dir fs path >>= λ p. elim p [
    | none ↦ pure false
    | some (dir_cluster, component) ↦ find_entry fs dir_cluster component >>= λ existing.
        elim existing [
          | none ↦ store_file dir_cluster (to_short_name component) false buffer size
          | some e ↦
              if is_directory e
              then pure false
              else free_chain (chain_fuel fs) (first_cluster e) >>= λ _.
                  store_file dir_cluster (to_short_name component) true buffer size
        ]
  ]

  unfoldable pub delete_file : List ℕ → Cmd Bool
  delete_file path = resolve_parent_dir fs path >>= λ p. elim p [
    | none ↦ pure false
    | some (dir_cluster, component) ↦ find_entry fs dir_cluster component >>= λ existing.
        elim existing [
          | none ↦ pure false
          | some e ↦
              if is_directory e
              then pure false
              else free_chain (chain_fuel fs) (first_cluster e) >>= λ _.
                  mark_entry_deleted fs dir_cluster (to_short_name component)
        ]
  ]

  abbrev pub create_file : List ℕ → Cmd Bool
  create_file path = write_file path [] 0

  -- The first cluster of a new directory: the entries `.` and `..`, and zeros.
  unfoldable pub dots : ℕ → ℕ → List ℕ
  dots new_cluster parent =
      entry_bytes (build_dir_entry (b'.' ∷ replicate 10 b' ') 0x10 new_cluster 0)
      ++ (entry_bytes (build_dir_entry (b'.' ∷ (b'.' ∷ replicate 9 b' ')) 0x10 parent 0)
          ++ replicate (buf_size fs - 64) 0)

  unfoldable pub make_dir : List ℕ → Cmd Bool
  make_dir path = resolve_parent_dir fs path >>= λ p. elim p [
    | none ↦ pure false
    | some (dir_cluster, component) ↦ do
      new_cluster ← alloc_cluster fs
      if new_cluster == 0
          then pure false
          else set_fat_entry fs new_cluster entry_mask
            &&& (write_cluster fs new_cluster
                  (dots new_cluster (if dir_cluster == fs.bpb.root_cluster then 0 else dir_cluster))
                &&& add_dir_entry fs dir_cluster
                    (build_dir_entry (to_short_name component) 0x10 new_cluster 0))
  ]
