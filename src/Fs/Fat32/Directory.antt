-- ===== src/Fs/Fat32/Directory.antt =====
-- src/fs/fat32.cpp, `FindEntry`, `AddDirEntry` and `MarkEntryDeleted`: the entries of a directory.
pub mod Live
pub mod Added
pub mod Search
use layla_os.Base.{
  ℕ, zero, suc, ◌+◌, ◌-◌, ◌/◌, Bool, true, false, ◌||◌, Option, none, some, List, [], ◌∷◌, ◌++◌,
  if◌then◌else◌, ltb, ◌==◌, length, take, drop, replicate,
}
use layla_os.Net.Wire.{load8}
use layla_os.Fs.Disk.{
  Disk, stack_buffer, Cmd, ok, fault, out_of_fuel, pure, gets, reads, ◌>>=◌, ◌&&&◌,
}
use layla_os.Fs.Fat32.{
  Fat32, chain_fuel, buf_size, end_of_chain, entry_mask, next_cluster, read_cluster, write_cluster,
  alloc_cluster, set_fat_entry,
}
use layla_os.Fs.Fat32.Name.{to_short_name, names_match}
use layla_os.Fs.Fat32.Entry.{Fat32DirEntry, load_entry, entry_bytes}

-- What a loop over a cluster's entries ends with: the end of the directory, a result, or neither.
pub data Scan (A : Type 0) : Type 0 where
  at_end : Scan A
  found : A → Scan A
  go_on : Scan A

-- The `n` entries from the pointer on.
unfoldable pub find_in : List ℕ → ℕ → List ℕ → Scan Fat32DirEntry
find_in name83 zero entries = go_on
find_in name83 (suc n) entries =
    let rest = find_in name83 n (drop 32 entries) in
    if load8 entries 0 == 0x00
    then at_end
    else if load8 entries 0 == 0xE5
    then rest
    else if load8 entries 11 == 0x0F
    then rest
    else if names_match entries name83
    then found (load_entry entries)
    else rest

-- The cluster with the entry in the first free place.
unfoldable pub add_in : List ℕ → ℕ → List ℕ → Option (List ℕ)
add_in bytes zero entries = none
add_in bytes (suc n) entries =
    let rest = add_in bytes n (drop 32 entries) in
    if load8 entries 0 == 0x00 || load8 entries 0 == 0xE5
    then some (bytes ++ drop 32 entries)
    else elim rest [ none ↦ none | some entries' ↦ some (take 32 entries ++ entries') ]

-- `entries[i].name[0] = 0xE5`.
abbrev pub delete_mark : List ℕ → List ℕ
delete_mark entries = 0xE5 ∷ drop 1 entries

unfoldable pub mark_in : List ℕ → ℕ → List ℕ → Scan (List ℕ)
mark_in name83 zero entries = go_on
mark_in name83 (suc n) entries =
    let rest = mark_in name83 n (drop 32 entries) in
    let kept : Scan (List ℕ) = elim rest [
      | at_end ↦ at_end
      | found entries' ↦ found (take 32 entries ++ entries')
      | go_on ↦ go_on
    ] in
    if load8 entries 0 == 0x00
    then at_end
    else if load8 entries 0 == 0xE5
    then kept
    else if names_match entries name83
    then found (delete_mark entries)
    else kept

module _ (fs : Fat32) where
  unfoldable pub find_loop : ℕ → List ℕ → ℕ → List ℕ → Cmd (Option Fat32DirEntry)
  find_loop zero name83 cluster cluster_buf = λ _. out_of_fuel
  find_loop (suc fuel) name83 cluster cluster_buf =
      if ltb cluster end_of_chain
      then (do
        entries ← reads (λ d. read_cluster fs d cluster cluster_buf)
        elim (find_in name83 (fs.cluster_size / 32) entries) [
          | at_end ↦ pure none
          | found e ↦ pure (some e)
          | go_on ↦
              gets (λ d. next_cluster fs d cluster) >>= λ next. find_loop fuel name83 next entries
        ])
      else pure none

  unfoldable pub find_entry : ℕ → List ℕ → Cmd (Option Fat32DirEntry)
  find_entry dir_cluster name = do
    cluster_buf ← gets (stack_buffer 4096)
    find_loop (chain_fuel fs) (to_short_name name) dir_cluster cluster_buf

  -- The rest of `AddDirEntry` when the chain has no room: a new cluster after the last one.
  unfoldable pub grow_directory : List ℕ → ℕ → Cmd Bool
  grow_directory bytes prev_cluster = do
    new_cluster ← alloc_cluster fs
    if new_cluster == 0
        then pure false
        else set_fat_entry fs prev_cluster new_cluster
          &&& (set_fat_entry fs new_cluster entry_mask
              &&& write_cluster fs new_cluster (bytes ++ replicate (buf_size fs - 32) 0))

  unfoldable pub add_loop : ℕ → List ℕ → ℕ → ℕ → List ℕ → Cmd Bool
  add_loop zero bytes prev_cluster cluster cluster_buf = λ _. out_of_fuel
  add_loop (suc fuel) bytes prev_cluster cluster cluster_buf =
      if ltb cluster end_of_chain
      then (do
        entries ← reads (λ d. read_cluster fs d cluster cluster_buf)
        elim (add_in bytes (buf_size fs / 32) entries) [
          | some entries' ↦ write_cluster fs cluster entries'
          | none ↦ gets (λ d. next_cluster fs d cluster) >>= λ next.
              add_loop fuel bytes cluster next entries
        ])
      else grow_directory bytes prev_cluster

  unfoldable pub add_dir_entry : ℕ → Fat32DirEntry → Cmd Bool
  add_dir_entry dir_cluster entry = do
    cluster_buf ← gets (stack_buffer 4096)
    add_loop (chain_fuel fs) (entry_bytes entry) 0 dir_cluster cluster_buf

  unfoldable pub mark_loop : ℕ → List ℕ → ℕ → List ℕ → Cmd Bool
  mark_loop zero name83 cluster cluster_buf = λ _. out_of_fuel
  mark_loop (suc fuel) name83 cluster cluster_buf =
      if ltb cluster end_of_chain
      then (do
        entries ← reads (λ d. read_cluster fs d cluster cluster_buf)
        elim (mark_in name83 (buf_size fs / 32) entries) [
          | at_end ↦ pure false
          | found entries' ↦ write_cluster fs cluster entries'
          | go_on ↦
              gets (λ d. next_cluster fs d cluster) >>= λ next. mark_loop fuel name83 next entries
        ])
      else pure false

  unfoldable pub mark_entry_deleted : ℕ → List ℕ → Cmd Bool
  mark_entry_deleted dir_cluster name83 = do
    cluster_buf ← gets (stack_buffer 4096)
    mark_loop (chain_fuel fs) name83 dir_cluster cluster_buf
