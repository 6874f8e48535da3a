-- ===== src/Fs/Fat32/Listing.antt =====
-- src/fs/fat32.cpp: `ListDirectoryToBuffer`, `ListDirectory` and the buffered output under it.
pub mod Text
pub mod Decimal
pub mod Bound
use layla_os.Base.{
  ℕ, zero, suc, ◌+◌, ◌-◌, ◌*◌, ◌/◌, ◌%◌, Bool, true, false, ◌&&◌, Option, none, some, List, [], ◌∷◌,
  ◌++◌, if◌then◌else◌, ltb, leb, ◌==◌, ◌!=◌, bit_and, length, drop, replicate,
}
use layla_os.Net.Wire.{load8, load32, read}
use layla_os.Fs.Disk.{Disk, stack_buffer, Cmd, fault, out_of_fuel, pure, gets, reads, ◌>>=◌}
use layla_os.Fs.Fat32.{Fat32, chain_fuel, buf_size, end_of_chain, next_cluster, read_cluster}
use layla_os.Fs.Fat32.Entry.{Fat32DirEntry, first_cluster, is_directory}
use layla_os.Fs.Fat32.Path.{Resolved, not_found, at_root, entry, resolve_path}

-- The characters that are no blanks.
unfoldable pub visible : List ℕ → List ℕ
visible [] = []
visible (c ∷ cs) = let rest = visible cs in if c != b' ' then c ∷ rest else rest

-- The name with its extension, and a slash for a directory.
unfoldable pub listed_name : List ℕ → List ℕ
listed_name e =
    visible (read 8 e) ++ (if load8 e 8 != b' ' then b'.' ∷ visible (read 3 (drop 8 e)) else [])

abbrev pub slash_if : Bool → List ℕ
slash_if is_dir = if is_dir then b'/' ∷ [] else []

abbrev pub is_dir : List ℕ → Bool
is_dir e = bit_and (load8 e 11) 0x10 != 0

unfoldable pub listed_line : List ℕ → List ℕ
listed_line e = listed_name e ++ (slash_if (is_dir e) ++ (10 ∷ []))

abbrev pub is_hidden : List ℕ → Bool
is_hidden e =
    if load8 e 0 == 0xE5 then true else if load8 e 11 == 0x0F then true else load8 e 0 == b'.'

-- What the `n` entries add to `buf`, and `done`.
unfoldable pub list_in : ℕ → List ℕ → List ℕ × Bool
list_in zero entries = ([], false)
list_in (suc n) entries =
    let rest = list_in n (drop 32 entries) in
    if load8 entries 0 == 0x00
    then ([], true)
    else if is_hidden entries
    then rest
    else (listed_line entries ++ rest.0, rest.1)

-- The output buffer of `ListDirectory`: what has been flushed to the screen, and what waits.
pub record Output : Type 0 where
  pub shown : List ℕ
  pub out : List ℕ

abbrev pub out_cap : ℕ
out_cap = 256

unfoldable pub output_flush : Output → Output
output_flush o = record { shown = o.shown ++ o.out; out = [] }

unfoldable pub output_char : Output → ℕ → Output
output_char o c =
    let o' : Output = if leb out_cap (length o.out) then output_flush o else o in
    record o' { out = o'.out ++ (c ∷ []) }

unfoldable pub output_str : Output → List ℕ → Output
output_str o [] = o
output_str o (c ∷ cs) = output_str (output_char o c) cs

-- The first loop: at most `n` digits, the last one first.
unfoldable pub digits_of : ℕ → ℕ → List ℕ
digits_of zero value = []
digits_of (suc n) value =
    let rest = digits_of n (value / 10) in if ltb 0 value then (b'0' + value % 10) ∷ rest else []

-- The second loop, from the last digit stored to the first.
unfoldable pub output_digits : Output → List ℕ → Output
output_digits o [] = o
output_digits o (c ∷ cs) = output_char (output_digits o cs) c

unfoldable pub output_u32 : Output → ℕ → Output
output_u32 o value = if value == 0 then output_char o b'0' else output_digits o (digits_of 10 value)

-- One entry in a column of 13 characters, and the line break after every second.
unfoldable pub output_entry : Output → ℕ → List ℕ → Output
output_entry o rendered e =
    let name = listed_name e ++ slash_if (is_dir e) in
    let padded = output_str (output_str o name) (replicate (13 - length name) b' ') in
    let sized =
      if is_dir e
      then output_str padded (b'<' ∷ (b'D' ∷ (b'I' ∷ (b'R' ∷ (b'>' ∷ [])))))
      else output_u32 padded (load32 e 28) in
    if (rendered + 1) % 2 == 0
    then output_char sized 10
    else output_char (output_char sized b' ') b' '

unfoldable pub output_in : ℕ → Output → ℕ → List ℕ → Output × ℕ × Bool
output_in zero o rendered entries = (o, rendered, false)
output_in (suc n) o rendered entries =
    if load8 entries 0 == 0x00
    then (o, rendered, true)
    else if is_hidden entries
    then output_in n o rendered (drop 32 entries)
    else output_in n (output_entry o rendered entries) (rendered + 1) (drop 32 entries)

module _ (fs : Fat32) where
  -- The loop of `ListDirectoryToBuffer`; `buf` is what it has stored.
  unfoldable pub list_loop : ℕ → ℕ → List ℕ → List ℕ → Cmd (List ℕ)
  list_loop zero cluster cluster_buf buf = λ _. out_of_fuel
  list_loop (suc fuel) cluster cluster_buf buf =
      if ltb cluster end_of_chain
      then (do
        entries ← reads (λ d. read_cluster fs d cluster cluster_buf)
        next ← gets (λ d. next_cluster fs d cluster)
        let part = list_in (buf_size fs / 32) entries
        if part.1 then pure (buf ++ part.0) else list_loop fuel next entries (buf ++ part.0))
      else pure buf

  -- The first cluster of the directory that a path names.
  unfoldable pub directory_of : Resolved → Option ℕ
  directory_of not_found = none
  directory_of at_root = some fs.bpb.root_cluster
  directory_of (entry e) = if is_directory e then some (first_cluster e) else none

  unfoldable pub list_directory_to_buffer : List ℕ → Cmd (Option (List ℕ))
  list_directory_to_buffer path = do
    r ← resolve_path fs path
    cluster_buf ← gets (stack_buffer 4096)
    elim (directory_of r) [
      | none ↦ pure none
      | some cluster ↦ list_loop (chain_fuel fs) cluster cluster_buf [] >>= λ buf. pure (some buf)
    ]

  unfoldable pub output_loop : ℕ → ℕ → List ℕ → Output → ℕ → Cmd (Output × ℕ)
  output_loop zero cluster cluster_buf o rendered = λ _. out_of_fuel
  output_loop (suc fuel) cluster cluster_buf o rendered =
      if ltb cluster end_of_chain
      then (do
        entries ← reads (λ d. read_cluster fs d cluster cluster_buf)
        next ← gets (λ d. next_cluster fs d cluster)
        let (o', rendered', ended) = output_in (fs.cluster_size / 32) o rendered entries
        if ended then pure (o', rendered') else output_loop fuel next entries o' rendered')
      else pure (o, rendered)

  -- What appears on the screen, or `none` for false.
  unfoldable pub list_directory : List ℕ → Cmd (Option (List ℕ))
  list_directory path = do
    r ← resolve_path fs path
    cluster_buf ← gets (stack_buffer 4096)
    elim (directory_of r) [
      | none ↦ pure none
      | some cluster ↦ do
        (o, rendered) ←
            output_loop (chain_fuel fs) cluster cluster_buf (record { shown = []; out = [] }) 0
        let o' : Output = if rendered % 2 != 0 then output_char o 10 else o
        pure (some ((output_flush o').shown))
    ]
