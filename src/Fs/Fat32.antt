-- ===== src/Fs/Fat32.antt =====
-- src/fs/fat32.h, src/fs/fat32.cpp: a mounted volume, its file allocation table and its clusters.
pub mod Name
pub mod Table
pub mod Cluster
pub mod Entry
pub mod Directory
pub mod Path
pub mod File
pub mod Listing
mod Tests
use layla_os.Base.{
  ℕ, zero, suc, ◌+◌, ◌-◌, ◌*◌, ◌/◌, ◌%◌, Bool, true, false, ◌||◌, Option, none, some, List, [], ◌∷◌,
  if◌then◌else◌, ltb, leb, ◌==◌, bit_and, add32, sub32, mul32, set, length, take, drop,
}
use layla_os.Net.Wire.{load8, load16, load32, bytes32, write_at}
use layla_os.Fs.Disk.{
  Disk, stack_buffer, read28, write28, Cmd, ok, fault, pure, gets, reads, ◌>>=◌, ◌&&&◌,
}
use layla_os.Fs.Mbr.{MbrPartitionEntry}

-- The fields of the boot sector that the driver reads.
pub record Fat32Bpb : Type 0 where
  pub bytes_per_sector : ℕ
  pub sectors_per_cluster : ℕ
  pub reserved_sectors : ℕ
  pub fat_count : ℕ
  pub total_sectors_16 : ℕ
  pub total_sectors_32 : ℕ
  pub fat_size_32 : ℕ
  pub root_cluster : ℕ

pub record Fat32 : Type 0 where
  pub partition_lba : ℕ
  pub bpb : Fat32Bpb
  pub fat_lba : ℕ
  pub data_lba : ℕ
  pub cluster_size : ℕ

abbrev pub load_bpb : List ℕ → Fat32Bpb
load_bpb mem = record {
  bytes_per_sector = load16 mem 11;
  sectors_per_cluster = load8 mem 13;
  reserved_sectors = load16 mem 14;
  fat_count = load8 mem 16;
  total_sectors_16 = load16 mem 19;
  total_sectors_32 = load32 mem 32;
  fat_size_32 = load32 mem 36;
  root_cluster = load32 mem 44;
}

-- The constructor and `Mount`.
unfoldable pub mount : Disk → MbrPartitionEntry → Bool × Fat32
mount d partition =
    let bpb : Fat32Bpb = load_bpb (read28 d partition.lba_start (stack_buffer 512 d)).1 in
    let fat_lba = add32 partition.lba_start bpb.reserved_sectors in
    (
      bpb.bytes_per_sector == 512,
      record {
        partition_lba = partition.lba_start;
        bpb = bpb;
        fat_lba = fat_lba;
        data_lba = add32 fat_lba (mul32 bpb.fat_count bpb.fat_size_32);
        cluster_size = bpb.sectors_per_cluster * 512;
      },
    )

abbrev pub end_of_chain : ℕ
end_of_chain = 0x0FFFFFF8

abbrev pub entry_mask : ℕ
entry_mask = 0x0FFFFFFF

-- A 512-byte buffer on the stack after `ReadSector`.
abbrev pub read_sector : Disk → ℕ → Bool × List ℕ
read_sector d lba = read28 d lba (stack_buffer 512 d)

-- `*(uint32_t*)(sector + i) = v`.
abbrev pub store32 : List ℕ → ℕ → ℕ → List ℕ
store32 mem i v =
    set (set (set (set mem i (v % 256)) (i + 1) (v / 256 % 256)) (i + 2) (v / 65536 % 256)) (i + 3)
      (v / 16777216 % 256)

-- The rest of the loop of `ReadCluster` from sector `i` on.
unfoldable pub read_sectors : Disk → ℕ → ℕ → ℕ → List ℕ → Option (List ℕ)
read_sectors d zero lba i buffer = some buffer
read_sectors d (suc n) lba i buffer =
    let (answered, bytes) = read28 d (add32 lba i) [] in
    elim (if answered then write_at buffer (i * 512) bytes else some buffer) [
      | none ↦ none
      | some buffer' ↦ read_sectors d n lba (i + 1) buffer'
    ]

abbrev pub write_sector : ℕ → List ℕ → Cmd Bool
write_sector lba bytes = λ d. let (done, d') = write28 d lba bytes in ok done d'

-- `n` bytes of a buffer.
abbrev pub slice : List ℕ → ℕ → ℕ → Cmd (List ℕ)
slice buffer i n = if leb (i + n) (length buffer) then pure (take n (drop i buffer)) else λ _. fault

unfoldable pub write_sectors : ℕ → ℕ → ℕ → List ℕ → Cmd Bool
write_sectors zero lba i buffer = pure true
write_sectors (suc n) lba i buffer = do
  bytes ← slice buffer (i * 512) 512
  write_sector (add32 lba i) bytes &&& write_sectors n lba (i + 1) buffer

-- `AllocCluster`: the entries of sector `s` from entry `i` on.
unfoldable pub scan_entries : ℕ → ℕ → ℕ → ℕ → List ℕ → Option ℕ
scan_entries zero i s max sector = none
scan_entries (suc n) i s max sector =
    let rest = scan_entries n (i + 1) s max sector in
    let cluster = add32 (mul32 s 128) i in
    if ltb cluster 3 || leb max cluster
    then rest
    else if bit_and (load32 sector (4 * i)) entry_mask == 0
    then some cluster
    else rest

-- One of the two writes of `SetFATEntry`.
unfoldable pub set_entry_at : ℕ → ℕ → ℕ → Cmd Bool
set_entry_at lba i value = do
  (answered, sector) ← gets (λ d. read_sector d lba)
  if answered then write_sector lba (store32 sector i (bit_and value entry_mask)) else pure false

module _ (fs : Fat32) where
  -- No chain without a cycle is longer than the table, so the loops on chains end within this.
  abbrev pub chain_fuel : ℕ
  chain_fuel = fs.bpb.fat_size_32 * 128 + 1

  -- `buf_size` of the functions that write.
  abbrev pub buf_size : ℕ
  buf_size = if ltb fs.cluster_size 4096 then fs.cluster_size else 4096

  abbrev pub cluster_to_lba : ℕ → ℕ
  cluster_to_lba cluster = add32 fs.data_lba (mul32 (sub32 cluster 2) fs.bpb.sectors_per_cluster)

  -- The sector of the first table that holds a cluster's entry, and the entry's place in it.
  abbrev pub fat_sector : ℕ → ℕ
  fat_sector cluster = add32 fs.fat_lba (mul32 cluster 4 / 512)

  abbrev pub entry_offset : ℕ → ℕ
  entry_offset cluster = mul32 cluster 4 % 512

  unfoldable pub next_cluster : Disk → ℕ → ℕ
  next_cluster d cluster =
      bit_and (load32 (read_sector d (fat_sector cluster)).1 (entry_offset cluster)) entry_mask

  unfoldable pub read_cluster : Disk → ℕ → List ℕ → Option (List ℕ)
  read_cluster d cluster buffer =
      read_sectors d fs.bpb.sectors_per_cluster (cluster_to_lba cluster) 0 buffer

  unfoldable pub write_cluster : ℕ → List ℕ → Cmd Bool
  write_cluster cluster buffer =
      write_sectors fs.bpb.sectors_per_cluster (cluster_to_lba cluster) 0 buffer

  -- `none` is a division by zero.
  unfoldable pub max_cluster : Option ℕ
  max_cluster =
      let total_sectors =
        if fs.bpb.total_sectors_32 == 0 then fs.bpb.total_sectors_16 else fs.bpb.total_sectors_32 in
      let data_offset = sub32 fs.data_lba fs.partition_lba in
      if ltb data_offset total_sectors
      then if fs.bpb.sectors_per_cluster == 0
        then none
        else some (add32 2 ((total_sectors - data_offset) / fs.bpb.sectors_per_cluster))
      else some 2

  unfoldable pub scan_fat : Disk → ℕ → ℕ → ℕ → ℕ
  scan_fat d zero s max = 0
  scan_fat d (suc n) s max =
      let rest = scan_fat d n (s + 1) max in
      let (answered, sector) = read_sector d (add32 fs.fat_lba s) in
      if answered
      then elim (scan_entries 128 0 s max sector) [ none ↦ rest | some cluster ↦ cluster ]
      else rest

  unfoldable pub alloc_cluster : Cmd ℕ
  alloc_cluster = do max ← reads (λ d. max_cluster); gets (λ d. scan_fat d fs.bpb.fat_size_32 0 max)

  unfoldable pub set_fat_entry : ℕ → ℕ → Cmd Bool
  set_fat_entry cluster value =
      set_entry_at (fat_sector cluster) (entry_offset cluster) value
      &&& (if ltb 1 fs.bpb.fat_count
          then set_entry_at (add32 (add32 fs.fat_lba fs.bpb.fat_size_32) (mul32 cluster 4 / 512))
              (entry_offset cluster) value
          else pure true)
