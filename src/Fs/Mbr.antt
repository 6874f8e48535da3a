-- ===== src/Fs/Mbr.antt =====
-- src/fs/mbr.h, src/fs/mbr.cpp: the partition table.
use layla_os.Base.{ℕ, zero, suc, ◌+◌, Bool, List, [], ◌∷◌, if◌then◌else◌, ltb, ◌==◌, drop, u8}
use layla_os.Net.Wire.{load8, load16, load32}
use layla_os.Fs.Disk.{Disk, stack_buffer, read28}

pub record MbrPartitionEntry : Type 0 where
  pub status : ℕ
  pub chs_first : List ℕ
  pub type : ℕ
  pub chs_last : List ℕ
  pub lba_start : ℕ
  pub sector_count : ℕ

pub record Mbr : Type 0 where
  pub partitions : List MbrPartitionEntry
  pub signature : ℕ

pub record MbrParser : Type 0 where
  pub mbr : Mbr
  pub valid : Bool

-- The 16 packed bytes of an entry.
abbrev pub load_partition : List ℕ → MbrPartitionEntry
load_partition mem = record {
  status = load8 mem 0;
  chs_first = load8 mem 1 ∷ (load8 mem 2 ∷ (load8 mem 3 ∷ []));
  type = load8 mem 4;
  chs_last = load8 mem 5 ∷ (load8 mem 6 ∷ (load8 mem 7 ∷ []));
  lba_start = load32 mem 8;
  sector_count = load32 mem 12;
}

abbrev pub load_partitions : ℕ → List ℕ → List MbrPartitionEntry
load_partitions zero mem = []
load_partitions (suc n) mem = load_partition mem ∷ load_partitions n (drop 16 mem)

abbrev pub load_mbr : List ℕ → Mbr
load_mbr mem = record { partitions = load_partitions 4 (drop 446 mem); signature = load16 mem 510 }

-- `Read`; its result is `valid`.
unfoldable pub read_mbr : Disk → MbrParser
read_mbr d =
    let mbr : Mbr = load_mbr (read28 d 0 (stack_buffer 512 d)).1 in
    record { mbr = mbr; valid = mbr.signature == 0xAA55 }

unfoldable pub count_partitions : List MbrPartitionEntry → ℕ → ℕ
count_partitions [] count = count
count_partitions (p ∷ ps) count =
    count_partitions ps (if p.type == 0 then count else u8 (count + 1))

unfoldable pub partition_count : MbrParser → ℕ
partition_count p = count_partitions p.mbr.partitions 0

abbrev pub empty_partition : MbrPartitionEntry
empty_partition = load_partition []

abbrev pub get_entry : List MbrPartitionEntry → ℕ → MbrPartitionEntry
get_entry [] i = empty_partition
get_entry (p ∷ ps) zero = p
get_entry (p ∷ ps) (suc i) = get_entry ps i

unfoldable pub get_partition : MbrParser → ℕ → MbrPartitionEntry
get_partition p index = if ltb index 4 then get_entry p.mbr.partitions index else empty_partition
