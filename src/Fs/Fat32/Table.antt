-- ===== src/Fs/Fat32/Table.antt =====
-- src/fs/fat32.cpp, `SetFATEntry` and `NextCluster`: the file allocation table is an array.
pub mod Update
pub mod Alloc
use layla_os.Base.{
  ℕ, zero, suc, ◌+◌, ◌-◌, ◌*◌, ◌/◌, ◌%◌, ◌^◌, ◌<◌, ◌≤◌, ◌≡◌, ◌≢◌, refl, sym, ap, ◌∙◌, subst, inl,
  inr, Bool, Bool-cases, true, false, List, length, set, length-set, get_or, get_or-set_self,
  get_or-set_ne, bit_and, bit_and_mask, ltb, ◌==◌, if◌then◌else◌, add32, mul32, arith,
}
use layla_os.Net.Wire.{load32}
use layla_os.Fs.Disk.{Disk, lba28, lba28-small, read28, write28, put_sector, stack_buffer, ok}
use layla_os.Fs.Fat32.{
  Fat32, entry_mask, store32, read_sector, fat_sector, entry_offset, next_cluster, set_entry_at,
  set_fat_entry,
}
use layla_os.Fs.Fat32.Entry.Packed.{word32}

-- The tables lie before the clusters, the addresses fit the drive's, and a cluster's number has 28
-- bits.
pub record IsVolume (fs : Fat32) : Type 0 where
  pub first : fs.fat_lba + fs.bpb.fat_size_32 ≤ fs.data_lba
  pub second :
      1 < fs.bpb.fat_count → fs.fat_lba + fs.bpb.fat_size_32 + fs.bpb.fat_size_32 ≤ fs.data_lba
  pub small : fs.data_lba ≤ 2 ^ 28
  pub entries : fs.bpb.fat_size_32 < 2 ^ 21

-- Sectors have 512 bytes, and the drive answers for those of the tables.
pub record IsReadable (fs : Fat32) (d : Disk) : Type 0 where
  pub size : (lba : ℕ) → length (d.sectors lba) ≡ 512
  pub answers : (lba : ℕ) → lba < fs.data_lba → d.silent lba ≡ false

module _ (mem : List ℕ) (i v : ℕ) where
  pub length-store32 : length (store32 mem i v) ≡ length mem
  length-store32 =
      let a = set mem i (v % 256) in
      let b = set a (i + 1) (v / 256 % 256) in
      let c = set b (i + 2) (v / 65536 % 256) in
      omega (
        arith,
        length-set mem i (v % 256),
        length-set a (i + 1) (v / 256 % 256),
        length-set b (i + 2) (v / 65536 % 256),
        length-set c (i + 3) (v / 16777216 % 256),
      )

  -- A byte outside the word.
  store32-other :
      (k : ℕ)
      → k ≢ i
      → k ≢ i + 1
      → k ≢ i + 2
      → k ≢ i + 3
      → get_or (store32 mem i v) k 0 ≡ get_or mem k 0
  store32-other k h0 h1 h2 h3 =
      let a = set mem i (v % 256) in
      let b = set a (i + 1) (v / 256 % 256) in
      let c = set b (i + 2) (v / 65536 % 256) in
      get_or-set_ne c (i + 3) k (v / 16777216 % 256) 0 (λ e. h3 (sym e))
      ∙ get_or-set_ne b (i + 2) k (v / 65536 % 256) 0 (λ e. h2 (sym e))
      ∙ get_or-set_ne a (i + 1) k (v / 256 % 256) 0 (λ e. h1 (sym e))
      ∙ get_or-set_ne mem i k (v % 256) 0 (λ e. h0 (sym e))

  pub load32-store32_self : i + 4 ≤ length mem → v < 2 ^ 32 → load32 (store32 mem i v) i ≡ v
  load32-store32_self h w =
      let a = set mem i (v % 256) in
      let la = length-set mem i (v % 256) in
      let b = set a (i + 1) (v / 256 % 256) in
      let lb = length-set a (i + 1) (v / 256 % 256) in
      let c = set b (i + 2) (v / 65536 % 256) in
      let lc = length-set b (i + 2) (v / 65536 % 256) in
      let e = store32 mem i v in
      let byte0 : get_or e i 0 ≡ v % 256 =
        get_or-set_ne c (i + 3) i _ 0 (omega arith)
        ∙ get_or-set_ne b (i + 2) i _ 0 (omega arith)
        ∙ get_or-set_ne a (i + 1) i _ 0 (omega arith)
        ∙ get_or-set_self mem i _ 0 (omega arith) in
      let byte1 : get_or e (i + 1) 0 ≡ v / 256 % 256 =
        get_or-set_ne c (i + 3) (i + 1) _ 0 (omega arith)
        ∙ get_or-set_ne b (i + 2) (i + 1) _ 0 (omega arith)
        ∙ get_or-set_self a (i + 1) _ 0 (omega arith) in
      let byte2 : get_or e (i + 2) 0 ≡ v / 65536 % 256 =
        get_or-set_ne c (i + 3) (i + 2) _ 0 (omega arith)
        ∙ get_or-set_self b (i + 2) _ 0 (omega arith) in
      let byte3 : get_or e (i + 2 + 1) 0 ≡ v / 16777216 % 256 =
        ap (λ (k : ℕ). get_or e k 0) {x = i + 2 + 1} {y = i + 3} (omega arith)
        ∙ get_or-set_self c (i + 3) _ 0 (omega arith) in
      rw (byte0, byte1, byte2, byte3) (word32 v w)

  pub load32-store32_other :
      (j : ℕ) → j % 4 ≡ i % 4 → j ≢ i → load32 (store32 mem i v) j ≡ load32 mem j
  load32-store32_other j m h =
      rw
        (
          store32-other j (omega arith) (omega arith) (omega arith) (omega arith),
          store32-other (j + 1) (omega arith) (omega arith) (omega arith) (omega arith),
          store32-other (j + 2) (omega arith) (omega arith) (omega arith) (omega arith),
          store32-other (j + 2 + 1) (omega arith) (omega arith) (omega arith) (omega arith),
        )
        refl

abbrev pub put : Disk → ℕ → List ℕ → Disk
put d lba bytes = record d { sectors = put_sector d.sectors lba bytes }

pub put_self : (d : Disk) (lba : ℕ) (bytes : List ℕ) → (put d lba bytes).sectors lba ≡ bytes
put_self d lba bytes = ground arith

pub put-other :
    (d : Disk) (lba k : ℕ) (bytes : List ℕ) → lba ≢ k → (put d lba bytes).sectors k ≡ d.sectors k
put-other d lba k bytes h = ground arith

pub length-put :
    (d : Disk) (lba : ℕ) (bytes : List ℕ)
    → ((k : ℕ) → length (d.sectors k) ≡ 512)
    → length bytes ≡ 512
    → (k : ℕ) → length ((put d lba bytes).sectors k) ≡ 512
length-put d lba bytes size h k = elim (Bool-cases (lba == k)) [
  | inl e ↦ rw e h
  | inr e ↦ rw e (size k)
]

pub read_sector-answer :
    (d : Disk) (lba : ℕ)
    → lba < 2 ^ 28
    → d.silent lba ≡ false
    → read_sector d lba ≡ (true, d.sectors lba)
unfolding read28
read_sector-answer d lba small answer = rw (lba28-small lba small, answer) refl

pub set_entry_at_lem :
    (lba i v : ℕ) (d : Disk)
    → lba < 2 ^ 28
    → d.silent lba ≡ false
    → set_entry_at lba i v d
      ≡ ok true (put d lba (store32 (d.sectors lba) i (bit_and v entry_mask)))
unfolding set_entry_at write28
set_entry_at_lem lba i v d small answer =
    rw (read_sector-answer d lba small answer, lba28-small lba small) refl

module _ (fs : Fat32) (volume : IsVolume fs) where
  -- A cluster that the table has an entry for.
  abbrev pub IsCluster : ℕ → Type 0
  IsCluster c = c < 128 * fs.bpb.fat_size_32

  pub fat_sector_lem : (c : ℕ) → IsCluster c → fat_sector fs c ≡ fs.fat_lba + c / 128
  fat_sector_lem c h = omega (arith, volume.first, volume.small, volume.entries, h)

  pub entry_offset_lem : (c : ℕ) → IsCluster c → entry_offset fs c ≡ 4 * (c % 128)
  entry_offset_lem c h = omega (arith, volume.entries, h)

  pub next_cluster_lem :
      (d : Disk) (c : ℕ)
      → IsReadable fs d
      → IsCluster c
      → next_cluster fs d c ≡ load32 (d.sectors (fs.fat_lba + c / 128)) (4 * (c % 128)) % 2 ^ 28
  unfolding next_cluster
  next_cluster_lem d c r h =
      let inside : fs.fat_lba + c / 128 < fs.data_lba = omega (arith, volume.first, h) in
      rw
        (
          fat_sector_lem c h,
          entry_offset_lem c h,
          read_sector-answer d (fs.fat_lba + c / 128) (omega (arith, volume.small))
              (r.answers (fs.fat_lba + c / 128) inside),
        )
        (bit_and_mask 28 _)

  pub IsReadable-put :
      (d : Disk) (lba : ℕ) (bytes : List ℕ)
      → IsReadable fs d
      → length bytes ≡ 512
      → IsReadable fs (put d lba bytes)
  IsReadable-put d lba bytes r h = record {
    size = length-put d lba bytes r.size h;
    answers = r.answers;
  }

  -- A write to the second table.
  pub next_cluster-put_second :
      (d : Disk) (c lba : ℕ) (bytes : List ℕ)
      → IsReadable fs d
      → length bytes ≡ 512
      → IsCluster c
      → fs.fat_lba + fs.bpb.fat_size_32 ≤ lba
      → next_cluster fs (put d lba bytes) c ≡ next_cluster fs d c
  next_cluster-put_second d c lba bytes r h k far =
      next_cluster_lem (put d lba bytes) c (IsReadable-put d lba bytes r h) k
      ∙ ap (λ (t : List ℕ). load32 t (4 * (c % 128)) % 2 ^ 28)
          (put-other d lba (fs.fat_lba + c / 128) bytes (omega (arith, k)))
      ∙ sym (next_cluster_lem d c r k)
