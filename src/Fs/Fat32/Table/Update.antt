-- ===== src/Fs/Fat32/Table/Update.antt =====
-- src/fs/fat32.cpp, `SetFATEntry`: what a new entry changes.
use layla_os.Base.{
  ℕ, ◌+◌, ◌*◌, ◌/◌, ◌%◌, ◌^◌, ◌<◌, ◌≤◌, ◌≡◌, ◌≢◌, refl, sym, ap, ◌∙◌, inl, inr, Bool-cases, true,
  List, length, bit_and, bit_and_mask, ltb, add32, mul32, ltb→lt, ℕ_discrete, arith,
}
use layla_os.Net.Wire.{load32}
use layla_os.Fs.Disk.{Disk, ok}
use layla_os.Fs.Fat32.{Fat32, entry_mask, store32, next_cluster, set_fat_entry}
use layla_os.Fs.Fat32.Table.{
  IsVolume, IsReadable, IsCluster, put, put_self, put-other, length-store32, load32-store32_self,
  load32-store32_other, set_entry_at_lem, fat_sector_lem, entry_offset_lem, next_cluster_lem,
  IsReadable-put, next_cluster-put_second,
}

module _ (fs : Fat32) (volume : IsVolume fs) where
  -- What a new entry changes: the entry, no other entry and no sector of a cluster.
  pub record Updates (d : Disk) (c v : ℕ) (d' : Disk) : Type 0 where
    pub readable : IsReadable fs d'
    pub here : next_cluster fs d' c ≡ v % 2 ^ 28
    pub others :
        (k : ℕ) → IsCluster fs volume k → k ≢ c → next_cluster fs d' k ≡ next_cluster fs d k
    pub clusters : (lba : ℕ) → fs.data_lba ≤ lba → d'.sectors lba ≡ d.sectors lba
    pub silent : d'.silent ≡ d.silent

  module _ (d : Disk) (c v : ℕ) (r : IsReadable fs d) (k : IsCluster fs volume c) where
    abbrev entry_lba : ℕ
    entry_lba = fs.fat_lba + c / 128

    abbrev new_sector : List ℕ
    new_sector = store32 (d.sectors entry_lba) (4 * (c % 128)) (bit_and v entry_mask)

    new_size : length new_sector ≡ 512
    new_size =
        length-store32 (d.sectors entry_lba) (4 * (c % 128)) (bit_and v entry_mask)
        ∙ r.size entry_lba

    first_written : Disk
    first_written = put d entry_lba new_sector

    readable : IsReadable fs first_written
    unfolding first_written
    readable = IsReadable-put fs volume d entry_lba new_sector r new_size

    Updates-first : Updates d c v first_written
    unfolding first_written
    Updates-first = record {
      readable = readable;
      here =
          next_cluster_lem fs volume first_written c readable k
          ∙ ap (λ (t : List ℕ). load32 t (4 * (c % 128)) % 2 ^ 28) (put_self d entry_lba new_sector)
          ∙ ap (λ (t : ℕ). t % 2 ^ 28)
              (load32-store32_self (d.sectors entry_lba) (4 * (c % 128)) (bit_and v entry_mask)
                (omega (arith, r.size entry_lba)) (rw (bit_and_mask 28 v) (omega arith)))
          ∙ omega (arith, bit_and_mask 28 v);
      others = λ j kj other. elim (ℕ_discrete entry_lba (fs.fat_lba + j / 128)) [
        | yes same ↦
            next_cluster_lem fs volume first_written j readable kj
            ∙ ap (λ (t : List ℕ). load32 t (4 * (j % 128)) % 2 ^ 28)
                (ap first_written.sectors (sym same) ∙ put_self d entry_lba new_sector)
            ∙ ap (λ (t : ℕ). t % 2 ^ 28)
                (load32-store32_other (d.sectors entry_lba) (4 * (c % 128)) (bit_and v entry_mask)
                  (4 * (j % 128)) (omega arith) (omega arith))
            ∙ ap (λ (lba : ℕ). load32 (d.sectors lba) (4 * (j % 128)) % 2 ^ 28) same
            ∙ sym (next_cluster_lem fs volume d j r kj)
        | no apart ↦
            next_cluster_lem fs volume first_written j readable kj
            ∙ ap (λ (t : List ℕ). load32 t (4 * (j % 128)) % 2 ^ 28)
                (put-other d entry_lba (fs.fat_lba + j / 128) new_sector apart)
            ∙ sym (next_cluster_lem fs volume d j r kj)
      ];
      clusters = λ lba h. put-other d entry_lba lba new_sector (omega (arith, volume.first, k, h));
      silent = refl;
    }

  Updates-second :
      (d : Disk) (c v : ℕ) (d' : Disk) (lba : ℕ) (bytes : List ℕ)
      → Updates d c v d'
      → IsCluster fs volume c
      → length bytes ≡ 512
      → fs.fat_lba + fs.bpb.fat_size_32 ≤ lba
      → lba < fs.data_lba
      → Updates d c v (put d' lba bytes)
  Updates-second d c v d' lba bytes up k h far near = record {
    readable = IsReadable-put fs volume d' lba bytes up.readable h;
    here = next_cluster-put_second fs volume d' c lba bytes up.readable h k far ∙ up.here;
    others = λ j kj other.
        next_cluster-put_second fs volume d' j lba bytes up.readable h kj far
        ∙ up.others j kj other;
    clusters = λ b above. put-other d' lba b bytes (omega arith) ∙ up.clusters b above;
    silent = up.silent;
  }

  -- SetFATEntry of a cluster of the volume succeeds. The entry then holds the low 28 bits of the
  -- value, NextCluster of any other cluster of the table is as before, no sector of a cluster has
  -- changed, and the tables stay readable. The tables lie before the clusters below 2^28 sectors,
  -- and the drive answers for them.
  pub set_fat_entry-Updates :
      (d : Disk) (c v : ℕ)
      → IsReadable fs d
      → IsCluster fs volume c
      → (d' : Disk) × (set_fat_entry fs c v d ≡ ok true d') × Updates d c v d'
  unfolding set_fat_entry first_written
  set_fat_entry-Updates d c v r k =
      let lba = fs.fat_lba + c / 128 in
      let i = 4 * (c % 128) in
      let inside : lba < fs.data_lba = omega (arith, volume.first, k) in
      let one = set_entry_at_lem lba i v d (omega (arith, volume.small)) (r.answers lba inside) in
      let up = Updates-first d c v r k in
      elim (Bool-cases (ltb 1 fs.bpb.fat_count)) [
        | inr single ↦ (
          first_written d c v r k,
          rw (fat_sector_lem fs volume c k, entry_offset_lem fs volume c k, one, single) refl,
          up,
        )
        | inl mirrored ↦
            let d1 = first_written d c v r k in
            let lba2 = lba + fs.bpb.fat_size_32 in
            let near : lba2 < fs.data_lba =
              omega (arith, volume.second (ltb→lt 1 fs.bpb.fat_count mirrored), k) in
            let at2 : add32 (add32 fs.fat_lba fs.bpb.fat_size_32) (mul32 c 4 / 512) ≡ lba2 =
              omega (arith, volume.small, volume.entries, k) in
            let two =
              set_entry_at_lem lba2 i v d1 (omega (arith, volume.small))
                (up.readable.answers lba2 near) in
            let bytes = store32 (d1.sectors lba2) i (bit_and v entry_mask) in
            let size =
              length-store32 (d1.sectors lba2) i (bit_and v entry_mask) ∙ up.readable.size lba2 in
            (
              put d1 lba2 bytes,
              rw (fat_sector_lem fs volume c k, entry_offset_lem fs volume c k, one, mirrored, at2)
                  two,
              Updates-second d c v d1 lba2 bytes up k size (omega arith) near,
            )
      ]
