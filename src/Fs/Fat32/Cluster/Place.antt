-- ===== src/Fs/Fat32/Cluster/Place.antt =====
-- src/fs/fat32.cpp, `ClusterToLBA`: the clusters of a volume do not overlap, neither with each other
-- nor with the tables.
use layla_os.Base.{
  ℕ, suc, ◌+◌, ◌-◌, ◌*◌, ◌/◌, ◌%◌, ◌^◌, ◌<◌, ◌≤◌, ◌≡◌, ◌≢◌, refl, sym, ap, ap₂, ◌∙◌, ◌⊎◌, inl, inr,
  true, false, List, [], ◌++◌, length, drop, some, add32, sub32, mul32, dec_lt, arith,
}
use native.Mathlib.Nat.{mul-le-mul_right}
use layla_os.Net.Wire.{load32}
use layla_os.Fs.Disk.{Disk, ok}
use layla_os.Fs.Fat32.{
  Fat32, max_cluster, cluster_to_lba, next_cluster, read_cluster, write_cluster, set_fat_entry,
}
use layla_os.Fs.Fat32.Table.{IsVolume, IsReadable, IsCluster, next_cluster_lem}
use layla_os.Fs.Fat32.Table.Update.{set_fat_entry-Updates}
use layla_os.Fs.Fat32.Cluster.{span, span-cong, read_sectors_lem, write_sectors-Stores}

-- Sectors have 512 bytes and the drive answers.
pub record IsSound (d : Disk) : Type 0 where
  pub size : (lba : ℕ) → length (d.sectors lba) ≡ 512
  pub answers : (lba : ℕ) → d.silent lba ≡ false

pub IsSound-IsReadable : (fs : Fat32) (d : Disk) → IsSound d → IsReadable fs d
IsSound-IsReadable fs d s = record { size = s.size; answers = λ lba h. s.answers lba }

-- The shape of a volume whose clusters are at most 4096 bytes.
pub record IsGeometry (fs : Fat32) : Type 0 where
  pub volume : IsVolume fs
  pub max : ℕ
  pub bounded : max_cluster fs ≡ some max
  pub last : fs.data_lba + (max - 2) * fs.bpb.sectors_per_cluster ≤ 2 ^ 28
  pub sectors : 0 < fs.bpb.sectors_per_cluster
  pub fits : fs.bpb.sectors_per_cluster ≤ 8
  pub bytes : fs.cluster_size ≡ fs.bpb.sectors_per_cluster * 512

module _ (fs : Fat32) (geo : IsGeometry fs) where
  -- A cluster of the volume that has an entry in the table.
  pub record IsData (c : ℕ) : Type 0 where
    pub low : 2 ≤ c
    pub high : c < geo.max
    pub entry : IsCluster fs geo.volume c

  abbrev pub place : ℕ → ℕ
  place c = fs.data_lba + (c - 2) * fs.bpb.sectors_per_cluster

  ends :
      (c : ℕ)
      → IsData c
      → (c - 2) * fs.bpb.sectors_per_cluster + fs.bpb.sectors_per_cluster
        ≤ (geo.max - 2) * fs.bpb.sectors_per_cluster
  ends c h =
      let mono : suc (c - 2) * fs.bpb.sectors_per_cluster
          ≤ (geo.max - 2) * fs.bpb.sectors_per_cluster =
        mul-le-mul_right fs.bpb.sectors_per_cluster (omega (arith, h.low, h.high)) in
      omega (arith, mono)

  place-apart : (c k : ℕ) → IsData c → c < k → place c + fs.bpb.sectors_per_cluster ≤ place k
  place-apart c k h l =
      let mono : suc (c - 2) * fs.bpb.sectors_per_cluster ≤ (k - 2) * fs.bpb.sectors_per_cluster =
        mul-le-mul_right fs.bpb.sectors_per_cluster (omega (arith, h.low)) in
      omega (arith, mono)

  cluster_to_lba_lem : (c : ℕ) → IsData c → cluster_to_lba fs c ≡ place c
  cluster_to_lba_lem c h =
      let less : sub32 c 2 ≡ c - 2 = omega (arith, h.low, h.entry, geo.volume.entries) in
      ap (λ (t : ℕ). add32 fs.data_lba (mul32 t fs.bpb.sectors_per_cluster)) less
      ∙ omega (arith, ends c h, geo.last)

  abbrev pub contents : Disk → ℕ → List ℕ
  contents d c = span d (place c) fs.bpb.sectors_per_cluster

  -- Only the cluster `c` and its entry may have changed.
  pub record Keeps (d : Disk) (c : ℕ) (d' : Disk) : Type 0 where
    pub sound : IsSound d'
    pub entries : (k : ℕ) → IsData k → k ≢ c → next_cluster fs d' k ≡ next_cluster fs d k
    pub bytes : (k : ℕ) → IsData k → k ≢ c → contents d' k ≡ contents d k

  pub read_cluster_lem :
      (d : Disk) (c : ℕ) (buffer : List ℕ)
      → IsSound d
      → IsData c
      → fs.cluster_size ≤ length buffer
      → read_cluster fs d c buffer ≡ some (contents d c ++ drop fs.cluster_size buffer)
  unfolding read_cluster
  read_cluster_lem d c buffer s h fits =
      let n = fs.bpb.sectors_per_cluster in
      rw (cluster_to_lba_lem c h) (
        read_sectors_lem d s.size n (place c) 0 [] buffer (omega (arith, ends c h, geo.last))
          (λ k lo hi. s.answers k) refl (omega (arith, geo.bytes))
        ∙ ap (λ (l : List ℕ). some l)
            (ap₂ (λ (k m : ℕ). span d k n ++ drop m buffer) {x = place c + 0} {y = place c}
              (omega arith) (sym geo.bytes)))

  pub write_cluster-Keeps :
      (d : Disk) (c : ℕ) (buffer : List ℕ)
      → IsSound d
      → IsData c
      → length buffer ≡ fs.cluster_size
      → (d' : Disk) × (write_cluster fs c buffer d ≡ ok true d')
        × (contents d' c ≡ buffer)
        × Keeps d c d'
        × (next_cluster fs d' c ≡ next_cluster fs d c)
  unfolding write_cluster
  write_cluster-Keeps d c buffer s h fits =
      let n = fs.bpb.sectors_per_cluster in
      let (d', eq, st) =
        write_sectors-Stores n (place c) 0 buffer d s.size (omega (arith, ends c h, geo.last))
          (omega (arith, geo.bytes)) in
      let sound : IsSound d' = record {
        size = st.size;
        answers = λ lba. rw st.silent (s.answers lba);
      } in
      let unchanged : (k : ℕ) → (k < place c) ⊎ (place c + n ≤ k) → d'.sectors k ≡ d.sectors k =
        λ k out. st.others k (elim out [ inl l ↦ inl (omega arith) | inr g ↦ inr (omega arith) ]) in
      let next : (k : ℕ) → IsData k → next_cluster fs d' k ≡ next_cluster fs d k = λ k inside.
        next_cluster_lem fs geo.volume d' k (IsSound-IsReadable fs d' sound) inside.entry
        ∙ ap (λ (t : List ℕ). load32 t (4 * (k % 128)) % 2 ^ 28)
            (unchanged (fs.fat_lba + k / 128) (inl (omega (arith, geo.volume.first, inside.entry))))
        ∙ sym (next_cluster_lem fs geo.volume d k (IsSound-IsReadable fs d s) inside.entry) in
      (
        d',
        rw (cluster_to_lba_lem c h) eq,
        ap (λ (k : ℕ). span d' k n) {x = place c} {y = place c + 0} (omega arith) ∙ st.stored,
        record {
          sound = sound;
          entries = λ k inside other. next k inside;
          bytes = λ k inside other. span-cong d d' n (place k) (λ lba lo hi.
              unchanged lba (elim (dec_lt k c) [
                | yes l ↦ inl (omega (arith, place-apart k c inside l))
                | no g ↦ inr (omega (arith, place-apart c k h (omega arith)))
              ]));
        },
        next c h,
      )

  pub set_fat_entry-Keeps :
      (d : Disk) (c v : ℕ)
      → IsSound d
      → IsData c
      → (d' : Disk) × (set_fat_entry fs c v d ≡ ok true d')
        × (next_cluster fs d' c ≡ v % 2 ^ 28)
        × Keeps d c d'
        × (contents d' c ≡ contents d c)
  set_fat_entry-Keeps d c v s h =
      let (d', eq, up) =
        set_fat_entry-Updates fs geo.volume d c v (IsSound-IsReadable fs d s) h.entry in
      let same : (k : ℕ) → contents d' k ≡ contents d k = λ k.
        span-cong d d' fs.bpb.sectors_per_cluster (place k)
          (λ lba lo hi. up.clusters lba (omega arith)) in
      (
        d',
        eq,
        up.here,
        record {
          sound = record { size = up.readable.size; answers = λ lba. rw up.silent (s.answers lba) };
          entries = λ k inside other. up.others k inside.entry other;
          bytes = λ k inside other. same k;
        },
        same c,
      )
