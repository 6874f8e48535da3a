-- ===== src/Fs/Fat32/Table/Alloc.antt =====
-- src/fs/fat32.cpp, `AllocCluster`: the search for a free cluster.
use layla_os.Base.{
  ℕ, zero, suc, ◌+◌, ◌*◌, ◌/◌, ◌%◌, ◌^◌, ◌<◌, ◌≤◌, ◌≡◌, ◌≢◌, refl, sym, ap, ◌∙◌, inl, inr,
  Bool-cases, Option, Option-cases, none, some, List, bit_and, bit_and_mask, ltb, leb, ◌==◌, ◌||◌,
  add32, mul32, subst, dec_lt, arith,
}
use layla_os.Net.Wire.{load32}
use layla_os.Fs.Disk.{Disk, ok}
use layla_os.Fs.Fat32.{
  Fat32, entry_mask, next_cluster, max_cluster, scan_entries, scan_fat, alloc_cluster,
}
use layla_os.Fs.Fat32.Table.{IsVolume, IsReadable, next_cluster_lem, read_sector-answer}

-- The result is the lowest number from `lo` up to `hi` that is at least 3, below `max` and free.
abbrev pub IsFirstFree : (ℕ → ℕ) → ℕ → ℕ → ℕ → Option ℕ → Type 0
IsFirstFree value max lo hi none = (k : ℕ) → lo ≤ k → k < hi → 3 ≤ k → k < max → value k ≢ 0
IsFirstFree value max lo hi (some c) =
    (lo ≤ c)
    × (c < hi)
    × (3 ≤ c)
    × (c < max)
    × (value c ≡ 0)
    × ((k : ℕ) → lo ≤ k → k < c → 3 ≤ k → value k ≢ 0)

module _ (value : ℕ → ℕ) (max : ℕ) where
  IsFirstFree-join :
      (lo mid hi : ℕ) (r : Option ℕ)
      → lo ≤ mid
      → IsFirstFree value max lo mid none
      → IsFirstFree value max mid hi r
      → IsFirstFree value max lo hi r
  IsFirstFree-join lo mid hi none le below h = λ k lo_k k_hi three small. elim (dec_lt k mid) [
    | yes l ↦ below k lo_k l three small
    | no g ↦ h k (omega arith) k_hi three small
  ]
  IsFirstFree-join lo mid hi (some c) le below h = (
    omega (arith, h.0),
    h.1,
    h.2,
    h.3,
    h.4,
    λ k lo_k k_c three. elim (dec_lt k mid) [
      | yes l ↦ below k lo_k l three (omega (arith, h.3))
      | no g ↦ h.5 k (omega arith) k_c three
    ],
  )

  -- One number that is out of range or taken.
  IsFirstFree-one :
      (lo : ℕ) → (3 ≤ lo → lo < max → value lo ≢ 0) → IsFirstFree value max lo (suc lo) none
  IsFirstFree-one lo h k lo_k k_hi three small =
      subst (λ j. value j ≢ 0) {x = lo} {y = k} (omega arith) (h (omega arith) (omega arith))

  module _ (s : ℕ) (sector : List ℕ) (fits : s * 128 + 128 ≤ 2 ^ 28)
      (entries : (j : ℕ)
        → j < 128
        → bit_and (load32 sector (4 * j)) entry_mask ≡ value (s * 128 + j)) where
    scan_entries_lem :
        (n i : ℕ)
        → i + n ≡ 128
        → IsFirstFree value max (s * 128 + i) (s * 128 + 128) (scan_entries n i s max sector)
    unfolding scan_entries
    scan_entries_lem zero i e = λ k lo hi three small. absurd (omega arith)
    scan_entries_lem (suc n) i e =
        let at_i : add32 (mul32 s 128) i ≡ s * 128 + i = omega arith in
        let later : (3 ≤ s * 128 + i → s * 128 + i < max → value (s * 128 + i) ≢ 0)
            → IsFirstFree value max (s * 128 + i) (s * 128 + 128)
                (scan_entries n (i + 1) s max sector) =
          λ taken.
            IsFirstFree-join (s * 128 + i) (suc (s * 128 + i)) (s * 128 + 128)
              (scan_entries n (i + 1) s max sector) (omega arith)
              (IsFirstFree-one (s * 128 + i) taken)
              (subst
                (λ b. IsFirstFree value max b (s * 128 + 128) (scan_entries n (i + 1) s max sector))
                {x = s * 128 + (i + 1)} {y = suc (s * 128 + i)} (omega arith)
                (scan_entries_lem n (i + 1) (omega arith))) in
        elim (Bool-cases (ltb (s * 128 + i) 3 || leb max (s * 128 + i))) [
          | inl outside ↦ rw (at_i, outside) (later (λ three small. absurd (ground arith)))
          | inr inside ↦ elim (Bool-cases (bit_and (load32 sector (4 * i)) entry_mask == 0)) [
            | inr taken ↦
                rw (at_i, inside, taken)
                  (later (λ three small zero_value. ground (arith, entries i (omega arith))))
            | inl free ↦
                rw (at_i, inside, free)
                  (
                    omega arith,
                    omega arith,
                    ground arith,
                    ground arith,
                    sym (entries i (omega arith)) ∙ ground arith,
                    λ k lo_k k_c three. absurd (omega arith),
                  )
          ]
        ]

-- The number that stands for the result.
abbrev pub or_zero : Option ℕ → ℕ
or_zero none = 0
or_zero (some c) = c

module _ (fs : Fat32) (volume : IsVolume fs) (d : Disk) (r : IsReadable fs d) (max : ℕ) where
  scan_fat_lem :
      (n s : ℕ)
      → s + n ≡ fs.bpb.fat_size_32
      → (found : Option ℕ) × (scan_fat fs d n s max ≡ or_zero found)
        × IsFirstFree (next_cluster fs d) max (s * 128) (128 * fs.bpb.fat_size_32) found
  unfolding scan_fat
  scan_fat_lem zero s e = (none, refl, λ k lo hi three small. absurd (omega arith))
  scan_fat_lem (suc n) s e =
      let at_s : add32 fs.fat_lba s ≡ fs.fat_lba + s = omega (arith, volume.first, volume.small) in
      let sector = d.sectors (fs.fat_lba + s) in
      let answer =
        read_sector-answer d (fs.fat_lba + s) (omega (arith, volume.first, volume.small))
          (r.answers (fs.fat_lba + s) (omega (arith, volume.first))) in
      let entries : (j : ℕ)
          → j < 128
          → bit_and (load32 sector (4 * j)) entry_mask ≡ next_cluster fs d (s * 128 + j) =
        λ j small.
          bit_and_mask 28 (load32 sector (4 * j))
          ∙ ap (λ (t : ℕ). load32 (d.sectors (fs.fat_lba + t)) (4 * j) % 2 ^ 28) {x = s}
              {y = (s * 128 + j) / 128} (omega arith)
          ∙ ap (λ (t : ℕ). load32 (d.sectors (fs.fat_lba + (s * 128 + j) / 128)) (4 * t) % 2 ^ 28)
              {x = j} {y = (s * 128 + j) % 128} (omega arith)
          ∙ sym (next_cluster_lem fs volume d (s * 128 + j) r (omega arith)) in
      let fits : s * 128 + 128 ≤ 2 ^ 28 = omega (arith, volume.entries) in
      let here =
        subst
          (λ b.
            IsFirstFree (next_cluster fs d) max b (s * 128 + 128) (scan_entries 128 0 s max sector))
          {x = s * 128 + 0} {y = s * 128} (omega arith)
          (scan_entries_lem (next_cluster fs d) max s sector fits entries 128 0 refl) in
      let passed : scan_entries 128 0 s max sector ≡ none
          → scan_fat fs d (suc n) s max ≡ scan_fat fs d n (s + 1) max =
        λ nothing. rw (at_s, answer, nothing) refl in
      let whole = 128 * fs.bpb.fat_size_32 in
      let rest = scan_fat_lem n (s + 1) (omega arith) in
      elim (Option-cases (scan_entries 128 0 s max sector)) [
        | inl nothing ↦ (
          rest.0,
          passed nothing ∙ rest.1,
          IsFirstFree-join (next_cluster fs d) max (s * 128) (s * 128 + 128) whole rest.0
              (omega arith)
              (subst (IsFirstFree (next_cluster fs d) max (s * 128) (s * 128 + 128)) nothing here)
              (subst (λ b. IsFirstFree (next_cluster fs d) max b whole rest.0) {x = (s + 1) * 128}
                {y = s * 128 + 128} (omega arith) rest.2),
        )
        | inr (c, hit) ↦
            let one =
              subst (IsFirstFree (next_cluster fs d) max (s * 128) (s * 128 + 128)) hit here in
            (
              some c,
              rw (at_s, answer, hit) refl,
              (one.0, omega (arith, one.1), one.2, one.3, one.4, one.5),
            )
      ]

-- AllocCluster changes nothing and returns the lowest cluster from 3 on, within the volume and the
-- table, whose entry is free; it returns 0 only if there is none. The tables lie before the
-- clusters below 2^28 sectors, the drive answers for them, and a cluster has a sector.
pub alloc_cluster_lem :
    (fs : Fat32) (d : Disk) (max : ℕ)
    → IsVolume fs
    → IsReadable fs d
    → max_cluster fs ≡ some max
    → (found : Option ℕ) × (alloc_cluster fs d ≡ ok (or_zero found) d)
      × IsFirstFree (next_cluster fs d) max 0 (128 * fs.bpb.fat_size_32) found
unfolding alloc_cluster
alloc_cluster_lem fs d max volume r e =
    let scan = scan_fat_lem fs volume d r max fs.bpb.fat_size_32 0 (omega arith) in
    (scan.0, rw (e, scan.1) refl, scan.2)
