-- ===== src/Fs/Fat32/File/Written.antt =====
-- src/fs/fat32.cpp, `WriteClusterChain`: the buffer of a round and the link to a new cluster.

use layla_os.Base.{
  ℕ, ◌-◌, ◌*◌, ◌≤◌, ◌≡◌, ◌≢◌, refl, sym, ap, ◌∙◌, ◌⊎◌, inl, inr, true, false, List, length,
  length-append, length-replicate, drop, replicate, Option, some, none, ◌==◌, if◌then◌else◌, arith,
}
use layla_os.Net.Wire.{read}
use layla_os.Net.Wire.Read.{length-read}
use layla_os.Fs.Disk.{Disk, ok, pure, ◌&&&◌, bind-ok}
use layla_os.Fs.Fat32.{Fat32, buf_size, entry_mask, next_cluster, alloc_cluster, set_fat_entry}
use layla_os.Fs.Fat32.Table.Alloc.{or_zero, IsFirstFree, alloc_cluster_lem}
use layla_os.Fs.Fat32.Cluster.Place.{
  IsSound, IsSound-IsReadable, IsGeometry, IsData, Keeps, contents, set_fat_entry-Keeps,
}
use layla_os.Fs.Fat32.File.{to_write, chunk, extend_chain}

module _ (fs : Fat32) (geo : IsGeometry fs) where
  -- Of the clusters in use only `c` and its entry may have changed.
  pub record Spares (d : Disk) (c : ℕ) (d' : Disk) : Type 0 where
    pub sound : IsSound d'
    pub entries :
        (k : ℕ)
        → IsData fs geo k
        → k ≢ c
        → next_cluster fs d k ≢ 0
        → next_cluster fs d' k ≡ next_cluster fs d k
    pub bytes :
        (k : ℕ)
        → IsData fs geo k
        → k ≢ c
        → next_cluster fs d k ≢ 0
        → contents fs geo d' k ≡ contents fs geo d k

  pub Spares-Keeps : {d d' : Disk} {c : ℕ} → Keeps fs geo d c d' → Spares d c d'
  Spares-Keeps kept = record {
    sound = kept.sound;
    entries = λ k inside other used. kept.entries k inside other;
    bytes = λ k inside other used. kept.bytes k inside other;
  }

  pub buf_size_lem : buf_size fs ≡ fs.cluster_size
  buf_size_lem = ground (arith, geo.bytes, geo.fits)

  pub to_write-le : (size written : ℕ) → to_write fs size written ≤ buf_size fs
  to_write-le size written = ground arith

  pub length-chunk :
      (buf : List ℕ) (size written : ℕ) → length (chunk fs buf size written) ≡ fs.cluster_size
  length-chunk buf size written =
      let n = to_write fs size written in
      omega (
        arith,
        buf_size_lem,
        length-append (read n (drop written buf)) (replicate (buf_size fs - n) 0),
        length-read n (drop written buf),
        length-replicate {A = ℕ} (buf_size fs - n) 0,
        to_write-le size written,
      )

  -- No cluster of the volume from 3 on is free.
  abbrev pub NoneFree : Disk → Type 0
  NoneFree d = (k : ℕ) → IsData fs geo k → 3 ≤ k → next_cluster fs d k ≢ 0

  -- A cluster more in the chain, or none and nothing changed.
  pub record Extends (d : Disk) (c next : ℕ) (d' : Disk) : Type 0 where
    pub free : next_cluster fs d next ≡ 0
    pub inside : IsData fs geo next
    pub linked : next_cluster fs d' c ≡ next
    pub ended : next_cluster fs d' next ≡ entry_mask
    pub same : contents fs geo d' c ≡ contents fs geo d c
    pub spares : Spares d c d'

  -- The two entries of a new link.
  link_lem :
      (d : Disk) (c next : ℕ)
      → IsSound d
      → IsData fs geo c
      → IsData fs geo next
      → next_cluster fs d c ≢ 0
      → next_cluster fs d next ≡ 0
      → (d' : Disk) × ((set_fat_entry fs c next &&& set_fat_entry fs next entry_mask) d
          ≡ ok true d')
        × Extends d c next d'
  link_lem d c next s h inside used free =
      let apart : c ≢ next = λ e. used (ap (next_cluster fs d) e ∙ free) in
      let apart' : next ≢ c = λ e. apart (sym e) in
      let (d1, eq1, here1, kept1, same1) = set_fat_entry-Keeps fs geo d c next s h in
      let (d2, eq2, here2, kept2, same2) =
        set_fat_entry-Keeps fs geo d1 next entry_mask kept1.sound inside in
      (
        d2,
        bind-ok (set_fat_entry fs c next)
              (λ b. if b then set_fat_entry fs next entry_mask else pure false) d d1 true eq1
            ∙ eq2,
        record {
          free = free;
          inside = inside;
          linked =
              kept2.entries c h apart ∙ here1 ∙ omega (arith, inside.entry, geo.volume.entries);
          ended = here2;
          same = kept2.bytes c h apart ∙ same1;
          spares = record {
            sound = kept2.sound;
            entries = λ k kd other taken.
                kept2.entries k kd (λ e. taken (ap (next_cluster fs d) e ∙ free))
                ∙ kept1.entries k kd other;
            bytes = λ k kd other taken.
                kept2.bytes k kd (λ e. taken (ap (next_cluster fs d) e ∙ free))
                ∙ kept1.bytes k kd other;
          };
        },
      )

  extend_chain_found :
      (d : Disk) (c : ℕ) (found : Option ℕ)
      → IsSound d
      → IsData fs geo c
      → next_cluster fs d c ≢ 0
      → alloc_cluster fs d ≡ ok (or_zero found) d
      → IsFirstFree (next_cluster fs d) geo.max 0 (128 * fs.bpb.fat_size_32) found
      → (extend_chain fs c d ≡ ok 0 d) × NoneFree d
        ⊎ (next : ℕ) × (d' : Disk) × (3 ≤ next)
          × (extend_chain fs c d ≡ ok next d')
          × Extends d c next d'
  unfolding extend_chain
  extend_chain_found d c none s h used eq first =
      inl (rw eq refl, λ k kd three. first k (omega arith) kd.entry three kd.high)
  extend_chain_found d c (some next) s h used eq first =
      let inside : IsData fs geo next = record {
        low = omega (arith, first.2);
        high = first.3;
        entry = first.1;
      } in
      let (d', linked, ext) = link_lem d c next s h inside used first.4 in
      let nonzero : (next == 0) ≡ false = ground (arith, first.2) in
      inr (
        next,
        d',
        first.2,
        rw (eq, nonzero)
            (bind-ok (set_fat_entry fs c next &&& set_fat_entry fs next entry_mask)
              (λ b. pure (if b then next else 0)) d d' true linked),
        ext,
      )

  pub extend_chain_lem :
      (d : Disk) (c : ℕ)
      → IsSound d
      → IsData fs geo c
      → next_cluster fs d c ≢ 0
      → (extend_chain fs c d ≡ ok 0 d) × NoneFree d
        ⊎ (next : ℕ) × (d' : Disk) × (3 ≤ next)
          × (extend_chain fs c d ≡ ok next d')
          × Extends d c next d'
  extend_chain_lem d c s h used =
      let (found, eq, first) =
        alloc_cluster_lem fs d geo.max geo.volume (IsSound-IsReadable fs d s) geo.bounded in
      extend_chain_found d c found s h used eq first
