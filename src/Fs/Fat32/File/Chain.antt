-- ===== src/Fs/Fat32/File/Chain.antt =====
-- src/fs/fat32.cpp, the loop of `ReadFile`: it reads a chain of clusters to its end.
use layla_os.Base.{
  ℕ, zero, suc, ◌+◌, ◌*◌, ◌^◌, ◌<◌, ◌≤◌, ◌≡◌, refl, sym, ap, ◌∙◌, true, false, List, ◌++◌, length,
  length-append, length-drop, drop, drop-drop, take-append_self, drop-append, append_assoc, some,
  ltb, add32, arith,
}
use layla_os.Fs.Disk.{Disk, ok, reads-some}
use layla_os.Fs.Fat32.{Fat32, end_of_chain, next_cluster}
use layla_os.Fs.Fat32.Cluster.{length-span}
use layla_os.Fs.Fat32.Cluster.Place.{IsSound, IsGeometry, IsData, contents, place, read_cluster_lem}
use layla_os.Fs.Fat32.File.{read_cluster_at, read_chain}

module _ (fs : Fat32) (geo : IsGeometry fs) where
  -- The chain from a cluster has `n` clusters with these bytes.
  pub data Holds (d : Disk) : ℕ → ℕ → List ℕ → Type 0 where
    last :
        (c : ℕ)
        → IsData fs geo c
        → end_of_chain ≤ next_cluster fs d c
        → Holds d c 1 (contents fs geo d c)
    link :
        (c n : ℕ) (bytes : List ℕ)
        → IsData fs geo c
        → Holds d (next_cluster fs d c) n bytes
        → Holds d c (suc n) (contents fs geo d c ++ bytes)

  in_chain : (c : ℕ) → IsData fs geo c → ltb c end_of_chain ≡ true
  in_chain c h = ground (arith, h.entry, geo.volume.entries)

  read_cluster_at_lem :
      (d : Disk) (c : ℕ) (front back : List ℕ)
      → IsSound d
      → IsData fs geo c
      → fs.cluster_size ≤ length back
      → read_cluster_at fs d c (length front) (front ++ back)
        ≡ some (front ++ (contents fs geo d c ++ drop fs.cluster_size back))
  read_cluster_at_lem d c front back s h fits =
      rw
        (
          read_cluster_at,
          drop-append (length front) front back refl,
          read_cluster_lem fs geo d c back s h fits,
          take-append_self (length front) front back refl,
        )
        refl

  -- One round.
  read_chain_step :
      (d : Disk) (fuel c : ℕ) (front back : List ℕ)
      → IsSound d
      → IsData fs geo c
      → fs.cluster_size ≤ length back
      → length front + fs.cluster_size < 2 ^ 32
      → let front' = front ++ contents fs geo d c in
        read_chain fs (suc fuel) c (length front) (front ++ back) d
        ≡ read_chain fs fuel
            (next_cluster fs d c)
            (length front')
            (front' ++ drop fs.cluster_size back)
            d
  unfolding read_chain
  read_chain_step d fuel c front back s inside room small =
      let bytes = contents fs geo d c in
      let moved : add32 (length front) fs.cluster_size ≡ length (front ++ bytes) = omega (
        arith,
        length-append front bytes,
        length-span d s.size fs.bpb.sectors_per_cluster (place fs geo c),
        geo.bytes,
      ) in
      rw (in_chain c inside) (
        reads-some (λ d. read_cluster_at fs d c (length front) (front ++ back))
          (λ buffer' d1.
            read_chain fs fuel (next_cluster fs d1 c) (add32 (length front) fs.cluster_size) buffer'
              d1)
          d _ (read_cluster_at_lem d c front back s inside room)
        ∙ rw (moved, append_assoc front bytes (drop fs.cluster_size back)) refl)

  read_chain_stop :
      (d : Disk) (fuel c written : ℕ) (buffer : List ℕ)
      → end_of_chain ≤ c
      → read_chain fs (suc fuel) c written buffer d ≡ ok buffer d
  unfolding read_chain
  read_chain_stop d fuel c written buffer h =
      let stop : ltb c end_of_chain ≡ false = ground arith in rw stop refl

  -- ReadFile's loop ends on a chain of clusters and puts their bytes one after the other into the
  -- buffer at `written`. The buffer has room for all of them, the fuel is more than their number.
  pub read_chain-Holds :
      (d : Disk) (fuel c n : ℕ) (front back bytes : List ℕ)
      → IsSound d
      → Holds d c n bytes
      → n < fuel
      → n * fs.cluster_size ≤ length back
      → length front + n * fs.cluster_size < 2 ^ 32
      → read_chain fs fuel c (length front) (front ++ back) d
        ≡ ok (front ++ (bytes ++ drop (n * fs.cluster_size) back)) d
  read_chain-Holds d zero c n front back bytes s h f room small = absurd (omega arith)
  read_chain-Holds d (suc zero) c n front back bytes s (last c' inside stop) f room small =
      absurd (omega arith)
  read_chain-Holds d (suc (suc fuel)) c n front back bytes s (last c' inside stop) f room small =
      read_chain_step d (suc fuel) c front back s inside (omega arith) (omega arith)
      ∙ read_chain_stop d fuel _ _ _ stop
      ∙ ap (λ (l : List ℕ). ok l d)
          (append_assoc front (contents fs geo d c) (drop fs.cluster_size back)
            ∙ ap (λ (k : ℕ). front ++ (contents fs geo d c ++ drop k back)) {x = fs.cluster_size}
                {y = 1 * fs.cluster_size} (omega arith))
  read_chain-Holds d (suc fuel) c n front back bytes s (link c' m more inside rest) f room small =
      let here = contents fs geo d c in
      let size : length here ≡ fs.cluster_size =
        length-span d s.size fs.bpb.sectors_per_cluster (place fs geo c) ∙ sym geo.bytes in
      read_chain_step d fuel c front back s inside (omega arith) (omega arith)
      ∙ read_chain-Holds d fuel (next_cluster fs d c) m (front ++ here) (drop fs.cluster_size back)
          more s rest (omega arith) (omega (arith, length-drop fs.cluster_size back))
          (omega (arith, length-append front here))
      ∙ ap (λ (l : List ℕ). ok l d)
          (append_assoc front here (more ++ drop (m * fs.cluster_size) (drop fs.cluster_size back))
            ∙ ap (λ (l : List ℕ). front ++ l)
                (ap (λ (l : List ℕ). here ++ (more ++ l))
                    (drop-drop (m * fs.cluster_size) fs.cluster_size back
                      ∙ ap (λ (k : ℕ). drop k back) {x = fs.cluster_size + m * fs.cluster_size}
                          {y = suc m * fs.cluster_size} (omega arith))
                  ∙ sym (append_assoc here more (drop (suc m * fs.cluster_size) back))))
