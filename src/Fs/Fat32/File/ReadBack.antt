-- ===== src/Fs/Fat32/File/ReadBack.antt =====
-- src/fs/fat32.cpp, `WriteClusterChain` and the loop of `ReadFile`: a file that is written is read
-- back.
use layla_os.Base.{
  ℕ, suc, ◌+◌, ◌-◌, ◌*◌, ◌^◌, ◌<◌, ◌≤◌, ◌≡◌, ◌≢◌, ap, ◌∙◌, ◌⊎◌, inl, inr, true, false, List, [],
  ◌++◌, length, drop, ◌==◌, arith,
}
use layla_os.Net.Wire.{read}
use layla_os.Net.Wire.Read.{read-append_within}
use layla_os.Fs.Disk.{Disk, ok}
use layla_os.Fs.Fat32.{Fat32, next_cluster}
use layla_os.Fs.Fat32.Cluster.Place.{IsSound, IsGeometry, IsData}
use layla_os.Fs.Fat32.File.{write_cluster_chain, read_chain}
use layla_os.Fs.Fat32.File.Chain.{read_chain-Holds}
use layla_os.Fs.Fat32.File.Written.{Spares, NoneFree}
use layla_os.Fs.Fat32.File.Loop.{write_loop-Wrote}

-- ReadFile's loop ends for any fuel above the size and any buffer with room for a cluster more than
-- the file, and the buffer then begins with the file.
abbrev pub ReadsBack : Fat32 → Disk → ℕ → List ℕ → ℕ → Type 0
ReadsBack fs d first buf size =
    (fuel : ℕ) (buffer : List ℕ)
    → size < fuel
    → size + fs.cluster_size ≤ length buffer
    → (out : List ℕ) × (read_chain fs fuel first 0 buffer d ≡ ok out d)
      × (read size out ≡ read size buf)

-- WriteClusterChain from a cluster in use ends. It returns false only if it has left no cluster of the
-- volume free, from 3 on; or it returns true, and then ReadFile's loop from that cluster reads the
-- file back. Either way no other cluster in use and no other entry of one has changed. The file
-- has at least one byte and, with a cluster, less than 2^32; a cluster has at most 4096 bytes, the
-- tables lie before the clusters within 2^28 sectors, and the drive answers.
pub write_cluster_chain-read_chain :
    (fs : Fat32) (geo : IsGeometry fs) (d : Disk) (first : ℕ) (buf : List ℕ) (size : ℕ)
    → IsSound d
    → IsData fs geo first
    → next_cluster fs d first ≢ 0
    → 0 < size
    → size + fs.cluster_size < 2 ^ 32
    → (d' : Disk) × ((write_cluster_chain fs first buf size d ≡ ok false d')
          × NoneFree fs geo d'
          × Spares fs geo d first d'
        ⊎ (write_cluster_chain fs first buf size d ≡ ok true d')
          × ReadsBack fs d' first buf size
          × Spares fs geo d first d')
unfolding write_cluster_chain
write_cluster_chain-read_chain fs geo d first buf size s inside used some_bytes small =
    let nonzero : (size == 0) ≡ false = ground arith in
    let (d', outcome) =
      write_loop-Wrote fs geo buf size (omega arith) (suc size) first 0 d s inside used some_bytes
        (omega arith) in
    elim outcome [
      | inl (e, none_free, spares) ↦ (d', inl (rw nonzero e, none_free, spares))
      | inr (e, w) ↦ (
        d',
        inr (
          rw nonzero e,
          λ fuel buffer more room.
              let read_all =
                read_chain-Holds fs geo d' fuel first w.clusters [] buffer w.bytes w.spares.sound
                  w.holds (omega (arith, w.few)) (omega (arith, w.fewest))
                  (omega (arith, w.fewest)) in
              (
                w.bytes ++ drop (w.clusters * fs.cluster_size) buffer,
                read_all,
                read-append_within size w.bytes (drop (w.clusters * fs.cluster_size) buffer)
                      (omega (arith, w.enough))
                    ∙ ap (λ (k : ℕ). read k w.bytes) {x = size} {y = size - 0} (omega arith)
                    ∙ w.prefix
                    ∙ ap (λ (k : ℕ). read k buf) {x = size - 0} {y = size} (omega arith),
              ),
          w.spares,
        ),
      )
    ]
