-- ===== src/Fs/Fat32/Tests/Directories.antt =====
-- Directories and paths at concrete values.
use layla_os.Base.{
  ℕ, ◌*◌, ◌/◌, ◌≡◌, refl, ◌⊎◌, inl, inr, Bool-cases, false, none, some, List, [], ◌∷◌, ◌++◌, ltb,
  length, replicate, arith,
}
use layla_os.Fs.Disk.{Disk, ok, stack_buffer, read28}
use layla_os.Fs.Fat32.{end_of_chain, read_cluster, read_sectors}
use layla_os.Fs.Fat32.Name.{to_short_name}
use layla_os.Fs.Fat32.Table.{next_cluster_lem}
use layla_os.Fs.Fat32.Cluster.Place.{contents}
use layla_os.Fs.Fat32.File.Chain.{Holds, last}
use layla_os.Fs.Fat32.Directory.{find_in, add_in, mark_in, find_loop, find_entry}
use layla_os.Fs.Fat32.Directory.Live.{live, lives, remove_live, result, mark_in-live}
use layla_os.Fs.Fat32.Directory.Added.{IsClosed, Adds, add_in-live}
use layla_os.Fs.Fat32.Directory.Search.{find_entry-Holds}
use layla_os.Fs.Fat32.Path.{Resolved, resolve_path}
use layla_os.Fs.Fat32.Path.Ends.{Finds, resolve_path-ends}
use layla_os.Fs.Fat32.Tests.{
  volume, volume-IsVolume, volume-IsGeometry, disk, disk-IsSound, disk-IsReadable,
}

-- The root directory is one cluster.
root : Holds volume volume-IsGeometry disk 2 1 (contents volume volume-IsGeometry disk 2)
root =
    last 2 (record { low = omega arith; high = omega arith; entry = omega arith })
      (omega (arith, next_cluster_lem volume volume-IsVolume disk 2 disk-IsReadable (omega arith)))

find_entry-Holds_example :
    find_entry volume 2 (b'a' ∷ []) disk
    ≡ ok
        (result (
          find_in
            (to_short_name (b'a' ∷ []))
            (1 * (512 / 32))
            (contents volume volume-IsGeometry disk 2)))
        disk
find_entry-Holds_example =
    find_entry-Holds volume volume-IsGeometry disk 2 1 (contents volume volume-IsGeometry disk 2)
      (b'a' ∷ []) disk-IsSound root (omega arith)

abbrev named : ℕ → List ℕ
named c = c ∷ (replicate 10 b' ' ++ (0x20 ∷ replicate 20 0))

-- Two entries and a free one.
abbrev entries : List ℕ
entries = named b'A' ++ (named b'B' ++ replicate 32 0)

mark_in-live_example :
    lives 3 (result (mark_in (b'B' ∷ replicate 10 b' ') 3 entries))
    ≡ remove_live (b'B' ∷ replicate 10 b' ') (live 3 entries)
mark_in-live_example = mark_in-live (b'B' ∷ replicate 10 b' ') 3 entries (omega arith)

entries-IsClosed : IsClosed 3 entries
unfolding live
entries-IsClosed =
    (λ z. absurd (omega (arith, z)), (λ z. absurd (omega (arith, z)), (λ z. refl, tt)))

add_in-live_example :
    (add_in (named b'C') 3 entries ≡ none) × (length (live 3 entries) ≡ 3)
    ⊎ (entries' : List ℕ) × (add_in (named b'C') 3 entries ≡ some entries')
      × Adds (named b'C') (live 3 entries) (live 3 entries')
      × IsClosed 3 entries'
add_in-live_example =
    add_in-live (named b'C')
      (record { size = refl; not_end = omega arith; not_deleted = omega arith }) 3 entries
      (omega arith) entries-IsClosed

-- On a blank disk every directory is empty.
abbrev blank : Disk
blank = record { sectors = λ lba. replicate 512 0; silent = λ lba. false; stack = [] }

blank-Finds : Finds volume blank
unfolding find_entry find_loop read_cluster read_sectors read28 stack_buffer find_in
    layla_os.Net.Wire.write_at
blank-Finds dir name =
    (none, elim (Bool-cases (ltb dir end_of_chain)) [ inl e ↦ rw e refl | inr e ↦ rw e refl ])

resolve_path-ends_example :
    (r : Resolved) × (resolve_path volume (b'/' ∷ (b'a' ∷ (b'/' ∷ (b'b' ∷ [])))) blank ≡ ok r blank)
resolve_path-ends_example =
    resolve_path-ends volume blank (b'/' ∷ (b'a' ∷ (b'/' ∷ (b'b' ∷ [])))) blank-Finds
