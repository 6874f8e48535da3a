-- ===== src/Fs/Fat32/Directory/Search.antt =====
-- src/fs/fat32.cpp, `FindEntry`: the search through a chain of clusters.
use layla_os.Base.{
  ℕ, zero, suc, ◌+◌, ◌*◌, ◌/◌, ◌≤◌, ◌<◌, ◌≡◌, refl, sym, ap, ◌∙◌, ◌⊎◌, inl, inr, Bool-cases, true,
  false, Option, none, some, List, [], ◌∷◌, ◌++◌, ◌==◌, ltb, length, length-append, length-drop,
  drop, get_or-append_left, arith,
}
use layla_os.Net.Wire.{load8, read}
use layla_os.Net.Wire.Read.{read-append_within, length-read}
use layla_os.Fs.Disk.{Disk, Run, Cmd, pure, ok, stack_buffer, reads-some}
use layla_os.Fs.Fat32.{Fat32, chain_fuel, end_of_chain, next_cluster, read_cluster}
use layla_os.Fs.Fat32.Name.{to_short_name, names_match}
use layla_os.Fs.Fat32.Entry.{Fat32DirEntry, load_entry}
use layla_os.Fs.Fat32.Cluster.{length-span}
use layla_os.Fs.Fat32.Cluster.Place.{IsSound, IsGeometry, IsData, contents, place, read_cluster_lem}
use layla_os.Fs.Fat32.Directory.{Scan, at_end, found, go_on, find_in, find_loop, find_entry}
use layla_os.Fs.Fat32.Directory.Live.{result, match_from-read, load_entry-read}
use layla_os.Fs.Fat32.File.Chain.{Holds, last, link}

Scan-cases : {A : Type 0} (s : Scan A) → (s ≡ at_end) ⊎ (((a : A) × (s ≡ found a)) ⊎ (s ≡ go_on))
Scan-cases at_end = inl refl
Scan-cases (found a) = inr (inl (a, refl))
Scan-cases go_on = inr (inr refl)

abbrev or_else : Scan Fat32DirEntry → Scan Fat32DirEntry → Scan Fat32DirEntry
or_else at_end s = at_end
or_else (found e) s = found e
or_else go_on s = s

drop-append_within : (n : ℕ) (xs ys : List ℕ) → n ≤ length xs → drop n (xs ++ ys) ≡ drop n xs ++ ys
drop-append_within zero xs ys h = refl
drop-append_within (suc n) [] ys h = absurd (omega arith)
drop-append_within (suc n) (x ∷ xs) ys h = drop-append_within n xs ys (omega arith)

-- The entries of a cluster and of what follows it.
pub find_in-append :
    (name83 : List ℕ) (m k : ℕ) (xs ys : List ℕ)
    → length xs ≡ 32 * m
    → find_in name83 (m + k) (xs ++ ys) ≡ or_else (find_in name83 m xs) (find_in name83 k ys)
unfolding find_in
find_in-append name83 zero k [] ys h =
    ap (λ (n : ℕ). find_in name83 n ys) {x = 0 + k} {y = k} (omega arith)
find_in-append name83 zero k (x ∷ xs) ys h = absurd (omega arith)
find_in-append name83 (suc m) k xs ys h =
    let both = xs ++ ys in
    let rest = find_in-append name83 m k (drop 32 xs) ys (omega (arith, length-drop 32 xs)) in
    let later = drop-append_within 32 xs ys (omega arith) in
    let b0 = get_or-append_left xs ys 0 0 (omega arith) in
    let b11 = get_or-append_left xs ys 11 0 (omega arith) in
    let same : read 32 both ≡ read 32 xs = read-append_within 32 xs ys (omega arith) in
    let matched : names_match both name83 ≡ names_match xs name83 =
      sym (match_from-read 11 0 32 both name83 (omega arith))
      ∙ ap (λ (t : List ℕ). names_match t name83) same
      ∙ match_from-read 11 0 32 xs name83 (omega arith) in
    let loaded : load_entry both ≡ load_entry xs =
      sym (load_entry-read both) ∙ ap load_entry same ∙ load_entry-read xs in
    ap (λ (n : ℕ). find_in name83 n both) {x = suc m + k} {y = suc (m + k)} (omega arith)
    ∙ elim (Bool-cases (load8 xs 0 == 0x00)) [
      | inl e ↦ rw (b0, e) refl
      | inr e ↦ elim (Bool-cases (load8 xs 0 == 0xE5)) [
        | inl free ↦ rw (b0, e, free, later) rest
        | inr used ↦ elim (Bool-cases (load8 xs 11 == 0x0F)) [
          | inl long ↦ rw (b0, e, used, b11, long, later) rest
          | inr short ↦ elim (Bool-cases (names_match xs name83)) [
            | inl hit ↦ rw (b0, e, used, b11, short, matched, hit, loaded) refl
            | inr miss ↦ rw (b0, e, used, b11, short, matched, miss, later) rest
          ]
        ]
      ]
    ]

module _ (fs : Fat32) (geo : IsGeometry fs) (d : Disk) (s : IsSound d) (name83 : List ℕ) where
  abbrev per_cluster : ℕ
  per_cluster = fs.cluster_size / 32

  abbrev entries_in : ℕ → List ℕ → List ℕ
  entries_in c buf = contents fs geo d c ++ drop fs.cluster_size buf

  length-contents : (c : ℕ) → length (contents fs geo d c) ≡ 32 * per_cluster
  length-contents c =
      omega (arith, length-span d s.size fs.bpb.sectors_per_cluster (place fs geo c), geo.bytes)

  -- The loop's round, for what the search of the cluster ends with.
  abbrev round : Scan Fat32DirEntry → ℕ → ℕ → List ℕ → Run (Option Fat32DirEntry)
  round at_end fuel c buf = ok none d
  round (found e) fuel c buf = ok (some e) d
  round go_on fuel c buf = find_loop fs fuel name83 (next_cluster fs d c) (entries_in c buf) d

  find_loop-round :
      (fuel c : ℕ) (buf : List ℕ) (scan : Scan Fat32DirEntry)
      → IsData fs geo c
      → fs.cluster_size ≤ length buf
      → find_in name83 per_cluster (entries_in c buf) ≡ scan
      → find_loop fs (suc fuel) name83 c buf d ≡ round scan fuel c buf
  unfolding find_loop
  find_loop-round fuel c buf scan inside room e =
      let going : ltb c end_of_chain ≡ true = ground (arith, inside.entry, geo.volume.entries) in
      rw going (
        reads-some (λ d. read_cluster fs d c buf)
          (λ entries. elim (find_in name83 per_cluster entries) [
            | at_end ↦ pure none
            | found e ↦ pure (some e)
            | go_on ↦ λ d1. find_loop fs fuel name83 (next_cluster fs d1 c) entries d1
          ])
          d (entries_in c buf) (read_cluster_lem fs geo d c buf s inside room)
        ∙ by_scan scan e)
    where
      by_scan :
          (scan : Scan Fat32DirEntry)
          → find_in name83 per_cluster (entries_in c buf) ≡ scan
          → (elim (find_in name83 per_cluster (entries_in c buf))
                as (λ t. Cmd (Option Fat32DirEntry)) [
                  | at_end ↦ pure none
                  | found e ↦ pure (some e)
                  | go_on ↦
                      λ d1. find_loop fs fuel name83 (next_cluster fs d1 c) (entries_in c buf) d1
                ])
              d
            ≡ round scan fuel c buf
      by_scan at_end h = rw h refl
      by_scan (found e) h = rw h refl
      by_scan go_on h = rw h refl

  scan_cluster :
      (c : ℕ) (buf : List ℕ)
      → find_in name83 per_cluster (entries_in c buf)
        ≡ or_else (find_in name83 per_cluster (contents fs geo d c)) go_on
  unfolding find_in
  scan_cluster c buf =
      ap (λ (n : ℕ). find_in name83 n (entries_in c buf)) {x = per_cluster} {y = per_cluster + 0}
        (omega arith)
      ∙ find_in-append name83 per_cluster 0 (contents fs geo d c) (drop fs.cluster_size buf)
          (length-contents c)

  -- A round, by what the search of the cluster's own bytes ends with.
  find_loop_here :
      (fuel c : ℕ) (buf : List ℕ) (scan : Scan Fat32DirEntry)
      → IsData fs geo c
      → fs.cluster_size ≤ length buf
      → find_in name83 per_cluster (contents fs geo d c) ≡ scan
      → find_loop fs (suc fuel) name83 c buf d ≡ round (or_else scan go_on) fuel c buf
  find_loop_here fuel c buf scan inside room e =
      find_loop-round fuel c buf (or_else scan go_on) inside room
        (scan_cluster c buf ∙ ap (λ (t : Scan Fat32DirEntry). or_else t go_on) e)

  find_loop_stop :
      (fuel c : ℕ) (buf : List ℕ)
      → end_of_chain ≤ c
      → find_loop fs (suc fuel) name83 c buf d ≡ ok none d
  unfolding find_loop
  find_loop_stop fuel c buf h = let stop : ltb c end_of_chain ≡ false = ground arith in rw stop refl

  -- FindEntry's loop ends on a chain of clusters, with what a search through all their bytes in
  -- one piece finds.
  pub find_loop-Holds :
      (fuel c n : ℕ) (bytes buf : List ℕ)
      → Holds fs geo d c n bytes
      → n < fuel
      → fs.cluster_size ≤ length buf
      → find_loop fs fuel name83 c buf d ≡ ok (result (find_in name83 (n * per_cluster) bytes)) d
  find_loop-Holds zero c n bytes buf h f room = absurd (omega arith)
  find_loop-Holds (suc zero) c n bytes buf (last c' inside stop) f room = absurd (omega arith)
  find_loop-Holds (suc (suc fuel)) c n bytes buf (last c' inside stop) f room =
      let whole : 1 * per_cluster ≡ per_cluster = omega arith in
      rw whole (elim (Scan-cases (find_in name83 per_cluster (contents fs geo d c))) [
        | inl e ↦ find_loop_here (suc fuel) c buf at_end inside room e ∙ rw e refl
        | inr (inl (x, e)) ↦ find_loop_here (suc fuel) c buf (found x) inside room e ∙ rw e refl
        | inr (inr e) ↦
            find_loop_here (suc fuel) c buf go_on inside room e
            ∙ find_loop_stop fuel (next_cluster fs d c) (entries_in c buf) stop
            ∙ rw e refl
      ])
  find_loop-Holds (suc fuel) c n bytes buf (link c' m more inside rest) f room =
      let both : find_in name83 (suc m * per_cluster) (contents fs geo d c ++ more)
          ≡ or_else (find_in name83 per_cluster (contents fs geo d c))
              (find_in name83 (m * per_cluster) more) =
        ap (λ (k : ℕ). find_in name83 k (contents fs geo d c ++ more)) {x = suc m * per_cluster}
          {y = per_cluster + m * per_cluster} (omega arith)
        ∙ find_in-append name83 per_cluster (m * per_cluster) (contents fs geo d c) more
            (length-contents c) in
      let room' : fs.cluster_size ≤ length (entries_in c buf) = omega (
        arith,
        length-append (contents fs geo d c) (drop fs.cluster_size buf),
        length-contents c,
        geo.bytes,
      ) in
      rw both (elim (Scan-cases (find_in name83 per_cluster (contents fs geo d c))) [
        | inl e ↦ find_loop_here fuel c buf at_end inside room e ∙ rw e refl
        | inr (inl (x, e)) ↦ find_loop_here fuel c buf (found x) inside room e ∙ rw e refl
        | inr (inr e) ↦
            find_loop_here fuel c buf go_on inside room e
            ∙ find_loop-Holds fuel (next_cluster fs d c) m more (entries_in c buf) rest
                (omega arith) room'
            ∙ rw e refl
      ])

-- FindEntry in a directory whose clusters form a chain ends, and its result is that of one search
-- through the bytes of all its clusters. The chain has at most as many clusters as the table has
-- entries; a cluster has at most 4096 bytes, and the drive answers.
pub find_entry-Holds :
    (fs : Fat32) (geo : IsGeometry fs) (d : Disk) (c n : ℕ) (bytes name : List ℕ)
    → IsSound d
    → Holds fs geo d c n bytes
    → n < chain_fuel fs
    → find_entry fs c name d
      ≡ ok (result (find_in (to_short_name name) (n * (fs.cluster_size / 32)) bytes)) d
unfolding find_entry stack_buffer
find_entry-Holds fs geo d c n bytes name s h f =
    find_loop-Holds fs geo d s (to_short_name name) (chain_fuel fs) c n bytes (read 4096 d.stack) h
      f (omega (arith, length-read 4096 d.stack, geo.bytes, geo.fits))
