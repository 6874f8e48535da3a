-- ===== src/Fs/Fat32/Directory/Live.antt =====
-- src/fs/fat32.cpp: a cluster of a directory as the list of its live entries.
use layla_os.Base.{
  ℕ, zero, suc, ◌+◌, ◌*◌, ◌≤◌, ◌<◌, ◌≡◌, refl, sym, ap, ◌∙◌, inl, inr, Bool-cases, true, false,
  Option, none, some, List, [], ◌∷◌, ◌++◌, if◌then◌else◌, ◌==◌, length, take, drop, drop-append,
  drop-nil, drop-drop, get_or, get_or-append_left, get_or-take, length-take, length-drop, arith,
}
use layla_os.Net.Wire.{load8, read}
use layla_os.Net.Wire.Read.{get_or-read, read-append, read-eq-take, read-read}
use layla_os.Fs.Fat32.Name.{names_match, match_from}
use layla_os.Fs.Fat32.Entry.{Fat32DirEntry, load_entry}
use layla_os.Fs.Fat32.Directory.{Scan, at_end, found, go_on, find_in, delete_mark, mark_in}

-- The 32 bytes of every entry in use up to the end of the directory.
unfoldable pub live : ℕ → List ℕ → List (List ℕ)
live zero entries = []
live (suc n) entries =
    let rest = live n (drop 32 entries) in
    if load8 entries 0 == 0x00
    then []
    else if load8 entries 0 == 0xE5
    then rest
    else read 32 entries ∷ rest

-- The first entry with the name that is no part of a long name.
unfoldable pub find_live : List ℕ → List (List ℕ) → Option Fat32DirEntry
find_live name83 [] = none
find_live name83 (e ∷ es) =
    let rest = find_live name83 es in
    if load8 e 11 == 0x0F then rest else if names_match e name83 then some (load_entry e) else rest

-- The list without the first entry of the name.
unfoldable pub remove_live : List ℕ → List (List ℕ) → Option (List (List ℕ))
remove_live name83 [] = none
remove_live name83 (e ∷ es) =
    let rest = remove_live name83 es in
    if names_match e name83 then some es else elim rest [ none ↦ none | some es' ↦ some (e ∷ es') ]

abbrev pub result : {A : Type 0} → Scan A → Option A
result at_end = none
result (found a) = some a
result go_on = none

drop-read : (n m : ℕ) (xs : List ℕ) → drop n (read (n + m) xs) ≡ read m (drop n xs)
drop-read zero m xs = ap (λ (k : ℕ). read k xs) {x = 0 + m} {y = m} (omega arith)
drop-read (suc n) m [] =
    ap (λ (k : ℕ). drop (suc n) (read k [])) {x = suc n + m} {y = suc (n + m)} (omega arith)
    ∙ drop-read n m []
    ∙ ap (read m) (drop-nil n)
drop-read (suc n) m (x ∷ xs) =
    ap (λ (k : ℕ). drop (suc n) (read k (x ∷ xs))) {x = suc n + m} {y = suc (n + m)} (omega arith)
    ∙ drop-read n m xs

pub match_from-read :
    (n i m : ℕ) (xs ys : List ℕ) → i + n ≤ m → match_from n i (read m xs) ys ≡ match_from n i xs ys
unfolding match_from
match_from-read zero i m xs ys h = refl
match_from-read (suc n) i m xs ys h =
    rw (get_or-read m xs i (omega arith), match_from-read n (i + 1) m xs ys (omega arith)) refl

pub load_entry-read : (xs : List ℕ) → load_entry (read 32 xs) ≡ load_entry xs
unfolding load_entry
load_entry-read xs =
    let at : (k : ℕ) → k < 32 → get_or (read 32 xs) k 0 ≡ get_or xs k 0 = get_or-read 32 xs in
    rw
      (
        read-read 8 32 xs (omega arith),
        drop-read 8 24 xs,
        read-read 3 24 (drop 8 xs) (omega arith),
        at 11 (omega arith),
        at 12 (omega arith),
        at 13 (omega arith),
        at 14 (omega arith),
        at 15 (omega arith),
        at 16 (omega arith),
        at 17 (omega arith),
        at 18 (omega arith),
        at 19 (omega arith),
        at 20 (omega arith),
        at 21 (omega arith),
        at 22 (omega arith),
        at 23 (omega arith),
        at 24 (omega arith),
        at 25 (omega arith),
        at 26 (omega arith),
        at 27 (omega arith),
        at 28 (omega arith),
        at 29 (omega arith),
        at 30 (omega arith),
        at 31 (omega arith),
      )
      refl

-- FindEntry's loop over a cluster finds what the list of live entries has.
pub find_in-live :
    (name83 : List ℕ) (n : ℕ) (entries : List ℕ)
    → result (find_in name83 n entries) ≡ find_live name83 (live n entries)
unfolding find_in live find_live
find_in-live name83 zero entries = refl
find_in-live name83 (suc n) entries =
    let rest = find_in-live name83 n (drop 32 entries) in
    let attr = get_or-read 32 entries 11 (omega arith) in
    let same = match_from-read 11 0 32 entries name83 (omega arith) in
    elim (Bool-cases (load8 entries 0 == 0x00)) [
      | inl e ↦ rw e refl
      | inr e ↦ elim (Bool-cases (load8 entries 0 == 0xE5)) [
        | inl free ↦ rw (e, free) rest
        | inr used ↦ elim (Bool-cases (load8 entries 11 == 0x0F)) [
          | inl long ↦ rw (e, used, attr, long) rest
          | inr short ↦ elim (Bool-cases (names_match entries name83)) [
            | inl hit ↦ rw (e, used, attr, short, same, hit, load_entry-read entries) refl
            | inr miss ↦ rw (e, used, attr, short, same, miss) rest
          ]
        ]
      ]
    ]

-- A cluster whose first entry is kept.
pub live-keep :
    (n : ℕ) (entries r : List ℕ)
    → 32 ≤ length entries
    → live (suc n) (take 32 entries ++ r) ≡ (
        if load8 entries 0 == 0x00
        then []
        else if load8 entries 0 == 0xE5
        then live n r
        else read 32 entries ∷ live n r)
unfolding live
live-keep n entries r h =
    let size : length (take 32 entries) ≡ 32 = omega (arith, length-take 32 entries) in
    let first : get_or (take 32 entries ++ r) 0 0 ≡ get_or entries 0 0 =
      get_or-append_left (take 32 entries) r 0 0 (omega arith)
      ∙ get_or-take 32 entries 0 0 (omega arith) in
    rw
      (
        first,
        drop-append 32 (take 32 entries) r size,
        read-append 32 (take 32 entries) r size,
        sym (read-eq-take 32 entries h),
      )
      refl

abbrev pub lives : ℕ → Option (List ℕ) → Option (List (List ℕ))
lives n none = none
lives n (some entries) = some (live n entries)

abbrev kept : List ℕ → Scan (List ℕ) → Scan (List ℕ)
kept entries at_end = at_end
kept entries (found r) = found (take 32 entries ++ r)
kept entries go_on = go_on

abbrev cons : List ℕ → Option (List (List ℕ)) → Option (List (List ℕ))
cons e none = none
cons e (some es) = some (e ∷ es)

module _ (n : ℕ) (entries : List ℕ) (whole : 32 ≤ length entries)
    (e : (load8 entries 0 == 0x00) ≡ false) where
  lives-kept_free :
      (s : Scan (List ℕ))
      → (load8 entries 0 == 0xE5) ≡ true
      → lives (suc n) (result (kept entries s)) ≡ lives n (result s)
  lives-kept_free at_end free = refl
  lives-kept_free (found r) free =
      ap (λ (l : List (List ℕ)). some l) (live-keep n entries r whole ∙ rw (e, free) refl)
  lives-kept_free go_on free = refl

  lives-kept_used :
      (s : Scan (List ℕ))
      → (load8 entries 0 == 0xE5) ≡ false
      → lives (suc n) (result (kept entries s)) ≡ cons (read 32 entries) (lives n (result s))
  lives-kept_used at_end used = refl
  lives-kept_used (found r) used =
      ap (λ (l : List (List ℕ)). some l) (live-keep n entries r whole ∙ rw (e, used) refl)
  lives-kept_used go_on used = refl

live-delete_mark :
    (n : ℕ) (entries : List ℕ) → live (suc n) (delete_mark entries) ≡ live n (drop 32 entries)
unfolding live
live-delete_mark n entries = ap (live n) (drop-drop 31 1 entries)

-- MarkEntryDeleted's loop over a cluster removes the first live entry of the name from the list and
-- no other, and reports when there is none. The cluster has its `n` entries.
pub mark_in-live :
    (name83 : List ℕ) (n : ℕ) (entries : List ℕ)
    → 32 * n ≤ length entries
    → lives n (result (mark_in name83 n entries)) ≡ remove_live name83 (live n entries)
unfolding mark_in live remove_live
mark_in-live name83 zero entries h = refl
mark_in-live name83 (suc n) entries h =
    let rest = mark_in-live name83 n (drop 32 entries) (omega (arith, length-drop 32 entries)) in
    let later = mark_in name83 n (drop 32 entries) in
    let whole : 32 ≤ length entries = omega arith in
    let same = match_from-read 11 0 32 entries name83 (omega arith) in
    elim (Bool-cases (load8 entries 0 == 0x00)) [
      | inl e ↦ rw e refl
      | inr e ↦ elim (Bool-cases (load8 entries 0 == 0xE5)) [
        | inl free ↦ rw (e, free) (lives-kept_free n entries whole e later free ∙ rest)
        | inr used ↦ elim (Bool-cases (names_match entries name83)) [
          | inl hit ↦
              rw (e, used, same, hit)
                (ap (λ (l : List (List ℕ)). some l) (live-delete_mark n entries))
          | inr miss ↦
              rw (e, used, same, miss)
                (lives-kept_used n entries whole e later used ∙ ap (cons (read 32 entries)) rest)
        ]
      ]
    ]
