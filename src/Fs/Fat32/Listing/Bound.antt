-- ===== src/Fs/Fat32/Listing/Bound.antt =====
-- src/fs/fat32.cpp, `ListDirectoryToBuffer`: how much a cluster adds to the caller's buffer.
use layla_os.Base.{
  ℕ, zero, suc, ◌*◌, ◌≤◌, inl, inr, Bool-cases, List, [], ◌∷◌, ◌++◌, ◌==◌, ◌!=◌, length,
  length-append, drop, arith,
}
use layla_os.Net.Wire.{load8, read}
use layla_os.Net.Wire.Read.{length-read}
use layla_os.Fs.Fat32.Listing.{
  visible, listed_name, listed_line, slash_if, is_dir, is_hidden, list_in,
}

length-visible : (cs : List ℕ) → length (visible cs) ≤ length cs
unfolding visible
length-visible [] = omega arith
length-visible (c ∷ cs) = elim (Bool-cases (c != b' ')) [
  | inl e ↦ rw e (omega (arith, length-visible cs))
  | inr e ↦ rw e (omega (arith, length-visible cs))
]

length-listed_name : (e : List ℕ) → length (listed_name e) ≤ 12
unfolding listed_name
length-listed_name e =
    let ext : length (visible (read 3 (drop 8 e))) ≤ 3 =
      omega (arith, length-visible (read 3 (drop 8 e)), length-read 3 (drop 8 e)) in
    let front : length (visible (read 8 e)) ≤ 8 =
      omega (arith, length-visible (read 8 e), length-read 8 e) in
    elim (Bool-cases (load8 e 8 != b' ')) [
      | inl dot ↦
          rw dot
            (omega (arith, length-append (visible (read 8 e)) (b'.' ∷ visible (read 3 (drop 8 e)))))
      | inr none ↦ rw none (omega (arith, length-append {A = ℕ} (visible (read 8 e)) []))
    ]

length-slash_if : (e : List ℕ) → length (slash_if (is_dir e)) ≤ 1
length-slash_if e = elim (Bool-cases (is_dir e)) [
  | inl d ↦ rw d (omega arith)
  | inr d ↦ rw d (omega arith)
]

length-listed_line : (e : List ℕ) → length (listed_line e) ≤ 14
unfolding listed_line
length-listed_line e = omega (
  arith,
  length-append (listed_name e) (slash_if (is_dir e) ++ (10 ∷ [])),
  length-append (slash_if (is_dir e)) (10 ∷ []),
  length-listed_name e,
  length-slash_if e,
)

-- ListDirectoryToBuffer, which has no bound of its own, stores at most 14 characters for each entry
-- of a cluster.
pub length-list_in : (n : ℕ) (entries : List ℕ) → length (list_in n entries).0 ≤ 14 * n
unfolding list_in
length-list_in zero entries = omega arith
length-list_in (suc n) entries =
    let rest = length-list_in n (drop 32 entries) in
    elim (Bool-cases (load8 entries 0 == 0x00)) [
      | inl e ↦ rw e (omega arith)
      | inr e ↦ elim (Bool-cases (is_hidden entries)) [
        | inl hidden ↦ rw (e, hidden) (omega arith)
        | inr seen ↦
            rw (e, seen)
              (omega (
                arith,
                length-append (listed_line entries) (list_in n (drop 32 entries)).0,
                length-listed_line entries,
              ))
      ]
    ]
