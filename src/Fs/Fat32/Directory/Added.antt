-- ===== src/Fs/Fat32/Directory/Added.antt =====
-- src/fs/fat32.cpp, `AddDirEntry`: a new entry in a cluster of a directory.
use layla_os.Base.{
  ℕ, zero, suc, ◌*◌, ◌≤◌, ◌≡◌, ◌≢◌, refl, sym, ap, subst, ◌∙◌, ◌⊎◌, inl, inr, Bool-cases, false,
  none, some, List, [], ◌∷◌, ◌++◌, ◌==◌, length, take, drop, drop-append, get_or-append_left,
  get_or-take, length-take, length-drop, arith,
}
use layla_os.Net.Wire.{load8, read}
use layla_os.Net.Wire.Read.{read-append}
use layla_os.Fs.Fat32.Directory.{add_in}
use layla_os.Fs.Fat32.Directory.Live.{live, live-keep}

-- Behind the end of the directory no entry is in use.
abbrev pub IsClosed : ℕ → List ℕ → Type 0
IsClosed zero entries = Unit {0}
IsClosed (suc n) entries =
    (load8 entries 0 ≡ 0 → live n (drop 32 entries) ≡ []) × IsClosed n (drop 32 entries)

-- The 32 bytes of an entry in use.
pub record IsEntry (bytes : List ℕ) : Type 0 where
  pub size : length bytes ≡ 32
  pub not_end : load8 bytes 0 ≢ 0x00
  pub not_deleted : load8 bytes 0 ≢ 0xE5

-- The list with one more entry.
pub record Adds (bytes : List ℕ) (before after : List (List ℕ)) : Type 0 where
  pub front : List (List ℕ)
  pub back : List (List ℕ)
  pub was : before ≡ front ++ back
  pub now : after ≡ front ++ (bytes ∷ back)

IsClosed-append :
    (n : ℕ) (front rest : List ℕ)
    → length front ≡ 32
    → load8 front 0 ≢ 0
    → IsClosed n rest
    → IsClosed (suc n) (front ++ rest)
IsClosed-append n front rest size used closed = (
  λ z. absurd (used (sym (get_or-append_left front rest 0 0 (omega arith)) ∙ z)),
  subst (IsClosed n) (sym (drop-append 32 front rest size)) closed,
)

module _ (bytes : List ℕ) (entry : IsEntry bytes) where
  live-new : (n : ℕ) (rest : List ℕ) → live (suc n) (bytes ++ rest) ≡ bytes ∷ live n rest
  unfolding live
  live-new n rest =
      let first = get_or-append_left bytes rest 0 0 (omega (arith, entry.size)) in
      let used0 : (load8 bytes 0 == 0x00) ≡ false = ground (arith, entry.not_end) in
      let used1 : (load8 bytes 0 == 0xE5) ≡ false = ground (arith, entry.not_deleted) in
      rw
        (
          first,
          used0,
          used1,
          drop-append 32 bytes rest entry.size,
          read-append 32 bytes rest entry.size,
        )
        refl

  -- AddDirEntry's loop over a cluster adds the entry to the list of live entries, wherever that is,
  -- and changes no other; behind the end of the directory there is still nothing. If it finds no
  -- place then every entry of the cluster is live. The cluster has its `n` entries, with none in
  -- use behind the end, and the new one begins neither with 0 nor with 0xE5.
  pub add_in-live :
      (n : ℕ) (entries : List ℕ)
      → 32 * n ≤ length entries
      → IsClosed n entries
      → (add_in bytes n entries ≡ none) × (length (live n entries) ≡ n)
        ⊎ (entries' : List ℕ) × (add_in bytes n entries ≡ some entries')
          × Adds bytes (live n entries) (live n entries')
          × IsClosed n entries'
  unfolding add_in live
  add_in-live zero entries h closed = inl (refl, refl)
  add_in-live (suc n) entries h closed =
      let rest = add_in-live n (drop 32 entries) (omega (arith, length-drop 32 entries)) closed.1 in
      let new = bytes ++ drop 32 entries in
      let closed_new : IsClosed (suc n) new =
        IsClosed-append n bytes (drop 32 entries) entry.size entry.not_end closed.1 in
      elim (Bool-cases (load8 entries 0 == 0x00)) [
        | inl e ↦ inr (
          new,
          rw e refl,
          record {
            front = [];
            back = [];
            was = rw e refl;
            now =
                live-new n (drop 32 entries)
                ∙ ap (λ (l : List (List ℕ)). bytes ∷ l) (closed.0 (ground arith));
          },
          closed_new,
        )
        | inr e ↦ elim (Bool-cases (load8 entries 0 == 0xE5)) [
          | inl free ↦ inr (
            new,
            rw (e, free) refl,
            record {
              front = [];
              back = live n (drop 32 entries);
              was = rw (e, free) refl;
              now = live-new n (drop 32 entries);
            },
            closed_new,
          )
          | inr used ↦ elim rest [
            | inl full ↦ inl (rw (e, used, full.0) refl, rw (e, used) (ap suc full.1))
            | inr (r, eq, adds, closed_r) ↦ inr (
              take 32 entries ++ r,
              rw (e, used, eq) refl,
              record {
                front = read 32 entries ∷ adds.front;
                back = adds.back;
                was = rw (e, used) (ap (λ (l : List (List ℕ)). read 32 entries ∷ l) adds.was);
                now =
                    live-keep n entries r (omega arith)
                    ∙ rw (e, used) (ap (λ (l : List (List ℕ)). read 32 entries ∷ l) adds.now);
              },
              IsClosed-append n (take 32 entries) r (omega (arith, length-take 32 entries))
                  (λ z. absurd (ground (arith, get_or-take 32 entries 0 0 (omega arith)))) closed_r,
            )
          ]
        ]
      ]
