-- ===== src/Fs/Fat32/Cluster.antt =====
-- src/fs/fat32.cpp, `WriteCluster` and `ReadCluster`: a cluster is read back as it was written.
pub mod Place
use layla_os.Base.{
  ℕ, zero, suc, ◌+◌, ◌-◌, ◌*◌, ◌/◌, ◌%◌, ◌^◌, ◌<◌, ◌≤◌, ◌≡◌, ◌≢◌, refl, sym, ap, ap₂, ◌∙◌, ◌⊎◌,
  subst, inl, inr, Bool, Bool-cases, true, false, List, [], ◌∷◌, ◌++◌, length, length-append,
  length-take, length-drop, take, drop, drop-drop, drop_all, take-append_self, drop-append,
  take_all, append_assoc, append-take-drop, leb, ◌==◌, Option, none, some, if◌then◌else◌, add32,
  ℕ_discrete, arith,
}
use layla_os.Net.Wire.{write_at}
use layla_os.Fs.Disk.{Disk, lba28, lba28-small, read28, write28, ok}
use layla_os.Fs.Fat32.{read_sectors, write_sectors, slice}
use layla_os.Fs.Fat32.Table.{put, put_self, put-other, length-put}

-- The bytes of `n` sectors.
unfoldable pub span : Disk → ℕ → ℕ → List ℕ
span d lba zero = []
span d lba (suc n) = d.sectors lba ++ span d (lba + 1) n

module _ (d : Disk) (size : (lba : ℕ) → length (d.sectors lba) ≡ 512) where
  pub length-span : (n lba : ℕ) → length (span d lba n) ≡ n * 512
  unfolding span
  length-span zero lba = refl
  length-span (suc n) lba =
      omega (
        arith,
        length-append (d.sectors lba) (span d (lba + 1) n),
        size lba,
        length-span n (lba + 1),
      )

  -- What a write at a place in range leaves before and behind it.
  write_at_lem :
      (buf : List ℕ) (i : ℕ) (bytes : List ℕ)
      → i + length bytes ≤ length buf
      → write_at buf i bytes ≡ some (take i buf ++ (bytes ++ drop (i + length bytes) buf))
  unfolding write_at
  write_at_lem buf i bytes h = ground arith

  pub read_sectors_lem :
      (n lba i : ℕ) (front back : List ℕ)
      → lba + i + n ≤ 2 ^ 28
      → ((k : ℕ) → lba + i ≤ k → k < lba + i + n → d.silent k ≡ false)
      → length front ≡ i * 512
      → n * 512 ≤ length back
      → read_sectors d n lba i (front ++ back)
        ≡ some (front ++ (span d (lba + i) n ++ drop (n * 512) back))
  unfolding read_sectors span read28
  read_sectors_lem zero lba i front back small answers hf hb = refl
  read_sectors_lem (suc n) lba i front back small answers hf hb =
      let at_i : add32 lba i ≡ lba + i = omega arith in
      let s = d.sectors (lba + i) in
      let rest = drop 512 back in
      let stored : write_at (front ++ back) (i * 512) s ≡ some ((front ++ s) ++ rest) =
        write_at_lem (front ++ back) (i * 512) s
          (omega (arith, length-append front back, size (lba + i)))
        ∙ ap (λ (l : List ℕ). some l)
            (ap₂ (λ (x y : List ℕ). x ++ (s ++ y)) (take-append_self (i * 512) front back hf)
                (ap (λ (k : ℕ). drop (i * 512 + k) (front ++ back)) (size (lba + i))
                  ∙ sym (drop-drop 512 (i * 512) (front ++ back))
                  ∙ ap (drop 512) (drop-append (i * 512) front back hf))
              ∙ sym (append_assoc front s rest)) in
      rw
        (
          read_sectors,
          read28,
          at_i,
          lba28-small (lba + i) (omega arith),
          answers (lba + i) (omega arith) (omega arith),
          stored,
        )
        (read_sectors_lem n lba (i + 1) (front ++ s) rest (omega arith)
            (λ k lo hi. answers k (omega arith) (omega arith))
            (omega (arith, length-append front s, size (lba + i)))
            (omega (arith, length-drop 512 back))
          ∙ ap (λ (l : List ℕ). some l)
              (append_assoc front s (span d (lba + (i + 1)) n ++ drop (n * 512) rest)
                ∙ ap (λ (l : List ℕ). front ++ l)
                    (ap₂ (λ (x y : List ℕ). s ++ (x ++ y))
                        (ap (λ (k : ℕ). span d k n) {x = lba + (i + 1)} {y = lba + i + 1}
                          (omega arith))
                        (drop-drop (n * 512) 512 back
                          ∙ ap (λ (k : ℕ). drop k back) {x = 512 + n * 512} {y = suc n * 512}
                              (omega arith))
                      ∙ sym (append_assoc s (span d (lba + i + 1) n) (drop (suc n * 512) back)))))

-- Two disks with the same sectors in a range.
pub span-cong :
    (d d' : Disk) (n lba : ℕ)
    → ((k : ℕ) → lba ≤ k → k < lba + n → d'.sectors k ≡ d.sectors k)
    → span d' lba n ≡ span d lba n
unfolding span
span-cong d d' zero lba h = refl
span-cong d d' (suc n) lba h =
    ap₂ (λ (x y : List ℕ). x ++ y) (h lba (omega arith) (omega arith))
      (span-cong d d' n (lba + 1) (λ k lo hi. h k (omega arith) (omega arith)))

-- The buffer stands in the sectors from `lba`, and nothing else has changed.
pub record Stores (d : Disk) (lba n : ℕ) (buffer : List ℕ) (d' : Disk) : Type 0 where
  pub stored : span d' lba n ≡ buffer
  pub others : (k : ℕ) → (k < lba) ⊎ (lba + n ≤ k) → d'.sectors k ≡ d.sectors k
  pub size : (k : ℕ) → length (d'.sectors k) ≡ 512
  pub silent : d'.silent ≡ d.silent

pub write_sectors-Stores :
    (n lba i : ℕ) (buffer : List ℕ) (d : Disk)
    → ((k : ℕ) → length (d.sectors k) ≡ 512)
    → lba + i + n ≤ 2 ^ 28
    → (i + n) * 512 ≡ length buffer
    → (d' : Disk) × (write_sectors n lba i buffer d ≡ ok true d')
      × Stores d (lba + i) n (drop (i * 512) buffer) d'
unfolding write_sectors span write28
write_sectors-Stores zero lba i buffer d size small h = (
  d,
  refl,
  record {
    stored = sym (drop_all (i * 512) buffer (omega arith));
    others = λ k out. refl;
    size = size;
    silent = refl;
  },
)
write_sectors-Stores (suc n) lba i buffer d size small h =
    let at_i : add32 lba i ≡ lba + i = omega arith in
    let fits : leb (i * 512 + 512) (length buffer) ≡ true = ground arith in
    let bytes = take 512 (drop (i * 512) buffer) in
    let d1 = put d (lba + i) bytes in
    let long : length bytes ≡ 512 =
      omega (arith, length-take 512 (drop (i * 512) buffer), length-drop (i * 512) buffer) in
    let size1 : (k : ℕ) → length (d1.sectors k) ≡ 512 = length-put d (lba + i) bytes size long in
    let step : write_sectors (suc n) lba i buffer d ≡ write_sectors n lba (i + 1) buffer d1 =
      rw (write_sectors, write28, fits, at_i, lba28-small (lba + i) (omega arith)) refl in
    let (d', eq, st) =
      write_sectors-Stores n lba (i + 1) buffer d1 size1 (omega arith) (omega arith) in
    (
      d',
      step ∙ eq,
      record {
        stored =
            ap₂ (λ (x y : List ℕ). x ++ y)
              (st.others (lba + i) (inl (omega arith)) ∙ put_self d (lba + i) bytes)
              (ap (λ (k : ℕ). span d' k n) {x = lba + i + 1} {y = lba + (i + 1)} (omega arith)
                ∙ st.stored
                ∙ ap (λ (k : ℕ). drop k buffer) {x = (i + 1) * 512} {y = i * 512 + 512}
                    (omega arith)
                ∙ sym (drop-drop 512 (i * 512) buffer))
            ∙ append-take-drop 512 (drop (i * 512) buffer);
        others = λ k out.
            st.others k (elim out [ inl l ↦ inl (omega arith) | inr g ↦ inr (omega arith) ])
            ∙ put-other d (lba + i) k bytes
                (λ e. elim out [ inl l ↦ omega arith | inr g ↦ omega arith ]);
        size = st.size;
        silent = st.silent;
      },
    )
