-- ===== src/Fs/Fat32/File/Loop.antt =====
-- src/fs/fat32.cpp, `WriteClusterChain`: a file that is written is read back.
use layla_os.Base.{
  ℕ, zero, suc, ◌+◌, ◌-◌, ◌*◌, ◌^◌, ◌<◌, ◌≤◌, ◌≡◌, ◌≢◌, refl, sym, ap, ap₂, ◌∙◌, ◌⊎◌, subst, inl,
  inr, Bool, true, false, List, ◌++◌, length, length-append, drop, drop-drop, replicate, append-nil,
  ltb, ◌==◌, if◌then◌else◌, add32, dec_lt, arith,
}
use layla_os.Net.Wire.{read}
use layla_os.Net.Wire.Read.{length-read, read-append, read-add, read-add-append}
use layla_os.Fs.Disk.{Disk, Cmd, ok, pure, ◌>>=◌, ◌&&&◌, bind-ok}
use layla_os.Fs.Fat32.{Fat32, buf_size, entry_mask, next_cluster, write_cluster, set_fat_entry}
use layla_os.Fs.Fat32.Cluster.Place.{
  IsSound, IsGeometry, IsData, Keeps, contents, write_cluster-Keeps, set_fat_entry-Keeps,
}
use layla_os.Fs.Fat32.File.{to_write, chunk, extend_chain, write_loop}
use layla_os.Fs.Fat32.File.Chain.{Holds, last, link}
use layla_os.Fs.Fat32.File.Written.{
  Spares, Spares-Keeps, NoneFree, Extends, extend_chain_lem, length-chunk, to_write-le,
  buf_size_lem,
}

module _ (fs : Fat32) (geo : IsGeometry fs) (buf : List ℕ) (size : ℕ) (word : size < 2 ^ 32) where
  -- The rest of the file from `written` on stands in the chain from a cluster.
  pub record Wrote (d : Disk) (c written : ℕ) (d' : Disk) : Type 0 where
    pub clusters : ℕ
    pub bytes : List ℕ
    pub holds : Holds fs geo d' c clusters bytes
    pub prefix : read (size - written) bytes ≡ read (size - written) (drop written buf)
    pub enough : size - written ≤ length bytes
    pub few : clusters ≤ size - written
    pub fewest : clusters * fs.cluster_size < size - written + fs.cluster_size
    pub spares : Spares fs geo d c d'

  abbrev pub Answers : Cmd Bool → Disk → ℕ → ℕ → Type 0
  Answers m d c written =
      (d' : Disk) × ((m d ≡ ok false d') × NoneFree fs geo d' × Spares fs geo d c d'
        ⊎ (m d ≡ ok true d') × Wrote d c written d')

  -- What a round does after it has written the cluster.
  abbrev after : ℕ → ℕ → ℕ → Cmd Bool
  after fuel c written' =
      if ltb written' size
      then (extend_chain fs c >>= λ next.
          if next == 0 then pure false else write_loop fs fuel next buf size written')
      else set_fat_entry fs c entry_mask &&& write_loop fs fuel c buf size written'

  abbrev moved : ℕ → ℕ
  moved written = written + to_write fs size written

  round :
      (fuel c written : ℕ) (d d1 : Disk)
      → written < size
      → write_cluster fs c (chunk fs buf size written) d ≡ ok true d1
      → write_loop fs (suc fuel) c buf size written d ≡ after fuel c (moved written) d1
  unfolding write_loop
  round fuel c written d d1 more eq =
      let going : ltb written size ≡ true = ground arith in
      let small : add32 written (to_write fs size written) ≡ moved written = ground arith in
      rw (going, small)
        (bind-ok (write_cluster fs c (chunk fs buf size written))
          (λ b. if b then after fuel c (moved written) else pure false) d d1 true eq)

  write_loop_done :
      (fuel c w : ℕ) (d : Disk) → size ≤ w → write_loop fs (suc fuel) c buf size w d ≡ ok true d
  unfolding write_loop
  write_loop_done fuel c w d h = let stop : ltb w size ≡ false = ground arith in rw stop refl

  -- The last round.
  finish :
      (fuel c written : ℕ) (d d1 : Disk)
      → IsData fs geo c
      → written < size
      → size ≤ moved written
      → Keeps fs geo d c d1
      → contents fs geo d1 c ≡ chunk fs buf size written
      → (d' : Disk) × (after (suc fuel) c (moved written) d1 ≡ ok true d') × Wrote d c written d'
  finish fuel c written d d1 inside more done kept full =
      let (d2, eq, ended, kept2, same) =
        set_fat_entry-Keeps fs geo d1 c entry_mask kept.sound inside in
      let stop : ltb (moved written) size ≡ false = ground arith in
      let rest : to_write fs size written ≡ size - written = ground arith in
      let tail = drop written buf in
      let n = to_write fs size written in
      (
        d2,
        rw stop (
            bind-ok (set_fat_entry fs c entry_mask)
              (λ b. if b then write_loop fs (suc fuel) c buf size (moved written) else pure false)
              d1 d2 true eq
            ∙ write_loop_done fuel c (moved written) d2 done),
        record {
          clusters = 1;
          bytes = contents fs geo d2 c;
          holds = last c inside (omega (arith, ended));
          prefix =
              ap (read (size - written)) (same ∙ full)
              ∙ read-append (size - written) (read n tail) (replicate (buf_size fs - n) 0)
                  (length-read n tail ∙ rest)
              ∙ ap (λ (k : ℕ). read k tail) rest;
          enough = omega (
            arith,
            ap length (same ∙ full),
            length-chunk fs geo buf size written,
            rest,
            to_write-le fs geo size written,
            buf_size_lem fs geo,
          );
          few = omega arith;
          fewest = omega arith;
          spares = record {
            sound = kept2.sound;
            entries = λ k kd other used. kept2.entries k kd other ∙ kept.entries k kd other;
            bytes = λ k kd other used. kept2.bytes k kd other ∙ kept.bytes k kd other;
          };
        },
      )

  -- What a round and the rounds after it spare.
  spared :
      (c next : ℕ) (d d1 d2 d' : Disk)
      → Keeps fs geo d c d1
      → Extends fs geo d1 c next d2
      → Spares fs geo d2 next d'
      → Spares fs geo d c d'
  spared c next d d1 d2 d' kept ext sp =
      let taken : (k : ℕ) → k ≢ c → IsData fs geo k → next_cluster fs d k ≢ 0 → k ≢ next =
        λ k other kd busy e.
          busy (sym (kept.entries k kd other) ∙ ap (next_cluster fs d1) e ∙ ext.free) in
      let busy1 : (k : ℕ)
          → k ≢ c
          → IsData fs geo k
          → next_cluster fs d k ≢ 0
          → next_cluster fs d1 k ≢ 0 =
        λ k other kd busy z. busy (sym (kept.entries k kd other) ∙ z) in
      let busy2 : (k : ℕ)
          → k ≢ c
          → IsData fs geo k
          → next_cluster fs d k ≢ 0
          → next_cluster fs d2 k ≢ 0 =
        λ k other kd busy z.
          busy1 k other kd busy (sym (ext.spares.entries k kd other (busy1 k other kd busy)) ∙ z) in
      record {
        sound = sp.sound;
        entries = λ k kd other busy.
            sp.entries k kd (taken k other kd busy) (busy2 k other kd busy)
            ∙ ext.spares.entries k kd other (busy1 k other kd busy)
            ∙ kept.entries k kd other;
        bytes = λ k kd other busy.
            sp.bytes k kd (taken k other kd busy) (busy2 k other kd busy)
            ∙ ext.spares.bytes k kd other (busy1 k other kd busy)
            ∙ kept.bytes k kd other;
      }

  -- A round that links a new cluster, after which the rest is written from there.
  continue :
      (c next written : ℕ) (d d1 d2 d' : Disk)
      → IsData fs geo c
      → next_cluster fs d1 c ≢ 0
      → moved written < size
      → 3 ≤ next
      → Keeps fs geo d c d1
      → contents fs geo d1 c ≡ chunk fs buf size written
      → Extends fs geo d1 c next d2
      → Wrote d2 next (moved written) d'
      → Wrote d c written d'
  continue c next written d d1 d2 d' inside used more high kept full ext w =
      let whole : to_write fs size written ≡ fs.cluster_size =
        ground (arith, buf_size_lem fs geo) in
      let n = to_write fs size written in
      let tail = drop written buf in
      let r = size - moved written in
      let apart : c ≢ next = λ e. used (ap (next_cluster fs d1) e ∙ ext.free) in
      let linked : next_cluster fs d2 c ≢ 0 = λ z. absurd (omega (arith, ext.linked)) in
      let stays : contents fs geo d' c ≡ chunk fs buf size written =
        w.spares.bytes c inside apart linked ∙ ext.same ∙ full in
      let chunk_eq : chunk fs buf size written ≡ read fs.cluster_size tail =
        ap (λ (k : ℕ). read k tail ++ replicate (buf_size fs - k) 0) whole
        ∙ ap (λ (m : ℕ). read fs.cluster_size tail ++ replicate m 0)
            {x = buf_size fs - fs.cluster_size} {y = 0} (omega (arith, buf_size_lem fs geo))
        ∙ append-nil (read fs.cluster_size tail) in
      record {
        clusters = suc w.clusters;
        bytes = contents fs geo d' c ++ w.bytes;
        holds = link c w.clusters w.bytes inside (
            subst (λ k. Holds fs geo d' k w.clusters w.bytes)
              (sym (w.spares.entries c inside apart linked ∙ ext.linked)) w.holds);
        prefix =
            ap (λ (k : ℕ). read k (contents fs geo d' c ++ w.bytes)) {x = size - written}
              {y = fs.cluster_size + r} (omega arith)
            ∙ read-add-append fs.cluster_size r (contents fs geo d' c) w.bytes
                (ap length stays ∙ length-chunk fs geo buf size written)
            ∙ ap₂ (λ (x y : List ℕ). x ++ y) (stays ∙ chunk_eq)
                (w.prefix
                  ∙ ap (read r) (
                      ap (λ (k : ℕ). drop k buf) {x = moved written} {y = written + fs.cluster_size}
                        (omega arith)
                      ∙ sym (drop-drop fs.cluster_size written buf)))
            ∙ sym (read-add fs.cluster_size r tail)
            ∙ ap (λ (k : ℕ). read k tail) {x = fs.cluster_size + r} {y = size - written}
                (omega arith);
        enough = omega (
          arith,
          length-append (contents fs geo d' c) w.bytes,
          ap length stays,
          length-chunk fs geo buf size written,
          w.enough,
          whole,
        );
        few = omega (arith, w.few, whole, geo.bytes, geo.sectors);
        fewest = omega (arith, w.fewest);
        spares = spared c next d d1 d2 d' kept ext w.spares;
      }

  progress : (written : ℕ) → written < size → written < moved written
  progress written more = ground (arith, buf_size_lem fs geo, geo.bytes, geo.sectors)

  stuck :
      (fuel c w : ℕ) (d : Disk)
      → w < size
      → extend_chain fs c d ≡ ok 0 d
      → after fuel c w d ≡ ok false d
  stuck fuel c w d more eq =
      let going : ltb w size ≡ true = ground arith in
      rw going (
        bind-ok (extend_chain fs c)
          (λ next. if next == 0 then pure false else write_loop fs fuel next buf size w) d d 0 eq)

  goes_on :
      (fuel c w next : ℕ) (d d' : Disk)
      → w < size
      → 3 ≤ next
      → extend_chain fs c d ≡ ok next d'
      → after fuel c w d ≡ write_loop fs fuel next buf size w d'
  goes_on fuel c w next d d' more high eq =
      let going : ltb w size ≡ true = ground arith in
      let linked : (next == 0) ≡ false = ground arith in
      rw going (
        bind-ok (extend_chain fs c)
          (λ next. if next == 0 then pure false else write_loop fs fuel next buf size w) d d' next
          eq
        ∙ rw linked refl)

  -- The loop of WriteClusterChain ends: no cluster is free any more, or the rest of the file stands in a
  -- chain from the given cluster and no other cluster in use has changed.
  pub write_loop-Wrote :
      (fuel c written : ℕ) (d : Disk)
      → IsSound d
      → IsData fs geo c
      → next_cluster fs d c ≢ 0
      → written < size
      → size - written < fuel
      → Answers (write_loop fs fuel c buf size written) d c written
  write_loop-Wrote zero c written d s inside used more f = absurd (omega arith)
  write_loop-Wrote (suc zero) c written d s inside used more f = absurd (omega arith)
  write_loop-Wrote (suc (suc fuel)) c written d s inside used more f =
      let (d1, eq1, full, kept, same_next) =
        write_cluster-Keeps fs geo d c (chunk fs buf size written) s inside
          (length-chunk fs geo buf size written) in
      let first = round (suc fuel) c written d d1 more eq1 in
      let used1 : next_cluster fs d1 c ≢ 0 = λ z. used (sym same_next ∙ z) in
      elim (dec_lt (moved written) size) [
        | no done ↦
            let (d', eq, w) = finish fuel c written d d1 inside more (omega arith) kept full in
            (d', inr (first ∙ eq, w))
        | yes more' ↦ elim (extend_chain_lem fs geo d1 c kept.sound inside used1) [
          | inl none_free ↦ (
            d1,
            inl (
              first ∙ stuck (suc fuel) c (moved written) d1 more' none_free.0,
              none_free.1,
              Spares-Keeps fs geo kept,
            ),
          )
          | inr (next, d2, high, eq2, ext) ↦
              let onward = goes_on (suc fuel) c (moved written) next d1 d2 more' high eq2 in
              let (d', outcome) =
                write_loop-Wrote (suc fuel) next (moved written) d2 ext.spares.sound ext.inside
                  (λ z. absurd (omega (arith, ext.ended))) more'
                  (omega (arith, progress written more)) in
              elim outcome [
                | inl (e, none_free, sp) ↦
                    (d', inl (first ∙ onward ∙ e, none_free, spared c next d d1 d2 d' kept ext sp))
                | inr (e, w) ↦ (
                  d',
                  inr (
                    first ∙ onward ∙ e,
                    continue c next written d d1 d2 d' inside used1 more' high kept full ext w,
                  ),
                )
              ]
        ]
      ]
