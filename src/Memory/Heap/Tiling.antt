-- ===== src/Memory/Heap/Tiling.antt =====
-- src/memory/memorymanagement.cpp: the chunks always tile the heap.
use layla_os.Base.{
  ℕ, ◌+◌, ◌^◌, ◌≤◌, ◌<◌, ◌≡◌, ◌≢◌, refl, sym, ap, ◌∙◌, subst, List, [], ◌∷◌, Option, none, some,
  Option-cases, Bool, true, false, ◌||◌, not, if◌then◌else◌, ltb, ◌==◌, Bool-cases, inl, inr, add32,
  sub32, arith,
}
use layla_os.Memory.Heap.Blocks.{Tiles, Holds, Tiles-le, Holds-above, free-Releases}
use layla_os.Memory.Heap.{
  header, MemoryChunk, take_chunk, malloc, merge_next, merge_prev, freed, free_after, free,
}

-- No free chunk has room for `size`.
abbrev pub IsFull : ℕ → List MemoryChunk → Type 0
IsFull size [] = Unit {0}
IsFull size (c ∷ cs) = ((c.allocated || ltb c.size size) ≡ true) × IsFull size cs

-- What an allocation promises.
abbrev pub Allocates : ℕ → ℕ → ℕ → List MemoryChunk → Option (ℕ × List MemoryChunk) → Type 0
Allocates a e size cs none = IsFull size cs
Allocates a e size cs (some r) =
    Tiles a e r.1
    × ((s : ℕ) × (size ≤ s) × Holds r.0 s r.1)
    × ((p s : ℕ) → Holds p s cs → Holds p s r.1 × (p ≢ r.0))
    × ((p s : ℕ) → p ≢ r.0 → Holds p s r.1 → Holds p s cs)

take_chunk-Allocates :
    (a e size : ℕ) (c : MemoryChunk) (cs : List MemoryChunk)
    → Tiles a e (c ∷ cs)
    → e < 2 ^ 32
    → (c.allocated || ltb c.size size) ≡ false
    → Allocates a e size (c ∷ cs) (some (add32 c.addr header, take_chunk size c cs))
unfolding take_chunk
take_chunk-Allocates a e size c cs t small fits =
    let at = t.0 in
    let end = Tiles-le (a + header + c.size) e cs t.1 in
    let room : size ≤ c.size = ground arith in
    let unused : c.allocated ≡ false = ground arith in
    let apart : (p s : ℕ) → Holds p s cs → p ≢ add32 c.addr header =
      λ p s u same. absurd (omega (arith, at, Holds-above (a + header + c.size) e p s cs t.1 u)) in
    elim (Bool-cases (ltb (add32 size header) c.size)) [
      | inl g ↦
          let more : size + header < c.size = ground arith in
          rw (take_chunk, g)
            (
              (
                at,
                (
                  omega arith,
                  subst (λ k. Tiles k e cs) {x = a + header + c.size}
                      {y = a + header + size + header + sub32 (sub32 c.size size) header}
                      (omega arith) t.1,
                ),
              ),
              (size, omega arith, inl (refl, omega arith, refl)),
              λ p s h. elim h [
                | inl u ↦ absurd (let used = u.0 in ground arith)
                | inr u ↦ (inr (inr u), apart p s u)
              ],
              λ p s ne h. elim h [
                | inl u ↦ absurd (ne (omega (arith, u.1)))
                | inr (inl u) ↦ absurd (let used = u.0 in ground arith)
                | inr (inr u) ↦ inr u
              ],
            )
      | inr g ↦
          rw (take_chunk, g)
            (
              (at, t.1),
              (c.size, room, inl (refl, omega arith, refl)),
              λ p s h. elim h [
                | inl u ↦ absurd (let used = u.0 in ground arith)
                | inr u ↦ (inr u, apart p s u)
              ],
              λ p s ne h. elim h [ inl u ↦ absurd (ne (omega (arith, u.1))) | inr u ↦ inr u ],
            )
    ]

-- An allocation on a heap below 4 GB: either every free chunk is too small, or the address returned is
-- that of a block now in use of at least the size asked for, which no block in use had before; every
-- block in use before is still there with its size, no other has come into use, and the chunks
-- still tile the heap, so that no two blocks overlap.
pub malloc-Allocates :
    (a e size : ℕ) (cs : List MemoryChunk)
    → Tiles a e cs
    → e < 2 ^ 32
    → Allocates a e size cs (malloc size cs)
unfolding malloc
malloc-Allocates a e size [] t small = tt
malloc-Allocates a e size (c ∷ cs) t small = elim (Bool-cases (c.allocated || ltb c.size size)) [
  | inr f ↦ rw (malloc, f) (take_chunk-Allocates a e size c cs t small f)
  | inl f ↦
      let ih = λ (o : Option (ℕ × List MemoryChunk)) (q : malloc size cs ≡ o).
        subst (λ k. Allocates (a + header + c.size) e size cs k) q
          (malloc-Allocates (a + header + c.size) e size cs t.1 small) in
      elim (Option-cases (malloc size cs)) [
        | inl q ↦ rw (malloc, f, q) (f, ih none q)
        | inr q ↦
            let r = ih (some q.0) q.1 in
            let above = Holds-above (a + header + c.size) e q.0.0 r.1.0 q.0.1 r.0 r.1.2 in
            rw (malloc, f, q.1)
              (
                (t.0, r.0),
                (r.1.0, r.1.1, inr r.1.2),
                λ p s h. elim h [
                  | inl u ↦ (inl u, λ same. absurd (omega (arith, t.0, u.1, above)))
                  | inr u ↦ let (kept, other) = r.2 p s u in (inr kept, other)
                ],
                λ p s ne h. elim h [ inl u ↦ inl u | inr u ↦ inr (r.3 p s ne u) ],
              )
      ]
]

-- A step that keeps the tiling and every block in use but the one at `at`.
abbrev pub Keeps : ℕ → ℕ → ℕ → List MemoryChunk → List MemoryChunk → Type 0
Keeps at a e cs cs' = Tiles a e cs' × ((p s : ℕ) → p ≢ at + header → Holds p s cs → Holds p s cs')

merge_next-Keeps :
    (at a e : ℕ) (c : MemoryChunk) (cs : List MemoryChunk)
    → Tiles a e (c ∷ cs)
    → e < 2 ^ 32
    → c.allocated ≡ false
    → Keeps at a e (c ∷ cs) (merge_next c cs)
unfolding merge_next
merge_next-Keeps at a e c [] t small unused = (t, λ p s ne h. h)
merge_next-Keeps at a e c (n ∷ cs) t small unused =
    let end = Tiles-le (a + header + c.size + header + n.size) e cs t.1.1 in
    elim (Bool-cases n.allocated) [
      | inl f ↦ rw (merge_next, f) (t, λ p s ne h. h)
      | inr f ↦
          rw (merge_next, f)
            (
              (
                t.0,
                subst (λ k. Tiles k e cs) {x = a + header + c.size + header + n.size}
                    {y = a + header + add32 c.size (add32 header n.size)} (omega arith) t.1.1,
              ),
              λ p s ne h. elim h [
                | inl u ↦ absurd (let used = u.0 in ground arith)
                | inr (inl u) ↦ absurd (let used = u.0 in ground arith)
                | inr (inr u) ↦ inr u
              ],
            )
    ]

freed-Keeps :
    (at a e : ℕ) (c : MemoryChunk) (cs : List MemoryChunk)
    → Tiles a e (c ∷ cs)
    → e < 2 ^ 32
    → c.addr ≡ at
    → Keeps at a e (c ∷ cs) (merge_next (freed c) cs)
freed-Keeps at a e c cs t small here =
    let m = merge_next-Keeps at a e (freed c) cs t small refl in
    (
      m.0,
      λ p s ne h. m.1 p s ne (elim h [
        | inl u ↦ absurd (ne (sym u.1 ∙ ap (λ (k : ℕ). k + header) here))
        | inr u ↦ inr u
      ]),
    )

merge_prev-Keeps :
    (at a e : ℕ) (q : MemoryChunk) (cs : List MemoryChunk)
    → Tiles a e (q ∷ cs)
    → e < 2 ^ 32
    → Keeps at a e (q ∷ cs) (merge_prev q cs)
unfolding merge_prev
merge_prev-Keeps at a e q cs t small = elim (Bool-cases q.allocated) [
  | inl f ↦ rw (merge_prev, f) (t, λ p s ne h. h)
  | inr f ↦
      subst (λ k. Keeps at a e (q ∷ cs) k)
        (sym (ap (λ (b : Bool). if not b then merge_next q cs else q ∷ cs) f))
        (merge_next-Keeps at a e q cs t small f)
]

free_after-Keeps :
    (at a e s0 : ℕ) (q : MemoryChunk) (cs : List MemoryChunk)
    → Tiles a e (q ∷ cs)
    → e < 2 ^ 32
    → Holds (at + header) s0 cs
    → (cs' : List MemoryChunk) × (free_after at q cs ≡ some cs') × Keeps at a e (q ∷ cs) cs'
unfolding free_after
free_after-Keeps at a e s0 q [] t small held = absurd held
free_after-Keeps at a e s0 q (c ∷ cs) t small held = elim (Bool-cases (c.addr == at)) [
  | inl f ↦
      let m = freed-Keeps at (a + header + q.size) e c cs t.1 small (ground arith) in
      let w = merge_prev-Keeps at a e q (merge_next (freed c) cs) (t.0, m.0) small in
      (
        merge_prev q (merge_next (freed c) cs),
        rw (free_after, f) refl,
        (w.0, λ p s ne h. w.1 p s ne (elim h [ inl u ↦ inl u | inr u ↦ inr (m.1 p s ne u) ])),
      )
  | inr f ↦
      let elsewhere : Holds (at + header) s0 cs = elim held [
        | inl u ↦ (let here = u.1 in absurd (ground arith))
        | inr u ↦ u
      ] in
      let rest = free_after-Keeps at (a + header + q.size) e s0 c cs t.1 small elsewhere in
      (
        q ∷ rest.0,
        rw (free_after, f, rest.1) refl,
        ((t.0, rest.2.0), λ p s ne h. elim h [ inl u ↦ inl u | inr u ↦ inr (rest.2.1 p s ne u) ]),
      )
]

free_keeps :
    (ptr a e s0 : ℕ) (cs : List MemoryChunk)
    → Tiles a e cs
    → e < 2 ^ 32
    → header ≤ ptr
    → ptr < 2 ^ 32
    → Holds ptr s0 cs
    → (cs' : List MemoryChunk) × (free ptr cs ≡ some cs')
      × Tiles a e cs'
      × ((p s : ℕ) → p ≢ ptr → Holds p s cs → Holds p s cs')
unfolding free
free_keeps ptr a e s0 [] t small low high held = absurd held
free_keeps ptr a e s0 (c ∷ cs) t small low high held =
    let at = sub32 ptr header in
    let back : at + header ≡ ptr = omega arith in
    elim (Bool-cases (c.addr == at)) [
      | inl f ↦
          let m = freed-Keeps at a e c cs t small (ground arith) in
          (
            merge_next (freed c) cs,
            rw (free, f) refl,
            m.0,
            λ p s ne h. m.1 p s (λ q. ne (q ∙ back)) h,
          )
      | inr f ↦
          let elsewhere : Holds ptr s0 cs = elim held [
            | inl u ↦ (let here = u.1 in absurd (ground arith))
            | inr u ↦ u
          ] in
          let m =
            free_after-Keeps at a e s0 c cs t small
              (subst (λ k. Holds k s0 cs) (sym back) elsewhere) in
          (m.0, rw (free, f) m.1, m.2.0, λ p s ne h. m.2.1 p s (λ q. ne (q ∙ back)) h)
    ]

-- Freeing a block in use finds it and keeps the tiling of the heap. The blocks in use afterwards are
-- those that were in use before, at their addresses and with their sizes, less the one freed,
-- whichever of the neighbours it is merged with. The heap is below 4 GB.
pub free-Keeps :
    (ptr a e s0 : ℕ) (cs : List MemoryChunk)
    → Tiles a e cs
    → e < 2 ^ 32
    → header ≤ ptr
    → ptr < 2 ^ 32
    → Holds ptr s0 cs
    → (cs' : List MemoryChunk) × (free ptr cs ≡ some cs')
      × Tiles a e cs'
      × ((p s : ℕ) → p ≢ ptr → Holds p s cs → Holds p s cs')
      × ((p s : ℕ) → Holds p s cs' → Holds p s cs × (p ≢ ptr))
free-Keeps ptr a e s0 cs t small low high held =
    let at = sub32 ptr header in
    let back : at + header ≡ ptr = omega arith in
    let (cs', found, tiles, kept) = free_keeps ptr a e s0 cs t small low high held in
    let released =
      free-Releases at a e s0 cs cs' t (subst (λ k. Holds k s0 cs) (sym back) held) (omega arith)
        (ap (λ (k : ℕ). free k cs) back ∙ found) in
    (
      cs',
      found,
      tiles,
      kept,
      λ p s h. let (before, other) = released p s h in (before, λ e. other (e ∙ sym back)),
    )
