-- ===== src/Memory/Heap/Blocks.antt =====
-- src/memory/memorymanagement.cpp: the blocks that are in use, and what a step leaves of them.
use layla_os.Base.{
  ℕ, ◌+◌, ◌^◌, ◌≤◌, ◌<◌, ◌≡◌, ◌≢◌, ◌⊎◌, refl, sym, ◌∙◌, subst, List, [], ◌∷◌, none, some,
  Option-cases, true, false, ◌==◌, Bool-cases, inl, inr, add32, sub32, arith,
}
use layla_os.Memory.Heap.{header, MemoryChunk, merge_next, merge_prev, freed, free_after, free}

-- The chunks from `a` on follow one another without a gap, up to `e`.
abbrev pub Tiles : ℕ → ℕ → List MemoryChunk → Type 0
Tiles a e [] = a ≡ e
Tiles a e (c ∷ cs) = (c.addr ≡ a) × Tiles (a + header + c.size) e cs

-- A block in use, at the address that its owner has.
abbrev pub Holds : ℕ → ℕ → List MemoryChunk → Type 0
Holds p s [] = ⊥
Holds p s (c ∷ cs) = ((c.allocated ≡ true) × (c.addr + header ≡ p) × (c.size ≡ s)) ⊎ Holds p s cs

pub Tiles-le : (a e : ℕ) (cs : List MemoryChunk) → Tiles a e cs → a ≤ e
Tiles-le a e [] t = omega arith
Tiles-le a e (c ∷ cs) t = let rest = Tiles-le (a + header + c.size) e cs t.1 in omega arith

-- A block in use lies behind a header within the heap.
pub Holds-above :
    (a e p s : ℕ) (cs : List MemoryChunk) → Tiles a e cs → Holds p s cs → a + header ≤ p
Holds-above a e p s [] t held = absurd held
Holds-above a e p s (c ∷ cs) t (inl u) = omega (arith, t.0, u.1)
Holds-above a e p s (c ∷ cs) t (inr u) =
    omega (arith, Holds-above (a + header + c.size) e p s cs t.1 u)

-- Merging a free chunk brings no block into use.
Holds-merge_next :
    (p s : ℕ) (c : MemoryChunk) (cs : List MemoryChunk)
    → c.allocated ≡ false
    → Holds p s (merge_next c cs)
    → Holds p s cs
unfolding merge_next
Holds-merge_next p s c [] unused (inl u) = absurd (let used = u.0 in ground arith)
Holds-merge_next p s c [] unused (inr u) = u
Holds-merge_next p s c (n ∷ cs) unused held = elim (Bool-cases n.allocated) [
  | inl f ↦
      let e : merge_next c (n ∷ cs) ≡ c ∷ (n ∷ cs) = simp (merge_next, f) in
      elim (subst (Holds p s) e held) [
        | inl u ↦ absurd (let used = u.0 in ground arith)
        | inr u ↦ u
      ]
  | inr f ↦
      let m : MemoryChunk = record c { size = add32 c.size (add32 header n.size) } in
      let e : merge_next c (n ∷ cs) ≡ m ∷ cs = simp (merge_next, f) in
      elim (subst (Holds p s) e held) [
        | inl u ↦ absurd (let used = u.0 in ground arith)
        | inr u ↦ inr u
      ]
]

Holds-merge_prev :
    (p s : ℕ) (q : MemoryChunk) (cs : List MemoryChunk)
    → Holds p s (merge_prev q cs)
    → Holds p s (q ∷ cs)
unfolding merge_prev
Holds-merge_prev p s q cs held = elim (Bool-cases q.allocated) [
  | inl f ↦ let e : merge_prev q cs ≡ q ∷ cs = simp (merge_prev, f) in subst (Holds p s) e held
  | inr f ↦
      let e : merge_prev q cs ≡ merge_next q cs = simp (merge_prev, f) in
      inr (Holds-merge_next p s q cs f (subst (Holds p s) e held))
]

-- The blocks in use after a step are others than the one at `at`, and were in use before.
abbrev pub Releases : ℕ → List MemoryChunk → List MemoryChunk → Type 0
Releases at cs cs' = (p s : ℕ) → Holds p s cs' → Holds p s cs × (p ≢ at + header)

-- The chunk at `at`, freed, with what follows it.
freed-Releases :
    (at a e : ℕ) (c : MemoryChunk) (cs : List MemoryChunk)
    → Tiles a e (c ∷ cs)
    → c.addr ≡ at
    → Releases at (c ∷ cs) (merge_next (freed c) cs)
freed-Releases at a e c cs t here p s held =
    let later = Holds-merge_next p s (freed c) cs refl held in
    let above = Holds-above (a + header + c.size) e p s cs t.1 later in
    (inr later, λ same. absurd (omega (arith, t.0)))

-- A step that leaves the first chunk releases what it releases behind it.
behind :
    (at a e s0 : ℕ) (q : MemoryChunk) (cs cs' : List MemoryChunk)
    → Tiles a e (q ∷ cs)
    → Holds (at + header) s0 cs
    → Releases at cs cs'
    → Releases at (q ∷ cs) (q ∷ cs')
behind at a e s0 q cs cs' t held back p s (inl u) =
    let above = Holds-above (a + header + q.size) e (at + header) s0 cs t.1 held in
    (inl u, λ same. absurd (omega (arith, t.0, u.1)))
behind at a e s0 q cs cs' t held back p s (inr u) =
    let (before, other) = back p s u in (inr before, other)

free_after-Releases :
    (at a e s0 : ℕ) (q : MemoryChunk) (cs cs' : List MemoryChunk)
    → Tiles a e (q ∷ cs)
    → Holds (at + header) s0 cs
    → free_after at q cs ≡ some cs'
    → Releases at (q ∷ cs) cs'
unfolding free_after
free_after-Releases at a e s0 q [] cs' t held eq = absurd held
free_after-Releases at a e s0 q (c ∷ cs) cs' t held eq = elim (Bool-cases (c.addr == at)) [
  | inl f ↦
      let freed_here = freed-Releases at (a + header + q.size) e c cs t.1 (ground arith) in
      let is : free_after at q (c ∷ cs) ≡ some (merge_prev q (merge_next (freed c) cs)) =
        simp (free_after, f) in
      let same : merge_prev q (merge_next (freed c) cs) ≡ cs' = cc in
      λ p s after.
        behind at a e s0 q (c ∷ cs) (merge_next (freed c) cs) t held freed_here p s
          (Holds-merge_prev p s q (merge_next (freed c) cs) (subst (Holds p s) (sym same) after))
  | inr f ↦
      let elsewhere : Holds (at + header) s0 cs = elim held [
        | inl u ↦ (let here = u.1 in absurd (ground arith))
        | inr u ↦ u
      ] in
      elim (Option-cases (free_after at c cs)) [
        | inl lost ↦
            let is : free_after at q (c ∷ cs) ≡ none = simp (free_after, f, lost) in absurd (cc)
        | inr (r, found) ↦
            let is : free_after at q (c ∷ cs) ≡ some (q ∷ r) = simp (free_after, f, found) in
            let same : q ∷ r ≡ cs' = cc in
            let rest =
              free_after-Releases at (a + header + q.size) e s0 c cs r t.1 elsewhere found in
            subst (Releases at (q ∷ (c ∷ cs))) same (behind at a e s0 q (c ∷ cs) r t held rest)
      ]
]

-- The blocks in use after `free` are others than the one freed, and were in use before.
pub free-Releases :
    (at a e s0 : ℕ) (cs cs' : List MemoryChunk)
    → Tiles a e cs
    → Holds (at + header) s0 cs
    → at + header < 2 ^ 32
    → free (at + header) cs ≡ some cs'
    → Releases at cs cs'
unfolding free
free-Releases at a e s0 [] cs' t held small eq = absurd held
free-Releases at a e s0 (c ∷ cs) cs' t held small eq =
    let back : sub32 (at + header) header ≡ at = omega arith in
    elim (Bool-cases (c.addr == at)) [
      | inl f ↦
          let is : free (at + header) (c ∷ cs) ≡ some (merge_next (freed c) cs) =
            simp (free, back, f) in
          let same : merge_next (freed c) cs ≡ cs' = cc in
          subst (Releases at (c ∷ cs)) same (freed-Releases at a e c cs t (ground arith))
      | inr f ↦
          let elsewhere : Holds (at + header) s0 cs = elim held [
            | inl u ↦ (let here = u.1 in absurd (ground arith))
            | inr u ↦ u
          ] in
          let is : free (at + header) (c ∷ cs) ≡ free_after at c cs = simp (free, back, f) in
          free_after-Releases at a e s0 c cs cs' t elsewhere (sym is ∙ eq)
    ]
