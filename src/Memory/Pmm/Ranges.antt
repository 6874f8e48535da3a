-- ===== src/Memory/Pmm/Ranges.antt =====
-- `MarkUsed` and `MarkFree`: a range of addresses becomes used, or free.
use layla_os.Base.{
  ℕ, zero, suc, ◌+◌, ◌-◌, ◌*◌, ◌/◌, ◌^◌, ◌≤◌, ◌<◌, ◌≡◌, ◌⊎◌, inl, inr, refl, arith, Bool-cases, ltb,
  add32, ◌∙◌, subst, ℕ_discrete,
}
use layla_os.Memory.Pmm.{Pmm, use_frame, release_frame, mark_from, mark_used, mark_free}
use layla_os.Memory.Pmm.Bitmap.{
  used, used-lt_two, used-set_bit_self, used-set_bit_ne, used-clear_bit_self, used-clear_bit_ne,
  test_bit_iff, set_bit-AreWords, clear_bit-AreWords,
}
use layla_os.Memory.Pmm.Count.{IsValid, free_count-le, free_count-set_bit, free_count-clear_bit}
use layla_os.Memory.Pmm.Frames.{Changes, length-set_bit, length-clear_bit}

-- What a round on frame `i` does: the frame gets `state`, and the invariant is kept.
abbrev Round : ℕ → (Pmm → ℕ → Pmm) → Type 0
Round state body =
    (p : Pmm) (i : ℕ)
    → IsValid p
    → i < p.total_frames
    → IsValid (body p i)
      × ((body p i).total_frames ≡ p.total_frames)
      × Changes i state p.bitmap (body p i).bitmap

use_frame-Round : Round 1 use_frame
unfolding use_frame
use_frame-Round p i v h = (
  record {
    words = set_bit-AreWords p.bitmap i v.words;
    small = v.small;
    fits = omega (arith, v.fits, length-set_bit p.bitmap i);
    counted = ground (
      arith,
      v.counted,
      test_bit_iff p.bitmap i,
      used-lt_two p.bitmap i,
      free_count-set_bit p.bitmap i p.total_frames (omega arith) h,
    );
  },
  refl,
  record {
    there = used-set_bit_self p.bitmap i (omega arith);
    elsewhere = used-set_bit_ne p.bitmap i;
  },
)

release_frame-Round : Round 0 release_frame
unfolding release_frame
release_frame-Round p i v h = (
  record {
    words = clear_bit-AreWords p.bitmap i v.words;
    small = v.small;
    fits = omega (arith, v.fits, length-clear_bit p.bitmap i);
    counted = ground (
      arith,
      v.counted,
      test_bit_iff p.bitmap i,
      used-lt_two p.bitmap i,
      free_count-le p.bitmap p.total_frames,
      free_count-clear_bit p.bitmap i p.total_frames (omega arith) h,
    );
  },
  refl,
  record {
    there = used-clear_bit_self p.bitmap i (omega arith);
    elsewhere = used-clear_bit_ne p.bitmap i;
  },
)

-- What a loop over the frames from `lo` to `hi` has done.
pub record Marked (state lo hi : ℕ) (p q : Pmm) : Type 0 where
  pub valid : IsValid q
  pub total : q.total_frames ≡ p.total_frames
  pub inside : (g : ℕ) → lo ≤ g → g < hi → g < p.total_frames → used q.bitmap g ≡ state
  pub outside : (g : ℕ) → (g < lo) ⊎ (hi ≤ g) → used q.bitmap g ≡ used p.bitmap g

Marked-next :
    (state i n : ℕ) (p q r : Pmm)
    → q.total_frames ≡ p.total_frames
    → Changes i state p.bitmap q.bitmap
    → Marked state (i + 1) (i + 1 + n) q r
    → Marked state i (i + suc n) p r
Marked-next state i n p q r t c m = record {
  valid = m.valid;
  total = m.total ∙ t;
  inside = λ g l u h. elim (ℕ_discrete i g) [
    | yes e ↦ m.outside g (inl (omega arith)) ∙ subst (λ k. used q.bitmap k ≡ state) e c.there
    | no ne ↦ m.inside g (omega arith) (omega arith) (omega arith)
  ];
  outside = λ g o. elim o [
    | inl below ↦ m.outside g (inl (omega arith)) ∙ c.elsewhere g (omega arith)
    | inr above ↦ m.outside g (inr (omega arith)) ∙ c.elsewhere g (omega arith)
  ];
}

mark_from-Marked :
    (state : ℕ) (body : Pmm → ℕ → Pmm) (p : Pmm) (i n : ℕ)
    → Round state body
    → IsValid p
    → Marked state i (i + n) p (mark_from body p i n)
unfolding mark_from
mark_from-Marked state body p i zero round v = record {
  valid = v;
  total = refl;
  inside = λ g l u h. absurd (omega arith);
  outside = λ g o. refl;
}
mark_from-Marked state body p i (suc n) round v = elim (Bool-cases (ltb i p.total_frames)) [
  | inl more ↦ rw more (
      Marked-next state i n p (body p i) _ (round p i v (ground arith)).1
        (round p i v (ground arith)).2
        (mark_from-Marked state body (body p i) (i + 1) n round (round p i v (ground arith)).0))
  | inr done ↦ rw done (record {
    valid = v;
    total = refl;
    inside = λ g l u h. absurd (ground arith);
    outside = λ g o. refl;
  })
]

-- `MarkUsed` makes every frame that the range `[addr, addr + len)` touches used, and leaves the
-- frames that it does not touch.
pub mark_used_lem :
    (p : Pmm) (addr len : ℕ)
    → IsValid p
    → 0 < len
    → addr + len + 4095 < 2 ^ 32
    → let q = mark_used p addr len in
      IsValid q
      × ((g : ℕ)
          → g < p.total_frames
          → addr < (g + 1) * 4096
          → g * 4096 < addr + len
          → used q.bitmap g ≡ 1)
      × ((g : ℕ)
          → ((g + 1) * 4096 ≤ addr) ⊎ (addr + len ≤ g * 4096)
          → used q.bitmap g ≡ used p.bitmap g)
unfolding mark_used
mark_used_lem p addr len v pos h =
    let first = addr / 4096 in
    let n = add32 (add32 addr len) 4095 / 4096 - first in
    let m = mark_from-Marked 1 use_frame p first n use_frame-Round v in
    (
      m.valid,
      λ g t l u. m.inside g (omega arith) (omega arith) t,
      λ g o. elim o [
        | inl below ↦ m.outside g (inl (omega arith))
        | inr above ↦ m.outside g (inr (omega arith))
      ],
    )

-- `MarkFree` frees every frame that ends in `[addr, addr + len)` and is not before `addr` as a whole
-- (so also the frame that `addr` lies inside of), and leaves the other frames.
pub mark_free_lem :
    (p : Pmm) (addr len : ℕ)
    → IsValid p
    → addr + len < 2 ^ 32
    → let q = mark_free p addr len in
      IsValid q
      × ((g : ℕ)
          → g < p.total_frames
          → addr < (g + 1) * 4096
          → (g + 1) * 4096 ≤ addr + len
          → used q.bitmap g ≡ 0)
      × ((g : ℕ)
          → ((g + 1) * 4096 ≤ addr) ⊎ (addr + len < (g + 1) * 4096)
          → used q.bitmap g ≡ used p.bitmap g)
unfolding mark_free
mark_free_lem p addr len v h =
    let first = addr / 4096 in
    let n = add32 addr len / 4096 - first in
    let m = mark_from-Marked 0 release_frame p first n release_frame-Round v in
    (
      m.valid,
      λ g t l u. m.inside g (omega arith) (omega arith) t,
      λ g o. elim o [
        | inl below ↦ m.outside g (inl (omega arith))
        | inr above ↦ m.outside g (inr (omega arith))
      ],
    )
