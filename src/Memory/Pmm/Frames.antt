-- ===== src/Memory/Pmm/Frames.antt =====
-- `AllocFrame` and `FreeFrame`: what they do to the frames and to the counter.
use layla_os.Base.{
  ℕ, ◌+◌, ◌-◌, ◌*◌, ◌/◌, ◌^◌, ◌<◌, ◌≡◌, ◌≢◌, ◌⊎◌, inl, inr, refl, List, length, length-set, arith,
  Option, none, some, sym, ◌∙◌, ℕ_discrete,
}
use layla_os.Memory.Pmm.{Pmm, set_bit, clear_bit, first_free, alloc_frame, free_frame, count_down}
use layla_os.Memory.Pmm.Bitmap.{
  used, used-set_bit_self, used-set_bit_ne, used-clear_bit_self, used-clear_bit_ne,
  set_bit-AreWords, clear_bit-AreWords,
}
use layla_os.Memory.Pmm.Search.{AllUsed, Found, first_free_lem}
use layla_os.Memory.Pmm.Count.{
  IsValid, free_count, free_count-le, free_count-set_bit, free_count-clear_bit, free_count-AllUsed,
}

pub length-set_bit : (bm : List ℕ) (f : ℕ) → length (set_bit bm f) ≡ length bm
unfolding set_bit
length-set_bit bm f = length-set bm (f / 32) _

pub length-clear_bit : (bm : List ℕ) (f : ℕ) → length (clear_bit bm f) ≡ length bm
unfolding clear_bit
length-clear_bit bm f = length-set bm (f / 32) _

-- The frame `f` and no other changes to `state`.
pub record Changes (f state : ℕ) (before after : List ℕ) : Type 0 where
  pub there : used after f ≡ state
  pub elsewhere : (g : ℕ) → f ≢ g → used after g ≡ used before g

-- The two outcomes of an allocation.
pub record Granted (p : Pmm) (r : ℕ × Pmm) (f : ℕ) : Type 0 where
  pub in_range : f < p.total_frames
  pub was_free : used p.bitmap f ≡ 0
  pub lowest : AllUsed p.bitmap p.total_frames 0 f
  pub address : r.0 ≡ f * 4096
  pub taken : Changes f 1 p.bitmap r.1.bitmap
  pub counted : r.1.free_frames + 1 ≡ p.free_frames

pub record Refused (p : Pmm) (r : ℕ × Pmm) : Type 0 where
  pub full : AllUsed p.bitmap p.total_frames 0 p.total_frames
  pub counted : p.free_frames ≡ 0
  pub same : r ≡ (0, p)

set_bit-Changes :
    (p : Pmm) (f : ℕ) → f / 32 < length p.bitmap → Changes f 1 p.bitmap (set_bit p.bitmap f)
set_bit-Changes p f h = record {
  there = used-set_bit_self p.bitmap f h;
  elsewhere = used-set_bit_ne p.bitmap f;
}

-- Below the limit on memory, the counter and the addresses do not wrap.
granted-counted :
    (p : Pmm) (f : ℕ)
    → IsValid p
    → f < p.total_frames
    → used p.bitmap f ≡ 0
    → (count_down p.free_frames + 1 ≡ p.free_frames)
      × (count_down p.free_frames ≡ free_count (set_bit p.bitmap f) p.total_frames)
granted-counted p f v h u =
    let c = free_count-set_bit p.bitmap f p.total_frames (omega arith) h in ground (arith, c)

alloc_outcome :
    (p : Pmm) (o : Option ℕ)
    → IsValid p
    → first_free p ≡ o
    → Found p.bitmap p.total_frames 0 p.total_frames o
    → Refused p (alloc_frame p) ⊎ ((f : ℕ) × Granted p (alloc_frame p) f)
unfolding alloc_frame
alloc_outcome p none v e r = inl (record {
  full = r;
  counted = v.counted ∙ free_count-AllUsed p.bitmap p.total_frames p.total_frames (omega arith) r;
  same = rw (e, alloc_frame);
})
alloc_outcome p (some f) v e r = inr (
  f,
  rw (e, alloc_frame)
      (record {
        in_range = r.2;
        was_free = r.3;
        lowest = r.4;
        address = omega (arith, r.2);
        taken = set_bit-Changes p f (omega (arith, r.2));
        counted = (granted-counted p f v r.2 r.3).0;
      }),
)

-- `AllocFrame` on a valid manager takes the lowest free frame, returns its address, marks it used
-- and no other, and counts it; or every frame is used, the counter is 0, and it returns 0 and
-- changes nothing.
pub alloc_frame_lem :
    (p : Pmm) → IsValid p → Refused p (alloc_frame p) ⊎ ((f : ℕ) × Granted p (alloc_frame p) f)
alloc_frame_lem p v = alloc_outcome p (first_free p) v refl (first_free_lem p v.words v.small)

alloc-IsValid :
    (p : Pmm) (o : Option ℕ)
    → IsValid p
    → first_free p ≡ o
    → Found p.bitmap p.total_frames 0 p.total_frames o
    → IsValid (alloc_frame p).1
unfolding alloc_frame
alloc-IsValid p none v e r = rw (e, alloc_frame) v
alloc-IsValid p (some f) v e r =
    rw (e, alloc_frame)
      (record {
        words = set_bit-AreWords p.bitmap f v.words;
        small = v.small;
        fits = omega (arith, v.fits, length-set_bit p.bitmap f);
        counted = (granted-counted p f v r.2 r.3).1;
      })

-- `AllocFrame` keeps the invariant.
pub alloc_frame-IsValid : (p : Pmm) → IsValid p → IsValid (alloc_frame p).1
alloc_frame-IsValid p v = alloc-IsValid p (first_free p) v refl (first_free_lem p v.words v.small)

-- `FreeFrame` of a used frame makes it free and no other, counts it, and keeps the invariant.
pub free_frame_lem :
    (p : Pmm) (f : ℕ)
    → IsValid p
    → f < p.total_frames
    → used p.bitmap f ≡ 1
    → IsValid (free_frame p (f * 4096)) × Changes f 0 p.bitmap (free_frame p (f * 4096)).bitmap
unfolding free_frame
free_frame_lem p f v h u =
    let frame : f * 4096 / 4096 ≡ f = omega arith in
    rw frame (
      record {
        words = clear_bit-AreWords p.bitmap f v.words;
        small = v.small;
        fits = omega (arith, v.fits, length-clear_bit p.bitmap f);
        counted = omega (
          arith,
          v.counted,
          free_count-clear_bit p.bitmap f p.total_frames (omega arith) h,
          free_count-le p.bitmap p.total_frames,
        );
      },
      record {
        there = used-clear_bit_self p.bitmap f (omega arith);
        elsewhere = used-clear_bit_ne p.bitmap f;
      },
    )

pub total_frames-alloc_frame : (p : Pmm) → (alloc_frame p).1.total_frames ≡ p.total_frames
unfolding alloc_frame
total_frames-alloc_frame p = ground arith

free_frames-free_frame :
    (p : Pmm) (addr : ℕ)
    → p.free_frames < 2 ^ 32 - 1
    → (free_frame p addr).free_frames ≡ p.free_frames + 1
unfolding free_frame
free_frames-free_frame p addr h = omega arith

Changes-back :
    (f : ℕ) (a b c : List ℕ)
    → used a f ≡ 0
    → Changes f 1 a b
    → Changes f 0 b c
    → (g : ℕ) → used c g ≡ used a g
Changes-back f a b c u x y g = elim (ℕ_discrete f g) [
  | yes e ↦ rw (← e) (y.there ∙ sym u)
  | no ne ↦ y.elsewhere g ne ∙ x.elsewhere g ne
]

free_again :
    (p : Pmm) (f : ℕ)
    → IsValid p
    → Granted p (alloc_frame p) f
    → let q = free_frame (alloc_frame p).1 (alloc_frame p).0 in
      ((g : ℕ) → used q.bitmap g ≡ used p.bitmap g) × (q.free_frames ≡ p.free_frames)
free_again p f v g =
    let back =
      free_frame_lem (alloc_frame p).1 f (alloc_frame-IsValid p v)
        (omega (arith, total_frames-alloc_frame p)) g.taken.there in
    rw g.address (
      Changes-back f _ _ _ g.was_free g.taken back.1,
      omega (
        arith,
        free_frames-free_frame (alloc_frame p).1 (f * 4096),
        v.counted,
        free_count-le p.bitmap p.total_frames,
      ),
    )

-- While a frame is free, an allocation whose address is freed again leaves every frame and the
-- counter as they were.
pub free_frame-alloc_frame :
    (p : Pmm)
    → IsValid p
    → p.free_frames ≢ 0
    → let q = free_frame (alloc_frame p).1 (alloc_frame p).0 in
      ((g : ℕ) → used q.bitmap g ≡ used p.bitmap g) × (q.free_frames ≡ p.free_frames)
free_frame-alloc_frame p v some_free = elim (alloc_frame_lem p v) [
  | inl r ↦ absurd (some_free r.counted)
  | inr (f, g) ↦ free_again p f v g
]

-- Freeing a frame that is already free counts it twice: the counter then exceeds the number of
-- free frames.
pub free_frame_twice :
    (p : Pmm) (f : ℕ)
    → IsValid p
    → f < p.total_frames
    → used p.bitmap f ≡ 0
    → let q = free_frame p (f * 4096) in q.free_frames ≡ free_count q.bitmap q.total_frames + 1
unfolding free_frame
free_frame_twice p f v h u =
    let frame : f * 4096 / 4096 ≡ f = omega arith in
    rw frame (
      omega (
        arith,
        v.counted,
        free_count-clear_bit p.bitmap f p.total_frames (omega arith) h,
        free_count-le p.bitmap p.total_frames,
      ))
