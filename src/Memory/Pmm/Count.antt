-- ===== src/Memory/Pmm/Count.antt =====
-- The counter of free frames against the digits of the bitmap, and the invariant of the manager.
use layla_os.Base.{
  ℕ, zero, suc, ◌+◌, ◌-◌, ◌*◌, ◌/◌, ◌^◌, ◌≤◌, ◌<◌, ◌≡◌, refl, List, length, arith, ℕ_discrete,
}
use layla_os.Memory.Pmm.{Pmm, set_bit, clear_bit}
use layla_os.Memory.Pmm.Bitmap.{
  used, used-lt_two, used-set_bit_self, used-set_bit_ne, used-clear_bit_self, used-clear_bit_ne,
  AreWords,
}
use layla_os.Memory.Pmm.Search.{AllUsed}

-- How many of the first `n` frames are free.
unfoldable pub free_count : List ℕ → ℕ → ℕ
free_count bm zero = 0
free_count bm (suc n) = free_count bm n + (1 - used bm n)

pub record IsValid (p : Pmm) : Type 0 where
  pub words : AreWords p.bitmap
  pub small : p.total_frames ≤ 2 ^ 20
  pub fits : p.total_frames ≤ 32 * length p.bitmap
  pub counted : p.free_frames ≡ free_count p.bitmap p.total_frames

pub free_count-le : (bm : List ℕ) (n : ℕ) → free_count bm n ≤ n
unfolding free_count
free_count-le bm zero = omega arith
free_count-le bm (suc n) = omega (arith, free_count-le bm n)

free_count-set_above :
    (bm : List ℕ) (f n : ℕ) → n ≤ f → free_count (set_bit bm f) n ≡ free_count bm n
unfolding free_count
free_count-set_above bm f zero h = refl
free_count-set_above bm f (suc n) h =
    omega (arith, free_count-set_above bm f n (omega arith), used-set_bit_ne bm f n (omega arith))

pub free_count-set_bit :
    (bm : List ℕ) (f n : ℕ)
    → f / 32 < length bm
    → f < n
    → free_count (set_bit bm f) n + (1 - used bm f) ≡ free_count bm n
unfolding free_count
free_count-set_bit bm f zero h l = absurd (omega arith)
free_count-set_bit bm f (suc n) h l = elim (ℕ_discrete f n) [
  | yes e ↦
      let here : used (set_bit bm f) n ≡ 1 = rw (← e) (used-set_bit_self bm f h) in
      let same : used bm n ≡ used bm f = rw e in
      omega (arith, free_count-set_above bm f n (omega arith), here, same)
  | no ne ↦ omega (arith, free_count-set_bit bm f n h (omega arith), used-set_bit_ne bm f n ne)
]

free_count-clear_above :
    (bm : List ℕ) (f n : ℕ) → n ≤ f → free_count (clear_bit bm f) n ≡ free_count bm n
unfolding free_count
free_count-clear_above bm f zero h = refl
free_count-clear_above bm f (suc n) h =
    omega
      (arith, free_count-clear_above bm f n (omega arith), used-clear_bit_ne bm f n (omega arith))

pub free_count-clear_bit :
    (bm : List ℕ) (f n : ℕ)
    → f / 32 < length bm
    → f < n
    → free_count (clear_bit bm f) n ≡ free_count bm n + used bm f
unfolding free_count
free_count-clear_bit bm f zero h l = absurd (omega arith)
free_count-clear_bit bm f (suc n) h l = elim (ℕ_discrete f n) [
  | yes e ↦
      let here : used (clear_bit bm f) n ≡ 0 = rw (← e) (used-clear_bit_self bm f h) in
      let same : used bm n ≡ used bm f = rw e in
      omega (arith, free_count-clear_above bm f n (omega arith), here, same, used-lt_two bm f)
  | no ne ↦ omega (arith, free_count-clear_bit bm f n h (omega arith), used-clear_bit_ne bm f n ne)
]

-- A full bitmap counts nothing.
pub free_count-AllUsed :
    (bm : List ℕ) (total n : ℕ) → n ≤ total → AllUsed bm total 0 n → free_count bm n ≡ 0
unfolding free_count
free_count-AllUsed bm total zero h a = refl
free_count-AllUsed bm total (suc n) h a = omega (
  arith,
  free_count-AllUsed bm total n (omega arith) (λ g l u t. a g l (omega arith) t),
  a n (omega arith) (omega arith) (omega arith),
)
