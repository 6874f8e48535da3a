-- ===== src/Memory/Pmm/Init.antt =====
-- `Init`: a manager whose frames are all used.
use layla_os.Base.{
  ℕ, zero, suc, ◌+◌, ◌/◌, ◌^◌, ◌≤◌, ◌<◌, ◌≡◌, ◌⊎◌, inl, inr, refl, List, length, get_or, set,
  length-set, get_or-set_self, get_or-set_ne, arith, ◌∙◌, sym, subst, dec_lt, ℕ_discrete,
}
use layla_os.Memory.Pmm.{fill_from, init, dwords}
use layla_os.Memory.Pmm.Bitmap.{AreWords}
use layla_os.Memory.Pmm.Search.{AllUsed, full_word}
use layla_os.Memory.Pmm.Count.{IsValid, free_count-AllUsed}

length-fill_from : (bm : List ℕ) (i n : ℕ) → length (fill_from bm i n) ≡ length bm
unfolding fill_from
length-fill_from bm i zero = refl
length-fill_from bm i (suc n) =
    length-fill_from (set bm i 0xFFFFFFFF) (i + 1) n ∙ length-set bm i 0xFFFFFFFF

fill_from-outside :
    (bm : List ℕ) (i n j : ℕ)
    → (j < i) ⊎ (i + n ≤ j)
    → get_or (fill_from bm i n) j 0 ≡ get_or bm j 0
unfolding fill_from
fill_from-outside bm i zero j h = refl
fill_from-outside bm i (suc n) j (inl h) =
    fill_from-outside (set bm i 0xFFFFFFFF) (i + 1) n j (inl (omega arith))
    ∙ get_or-set_ne bm i j 0xFFFFFFFF 0 (omega arith)
fill_from-outside bm i (suc n) j (inr h) =
    fill_from-outside (set bm i 0xFFFFFFFF) (i + 1) n j (inr (omega arith))
    ∙ get_or-set_ne bm i j 0xFFFFFFFF 0 (omega arith)

fill_from-inside :
    (bm : List ℕ) (i n j : ℕ)
    → i + n ≤ length bm
    → i ≤ j
    → j < i + n
    → get_or (fill_from bm i n) j 0 ≡ 0xFFFFFFFF
unfolding fill_from
fill_from-inside bm i zero j l h k = absurd (omega arith)
fill_from-inside bm i (suc n) j l h k = elim (ℕ_discrete i j) [
  | yes e ↦
      fill_from-outside (set bm i 0xFFFFFFFF) (i + 1) n j (inl (omega arith))
      ∙ subst (λ m. get_or (set bm i 0xFFFFFFFF) m 0 ≡ 0xFFFFFFFF) e
          (get_or-set_self bm i 0xFFFFFFFF 0 (omega arith))
  | no ne ↦
      fill_from-inside (set bm i 0xFFFFFFFF) (i + 1) n j (omega (arith, length-set bm i 0xFFFFFFFF))
        (omega arith) (omega arith)
]

fill_from-AreWords :
    (bm : List ℕ) (n : ℕ) → AreWords bm → n ≤ length bm → AreWords (fill_from bm 0 n)
fill_from-AreWords bm n a h j = elim (dec_lt j n) [
  | yes l ↦ omega (arith, fill_from-inside bm 0 n j (omega arith) (omega arith) (omega arith))
  | no l ↦ rw (fill_from-outside bm 0 n j (inr (omega arith))) (a j)
]

-- `Init` over storage that holds a word for every 32 frames makes a valid manager with every frame
-- used and none counted as free.
pub init_lem :
    (storage : List ℕ) (mem_size : ℕ)
    → AreWords storage
    → mem_size < 2 ^ 32
    → dwords (mem_size / 4096) ≤ length storage
    → let p = init storage mem_size in
      IsValid p × AllUsed p.bitmap p.total_frames 0 p.total_frames × (p.free_frames ≡ 0)
unfolding init
init_lem storage mem_size a m h =
    let total = mem_size / 4096 in
    let bm = fill_from storage 0 (dwords total) in
    let ones = λ (g : ℕ) (l : 0 ≤ g) (u : g < total) (t : g < total).
      full_word bm (g / 32) g
        (fill_from-inside storage 0 (dwords total) (g / 32) (omega arith) (omega arith)
          (omega arith))
        refl in
    (
      record {
        words = fill_from-AreWords storage (dwords total) a h;
        small = omega arith;
        fits = omega (arith, length-fill_from storage 0 (dwords total));
        counted = sym (free_count-AllUsed bm total total (omega arith) ones);
      },
      ones,
      refl,
    )
