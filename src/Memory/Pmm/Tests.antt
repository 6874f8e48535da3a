-- ===== src/Memory/Pmm/Tests.antt =====
-- Runs of the frame manager on a bitmap of two words, and instances of its theorems there.
use layla_os.Base.{ℕ, zero, suc, ◌*◌, ◌≡◌, ◌⊎◌, refl, List, [], ◌∷◌, arith, bit}
use layla_os.Memory.Pmm.{
  Pmm, init, alloc_frame, mark_free, first_free, scan_words, scan_bits, clear_bit, test_bit,
  mark_from, release_frame, fill_from,
}
use layla_os.Memory.Pmm.Bitmap.{used, AreWords}
use layla_os.Memory.Pmm.Count.{IsValid, free_count}
use layla_os.Memory.Pmm.Frames.{Granted, Refused, alloc_frame_lem}

-- 40 frames; frames 33 and 35 are free.
abbrev two_free : Pmm
two_free = record { bitmap = 0xFFFFFFFF ∷ 0xFFFFFFF5 ∷ []; total_frames = 40; free_frames = 2 }

abbrev zeros : List ℕ
zeros = 0 ∷ 0 ∷ []

zeros-AreWords : AreWords zeros
zeros-AreWords zero = omega arith
zeros-AreWords (suc zero) = omega arith
zeros-AreWords (suc (suc i)) = omega arith

two_free-AreWords : AreWords two_free.bitmap
two_free-AreWords zero = omega arith
two_free-AreWords (suc zero) = omega arith
two_free-AreWords (suc (suc i)) = omega arith

two_free-IsValid : IsValid two_free
unfolding free_count used bit
two_free-IsValid = record {
  words = two_free-AreWords;
  small = omega arith;
  fits = omega arith;
  counted = refl;
}

alloc_runs : (alloc_frame two_free).0 ≡ 33 * 4096
unfolding alloc_frame first_free scan_words scan_bits
alloc_runs = refl

mark_free_runs : (mark_free (init zeros (40 * 4096)) 4096 8192).free_frames ≡ 2
unfolding mark_free init fill_from mark_from release_frame test_bit clear_bit
mark_free_runs = refl

alloc_frame_example :
    Refused two_free (alloc_frame two_free) ⊎ ((f : ℕ) × Granted two_free (alloc_frame two_free) f)
alloc_frame_example = alloc_frame_lem two_free two_free-IsValid
