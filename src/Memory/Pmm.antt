-- ===== src/Memory/Pmm.antt =====
-- src/memory/pmm.cpp: the manager of physical 4 KiB frames, a bitmap of 32-bit words with one digit
-- for each frame (1 = used) and a counter of the free ones.
-- The proofs stand below: the bitmap's digits (Bitmap), the search (Search), the counter (Count),
-- the operations (Frames), the ranges (Ranges).
pub mod Bitmap
pub mod Search
pub mod Count
pub mod Frames
pub mod Ranges
pub mod Init
mod Tests
use layla_os.Base.{
  ℕ, zero, suc, ◌+◌, ◌-◌, ◌*◌, ◌/◌, ◌%◌, ◌^◌, Bool, true, false, ◌&&◌, not, Option, none, some,
  List, if◌then◌else◌, ltb, ◌!=◌, bit_and, bit_or, u32, add32, not32, get_or, set,
}

pub record Pmm : Type 0 where
  pub bitmap : List ℕ
  pub total_frames : ℕ
  pub free_frames : ℕ

-- The number of bitmap words for `n` frames.
abbrev pub dwords : ℕ → ℕ
dwords n = add32 n 31 / 32

-- `for (i = 0; i < n; i++) bitmap[i] = 0xFFFFFFFF;`, with `n` rounds left.
pub fill_from : List ℕ → ℕ → ℕ → List ℕ
fill_from bm i zero = bm
fill_from bm i (suc n) = fill_from (set bm i 0xFFFFFFFF) (i + 1) n

-- `storage` is the memory at `bitmap_base`.
pub init : List ℕ → ℕ → Pmm
init storage mem_size = record {
  bitmap = fill_from storage 0 (dwords (mem_size / 4096));
  total_frames = mem_size / 4096;
  free_frames = 0;
}

pub set_bit : List ℕ → ℕ → List ℕ
set_bit bm frame = set bm (frame / 32) (bit_or (get_or bm (frame / 32) 0) (2 ^ (frame % 32)))

pub clear_bit : List ℕ → ℕ → List ℕ
clear_bit bm frame =
    set bm (frame / 32) (bit_and (get_or bm (frame / 32) 0) (not32 (2 ^ (frame % 32))))

pub test_bit : List ℕ → ℕ → Bool
test_bit bm frame = bit_and (get_or bm (frame / 32) 0) (2 ^ (frame % 32)) != 0

-- The inner loop of `FirstFree`, from digit `b` with `n` rounds left.
pub scan_bits : ℕ → ℕ → ℕ → ℕ → ℕ → Option ℕ
scan_bits total inv i b zero = none
scan_bits total inv i b (suc n) =
    let rest = scan_bits total inv i (b + 1) n in
    let frame = u32 (i * 32 + b) in
    if bit_and inv (2 ^ b) != 0 && ltb frame total then some frame else rest

-- The outer loop, from word `i` with `n` rounds left.
pub scan_words : List ℕ → ℕ → ℕ → ℕ → Option ℕ
scan_words bm total i zero = none
scan_words bm total i (suc n) =
    let rest = scan_words bm total (i + 1) n in
    if get_or bm i 0 != 0xFFFFFFFF
    then elim (scan_bits total (not32 (get_or bm i 0)) i 0 32) [
      | none ↦ rest
      | some frame ↦ some frame
    ]
    else rest

-- `none` is the code's -1.
pub first_free : Pmm → Option ℕ
first_free p = scan_words p.bitmap p.total_frames 0 (dwords p.total_frames)

-- `if (free_frames > 0) free_frames--;`
abbrev pub count_down : ℕ → ℕ
count_down n = if ltb 0 n then n - 1 else n

-- The address, 0 for none, and the new state.
pub alloc_frame : Pmm → ℕ × Pmm
alloc_frame p = elim (first_free p) [
  | none ↦ (0, p)
  | some frame ↦ (
    u32 (frame * 4096),
    record p { bitmap = set_bit p.bitmap frame; free_frames = count_down p.free_frames },
  )
]

pub free_frame : Pmm → ℕ → Pmm
free_frame p addr = record p {
  bitmap = clear_bit p.bitmap (addr / 4096);
  free_frames = add32 p.free_frames 1;
}

-- One round of the loop of `MarkUsed`, and of `MarkFree`.
pub use_frame : Pmm → ℕ → Pmm
use_frame p i = record p {
  bitmap = set_bit p.bitmap i;
  free_frames =
      if not (test_bit p.bitmap i) && ltb 0 p.free_frames then p.free_frames - 1 else p.free_frames;
}

pub release_frame : Pmm → ℕ → Pmm
release_frame p i = record p {
  bitmap = clear_bit p.bitmap i;
  free_frames = if test_bit p.bitmap i then add32 p.free_frames 1 else p.free_frames;
}

-- `for (i = start; i < end && i < total_frames; i++)` over either, with `n` rounds to `end`.
pub mark_from : (Pmm → ℕ → Pmm) → Pmm → ℕ → ℕ → Pmm
mark_from body p i zero = p
mark_from body p i (suc n) = if ltb i p.total_frames then mark_from body (body p i) (i + 1) n else p

pub mark_used : Pmm → ℕ → ℕ → Pmm
mark_used p addr length =
    mark_from use_frame p (addr / 4096) (add32 (add32 addr length) 4095 / 4096 - addr / 4096)

pub mark_free : Pmm → ℕ → ℕ → Pmm
mark_free p addr length =
    mark_from release_frame p (addr / 4096) (add32 addr length / 4096 - addr / 4096)
