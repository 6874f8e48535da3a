-- ===== src/Memory/Heap.antt =====
-- src/memory/memorymanagement.h, src/memory/memorymanagement.cpp: the kernel heap.
-- The chunks linked by `next` from `first` on are a list, each with its address; `prev` is the element
-- before. `none` is the null pointer.
pub mod Blocks
pub mod Tiling
mod Tests
use layla_os.Base.{
  ℕ, List, [], ◌∷◌, Option, none, some, Bool, true, false, ◌||◌, not, if◌then◌else◌, ltb, ◌==◌,
  add32, sub32,
}

-- `sizeof(MemoryChunk)` of the packed structure.
abbrev pub header : ℕ
header = 13

pub record MemoryChunk : Type 0 where
  pub addr : ℕ
  pub allocated : Bool
  pub size : ℕ

unfoldable pub new_heap : ℕ → ℕ → List MemoryChunk
new_heap start size = record { addr = start; allocated = false; size = sub32 size header } ∷ []

-- The chunk that is taken, cut to the size asked for where the rest has room for a header.
unfoldable pub take_chunk : ℕ → MemoryChunk → List MemoryChunk → List MemoryChunk
take_chunk size c cs =
    if ltb (add32 size header) c.size
    then record { addr = c.addr; allocated = true; size = size }
      ∷ (record {
        addr = add32 (add32 c.addr header) size;
        allocated = false;
        size = sub32 (sub32 c.size size) header;
      }
          ∷ cs)
    else record { addr = c.addr; allocated = true; size = c.size } ∷ cs

unfoldable pub malloc : ℕ → List MemoryChunk → Option (ℕ × List MemoryChunk)
malloc size [] = none
malloc size (c ∷ cs) =
    let rest = malloc size cs in
    if c.allocated || ltb c.size size
    then elim rest [ none ↦ none | some r ↦ some (r.0, c ∷ r.1) ]
    else some (add32 c.addr header, take_chunk size c cs)

-- A chunk that takes in the free chunk after it.
unfoldable pub merge_next : MemoryChunk → List MemoryChunk → List MemoryChunk
merge_next c [] = c ∷ []
merge_next c (n ∷ cs) =
    if not n.allocated
    then record {
      addr = c.addr;
      allocated = c.allocated;
      size = add32 c.size (add32 header n.size);
    }
      ∷ cs
    else c ∷ (n ∷ cs)

abbrev pub freed : MemoryChunk → MemoryChunk
freed c = record { addr = c.addr; allocated = false; size = c.size }

-- The freed chunk `c` with the chunks after it, and then the free chunk before it.
unfoldable pub merge_prev : MemoryChunk → List MemoryChunk → List MemoryChunk
merge_prev p cs = if not p.allocated then merge_next p cs else p ∷ cs

-- `free` of the chunk at `at`, which comes after `q`. `none` is a pointer to no chunk, where the
-- source writes to memory that is not its own.
unfoldable pub free_after : ℕ → MemoryChunk → List MemoryChunk → Option (List MemoryChunk)
free_after at q [] = none
free_after at q (c ∷ cs) =
    let rest = free_after at c cs in
    if c.addr == at
    then some (merge_prev q (merge_next (freed c) cs))
    else elim rest [ none ↦ none | some cs' ↦ some (q ∷ cs') ]

unfoldable pub free : ℕ → List MemoryChunk → Option (List MemoryChunk)
free ptr [] = none
free ptr (c ∷ cs) =
    if c.addr == sub32 ptr header
    then some (merge_next (freed c) cs)
    else free_after (sub32 ptr header) c cs
