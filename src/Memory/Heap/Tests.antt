-- ===== src/Memory/Heap/Tests.antt =====
-- A heap with a block in use between two free chunks.
use layla_os.Base.{ℕ, ◌≡◌, ◌≢◌, refl, List, [], ◌∷◌, some, true, false, inl, inr, arith}
use layla_os.Memory.Heap.{MemoryChunk, take_chunk, malloc, merge_next, merge_prev, free_after, free}
use layla_os.Memory.Heap.Blocks.{Tiles, Holds}
use layla_os.Memory.Heap.Tiling.{Allocates, malloc-Allocates, free-Keeps}

abbrev chunks : List MemoryChunk
chunks =
    record { addr = 1000; allocated = false; size = 87 }
    ∷ (record { addr = 1100; allocated = true; size = 37 }
        ∷ (record { addr = 1150; allocated = false; size = 37 } ∷ []))

chunks-Tiles : Tiles 1000 1200 chunks
chunks-Tiles = (refl, (refl, (refl, refl)))

splits :
    malloc 10 chunks
    ≡ some (
      1013,
      record { addr = 1000; allocated = true; size = 10 }
          ∷ (record { addr = 1023; allocated = false; size = 64 }
              ∷ (record { addr = 1100; allocated = true; size = 37 }
                  ∷ (record { addr = 1150; allocated = false; size = 37 } ∷ []))),
    )
unfolding malloc take_chunk
splits = refl

merges : free 1113 chunks ≡ some (record { addr = 1000; allocated = false; size = 187 } ∷ [])
unfolding free free_after merge_prev merge_next
merges = refl

malloc-Allocates_example : Allocates 1000 1200 10 chunks (malloc 10 chunks)
malloc-Allocates_example = malloc-Allocates 1000 1200 10 chunks chunks-Tiles (omega arith)

free-Keeps_example :
    (cs' : List MemoryChunk) × (free 1113 chunks ≡ some cs')
    × Tiles 1000 1200 cs'
    × ((p s : ℕ) → p ≢ 1113 → Holds p s chunks → Holds p s cs')
    × ((p s : ℕ) → Holds p s cs' → Holds p s chunks × (p ≢ 1113))
free-Keeps_example =
    free-Keeps 1113 1000 1200 37 chunks chunks-Tiles (omega arith) (omega arith) (omega arith)
      (inr (inl (refl, refl, refl)))
