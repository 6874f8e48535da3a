-- ===== src/Memory.antt =====
-- src/memory: physical frames (Memory/Pmm), page directories (Memory/Paging), the heap (Memory/Heap).
pub mod Pmm
pub mod Paging
pub mod Heap
