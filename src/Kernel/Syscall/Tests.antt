-- ===== src/Kernel/Syscall/Tests.antt =====
-- Ranges at the ends of the user's memory.
mod Calls
use layla_os.Base.{◌≤◌, ◌≡◌, ◌↔◌, true, arith}
use layla_os.Kernel.Syscall.{is_ring3_range}
use layla_os.Kernel.Syscall.Ranges.{is_ring3_range_iff}

is_ring3_range_example :
    (is_ring3_range 0x00CFFFFF 1 ≡ true) ↔ ((0x00400000 ≤ 0x00CFFFFF) × (0x00D00000 ≤ 0x00D00000))
is_ring3_range_example = is_ring3_range_iff 0x00CFFFFF 1 (omega arith) (omega arith) (omega arith)
