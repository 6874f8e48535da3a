-- ===== src/Kernel/Syscall/Ranges.antt =====
-- src/kernel/syscall.cpp: which ranges of addresses the tests let through.
use layla_os.Base.{
  ℕ, ◌+◌, ◌^◌, ◌≤◌, ◌<◌, ◌≡◌, ◌↔◌, refl, List, Option, true, false, ◌||◌, ltb, ◌==◌, add32, arith,
}
use layla_os.Kernel.Syscall.{is_ring3_range, sys_write}
use layla_os.Ui.Terminal.{Terminal}

-- A nonempty range of 32-bit addresses passes exactly if it lies in the user's memory from 4 MB to
-- 13 MB without wrapping; the shared page of the network calls is part of that memory.
pub is_ring3_range_iff :
    (addr len : ℕ)
    → addr < 2 ^ 32
    → len < 2 ^ 32
    → 0 < len
    → (is_ring3_range addr len ≡ true) ↔ ((0x00400000 ≤ addr) × (addr + len ≤ 0x00D00000))
unfolding is_ring3_range
is_ring3_range_iff addr len ha hl some_bytes =
    let full : (len == 0) ≡ false = ground arith in rw (is_ring3_range, full) (ground arith)

-- `sys_write` to the console lets a range through that wraps around the end of the address space and
-- that the other test refuses: it answers with the full length.
pub sys_write_wraps :
    (addr n : ℕ) (text : List ℕ) (term : Option Terminal)
    → 0x00400000 ≤ addr
    → addr < 2 ^ 32
    → n < 2 ^ 32
    → 2 ^ 32 ≤ addr + n
    → addr + n ≤ 2 ^ 32 + 0x00D00000
    → ((sys_write 1 addr text n term).0 ≡ n) × (is_ring3_range addr n ≡ false)
unfolding sys_write is_ring3_range
sys_write_wraps addr n text term low ha hn wraps high =
    let through : (ltb addr 0x00400000 || ltb 0x00D00000 (add32 addr n)) ≡ false = ground arith in
    let full : (n == 0) ≡ false = ground arith in
    let back : ltb (add32 addr n) addr ≡ true = ground arith in
    (rw (sys_write, through) refl, rw (is_ring3_range, full, back) refl)
