-- ===== src/Kernel/Syscall.antt =====
-- src/kernel/syscall.cpp: the tests on user addresses, and the calls on the console.
-- A result of -1 is its 32-bit pattern. `text` is the memory that `buf` points to.
pub mod Ranges
pub mod Files
pub mod Waiting
pub mod Network
pub mod Dispatch
pub mod Lines
pub mod Mailbox
pub mod Exits
pub mod Limits
mod Tests
use layla_os.Base.{
  ℕ, ◌+◌, ◌/◌, Bool, true, false, ◌&&◌, ◌||◌, not, Option, none, some, List, if◌then◌else◌, ltb,
  leb, ◌==◌, ◌!=◌, bit_and, ◌>>>◌, add32, sub32, minus,
}
use layla_os.Net.Wire.{Ipv4Address, from_bytes, read}
use layla_os.Ui.Terminal.{Terminal, print}

abbrev pub net_shared_base_addr : ℕ
net_shared_base_addr = 0x00600000

abbrev pub net_buf_max_data : ℕ
net_buf_max_data = 4088

unfoldable pub is_ring3_range : ℕ → ℕ → Bool
is_ring3_range addr len =
    let end = add32 addr len in
    if len == 0
    then true
    else if ltb end addr
    then false
    else if leb net_shared_base_addr addr && leb end (net_shared_base_addr + 4096)
    then true
    else leb 0x00400000 addr && leb end 0x00D00000

unfoldable pub validate_net_shared : ℕ → Bool
validate_net_shared data_len =
    if ltb net_buf_max_data data_len
    then false
    else if not (is_ring3_range net_shared_base_addr 4)
    then false
    else if not (is_ring3_range (net_shared_base_addr + 4) 4)
    then false
    else if not (is_ring3_range (net_shared_base_addr + 8) data_len)
    then false
    else true

abbrev pub packed_to_ipv4 : ℕ → Ipv4Address
packed_to_ipv4 packed =
    from_bytes (bit_and (packed >>> 24) 0xFF) (bit_and (packed >>> 16) 0xFF)
      (bit_and (packed >>> 8) 0xFF) (bit_and packed 0xFF)

abbrev pub ms_to_ticks : ℕ → ℕ
ms_to_ticks ms = ms / 10 + 1

-- At the tick `now`.
abbrev pub timed_out : ℕ → ℕ → ℕ → Bool
timed_out now start wait_ticks = leb wait_ticks (sub32 now start)

-- With no terminal the characters go to the screen.
unfoldable pub sys_write : ℕ → ℕ → List ℕ → ℕ → Option Terminal → ℕ × Option Terminal
sys_write fd addr text n term =
    if ltb addr 0x00400000 || ltb 0x00D00000 (add32 addr n)
    then (minus 1, term)
    else if fd == 1 || fd == 2
    then (n, elim term [ none ↦ none | some t ↦ some (print (read n text) t) ])
    else (minus 1, term)

unfoldable pub sys_set_raw_input : ℕ → Option Terminal → ℕ × Option Terminal
sys_set_raw_input enable none = (minus 1, none)
sys_set_raw_input enable (some t) = (0, some (record t { raw_input_mode = enable != 0 }))
