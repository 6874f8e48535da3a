-- ===== src/Kernel/Syscall/Limits.antt =====
-- src/kernel/syscall.cpp: sizes that the calls let through.
use layla_os.Base.{ℕ, ◌<◌, ◌≡◌, refl, true, List, none, some, length, arith}
use layla_os.Net.Arp.{Link}
use layla_os.Net.Ipv4.{Ipv4Handler}
use layla_os.Net.Tcp.{TcpSocket, established, send_tcp, send_segment}
use layla_os.Net.Tcp.Segment.{send_segment_overflow}
use layla_os.Kernel.Syscall.{validate_net_shared, is_ring3_range}
use layla_os.Kernel.Syscall.Network.{NetShared, sys_net_tcp_send, clip_shared}

-- Every length that the shared page has room for is accepted.
validate-clip_shared : (len : ℕ) → validate_net_shared (clip_shared len) ≡ true
unfolding validate_net_shared is_ring3_range
validate-clip_shared len = ground arith

send_tcp-none {ℓ} :
    {H : Type ℓ} (content : List ℕ) (size : ℕ) (t : TcpSocket) (h : Ipv4Handler H) (l : Link)
    → t.state ≡ established
    → send_segment 0x18 content size t h l ≡ none
    → send_tcp content size t h l ≡ none
unfolding send_tcp
send_tcp-none content size t h l open_ over = simp (send_tcp, open_, over)

-- On an established connection sys_net_tcp_send lets through a length of more than 1460 bytes,
-- although the page may hold 4088, and the copy of the data then runs past the end of the
-- socket's transmit buffer.
pub sys_net_tcp_send_overflow {ℓ} :
    {H : Type ℓ} (shared : NetShared) (t : TcpSocket) (h : Ipv4Handler H) (l : Link)
    → t.state ≡ established
    → length t.tx_buf ≡ 1480
    → 1460 < shared.data_len
    → sys_net_tcp_send shared (some t) h l ≡ none
unfolding sys_net_tcp_send
sys_net_tcp_send_overflow shared t h l open_ whole large =
    let size = clip_shared shared.data_len in
    let over = send_segment_overflow 0x18 shared.content size t h l whole (ground arith) in
    rw (validate-clip_shared shared.data_len, send_tcp-none shared.content size t h l open_ over)
      refl
