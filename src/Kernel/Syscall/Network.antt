-- ===== src/Kernel/Syscall/Network.antt =====
-- src/kernel/syscall.cpp: the calls on the network. The page that the user shares with the kernel
-- has a status, a length and 4088 bytes; each socket leaves what it received in a static buffer.
use layla_os.Base.{
  ℕ, Bool, true, false, not, Option, none, some, ◌>>=◌, List, ◌++◌, if◌then◌else◌, ltb, ◌!=◌, minus,
  u16, drop, replicate,
}
use layla_os.Net.Wire.{read}
use layla_os.Net.Arp.{Link}
use layla_os.Net.Ipv4.{Ipv4Handler}
use layla_os.Net.Udp.{UdpSocket, send_udp}
use layla_os.Net.Tcp.{TcpSocket, TcpState, established, connect, send_tcp, close}
use layla_os.Kernel.Scheduler.{Scheduler}
use layla_os.Kernel.Syscall.{
  net_buf_max_data, validate_net_shared, packed_to_ipv4, ms_to_ticks, timed_out,
}
use layla_os.Kernel.Syscall.Waiting.{block}

-- `udp_rx_buf`, `udp_rx_len`, `udp_rx_ready`, and the same for TCP.
pub record Received : Type 0 where
  pub buf : List ℕ
  pub len : ℕ
  pub ready : Bool

abbrev pub rx_size : ℕ
rx_size = 2048

abbrev pub nothing_received : Received
nothing_received = record { buf = replicate rx_size 0; len = 0; ready = false }

-- `OnReceive` of both sockets.
unfoldable pub on_receive : List ℕ → ℕ → Received → Received
on_receive bytes size r =
    let copy = if ltb rx_size size then rx_size else size in
    record { buf = read copy bytes ++ drop copy r.buf; len = copy; ready = true }

pub record NetShared : Type 0 where
  pub status : ℕ
  pub data_len : ℕ
  pub content : List ℕ

-- `udp_rx_ready` is false and there is a timeout.
unfoldable pub recv_waits : ℕ → Received → Bool
recv_waits timeout_ms r = if r.ready then false else timeout_ms != 0

-- Before the wait for the sake of `tag`, -3 for UDP and -5 for TCP.
unfoldable pub recv_start : ℕ → ℕ → Received → Scheduler → Option Scheduler
recv_start tag timeout_ms r s = if recv_waits timeout_ms r then some (block s tag) else none

-- The condition of the wait's loop at the tick `now`.
unfoldable pub recv_goes_on : ℕ → ℕ → ℕ → Received → Bool
recv_goes_on now start timeout_ms r =
    if r.ready then false else not (timed_out now start (ms_to_ticks timeout_ms))

-- At most the size of the shared page.
abbrev pub clip_shared : ℕ → ℕ
clip_shared len = if ltb net_buf_max_data len then net_buf_max_data else len

-- After the wait.
unfoldable pub recv_finish : Received → NetShared → ℕ × Received × NetShared
recv_finish r shared =
    if not (validate_net_shared net_buf_max_data)
    then (1, r, record { status = 1; data_len = 0; content = shared.content })
    else if r.ready
    then (
      0,
      record { buf = r.buf; len = 0; ready = false },
      record {
        status = 0;
        data_len = clip_shared r.len;
        content = read (clip_shared r.len) r.buf ++ drop (clip_shared r.len) shared.content;
      },
    )
    else (1, r, record { status = 1; data_len = 0; content = shared.content })

module _ {ℓ} {H : Type ℓ} where
  -- `none` for the socket stands for a missing card or socket; the outer `none` is a write past the
  -- end of a static buffer.
  unfoldable pub sys_net_send_udp :
      ℕ
      → ℕ
      → ℕ
      → NetShared
      → Option UdpSocket
      → Ipv4Handler H
      → Link
      → Option (ℕ × Option UdpSocket × Ipv4Handler H × Link)
  sys_net_send_udp packed dst_port src_port shared none h l = some (minus 1, none, h, l)
  sys_net_send_udp packed dst_port src_port shared (some socket) h l =
      if not (validate_net_shared (clip_shared shared.data_len))
      then some (minus 1, some socket, h, l)
      else (do
        (ok, socket', h', l') ←
            send_udp (packed_to_ipv4 packed) (u16 dst_port) (u16 src_port) shared.content
              (clip_shared shared.data_len) socket h l
        some ((if ok then 0 else minus 1), some socket', h', l'))

  -- Before the wait for the connection; `connect` always answers true.
  unfoldable pub sys_net_tcp_connect_start :
      ℕ
      → ℕ
      → Option TcpSocket
      → Ipv4Handler H
      → Link
      → Scheduler
      → Option (Option TcpSocket × Ipv4Handler H × Link × Scheduler)
  sys_net_tcp_connect_start packed dst_port none h l s = some (none, h, l, s)
  sys_net_tcp_connect_start packed dst_port (some socket) h l s = do
    (socket', h', l') ← connect (packed_to_ipv4 packed) (u16 dst_port) socket h l
    some (some socket', h', l', block s (minus 4))

  unfoldable pub sys_net_tcp_send :
      NetShared
      → Option TcpSocket
      → Ipv4Handler H
      → Link
      → Option (ℕ × Option TcpSocket × Ipv4Handler H × Link)
  sys_net_tcp_send shared none h l = some (minus 1, none, h, l)
  sys_net_tcp_send shared (some socket) h l =
      if not (validate_net_shared (clip_shared shared.data_len))
      then some (minus 1, some socket, h, l)
      else (do
        (ok, socket', h', l') ← send_tcp shared.content (clip_shared shared.data_len) socket h l
        some ((if ok then 0 else minus 1), some socket', h', l'))

  unfoldable pub sys_net_tcp_close :
      Option TcpSocket → Ipv4Handler H → Link → Option (ℕ × Option TcpSocket × Ipv4Handler H × Link)
  sys_net_tcp_close none h l = some (0, none, h, l)
  sys_net_tcp_close (some socket) h l = do
    (socket', h', l') ← close socket h l
    some (0, some socket', h', l')

abbrev pub is_established : TcpState → Bool
is_established established = true
is_established _ = false

-- The condition of the wait's loop, and the result after it.
unfoldable pub connect_goes_on : ℕ → ℕ → TcpSocket → Bool
connect_goes_on now start socket =
    if is_established socket.state then false else not (timed_out now start (ms_to_ticks 5000))

unfoldable pub sys_net_tcp_connect_finish : Option TcpSocket → ℕ
sys_net_tcp_connect_finish none = minus 1
sys_net_tcp_connect_finish (some socket) = if is_established socket.state then 0 else minus 1
