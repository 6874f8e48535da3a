-- ===== src/Net/Tcp.antt =====
-- src/net/tcp.h, src/net/tcp.cpp: the client side of a TCP connection.
-- The virtual calls `OnConnected`, `OnReceive` and `OnClosed` are events: each is the last thing that
-- its branch does. `none` is a write past the end of a static buffer.
pub mod Receive
pub mod Header
pub mod Segment
pub mod Diagram
pub mod Automaton
pub mod Life
pub mod Callbacks
use layla_os.Base.{
  ℕ, ◌+◌, ◌-◌, ◌*◌, List, [], ◌∷◌, ◌++◌, Option, none, some, ◌>>=◌, Bool, true, false, ◌&&◌, ◌||◌,
  not, if◌then◌else◌, ltb, ◌==◌, ◌!=◌, ◌>>>◌, bit_and, bit_or, u16, add32, drop,
}
use layla_os.Net.Wire.{
  Ipv4Address, ip_bytes, load8, load16, load32, bytes16, bytes32, htons, htonl, ntohs, ntohl, read,
  write_at,
}
use layla_os.Net.Checksum.{internet_checksum}
use layla_os.Net.Arp.{Link}
use layla_os.Net.Ipv4.{Ipv4Handler, send_ipv4}

abbrev pub ipv4_proto_tcp : ℕ
ipv4_proto_tcp = 0x06

abbrev pub tcp_fin : ℕ
tcp_fin = 0x01

abbrev pub tcp_syn : ℕ
tcp_syn = 0x02

abbrev pub tcp_psh : ℕ
tcp_psh = 0x08

abbrev pub tcp_ack : ℕ
tcp_ack = 0x10

pub data TcpState : Type 0 where
  closed : TcpState
  listen : TcpState
  syn_sent : TcpState
  syn_received : TcpState
  established : TcpState
  fin_wait_1 : TcpState
  fin_wait_2 : TcpState
  close_wait : TcpState
  last_ack : TcpState
  time_wait : TcpState

pub data TcpEvent : Type 0 where
  on_connected : TcpEvent
  on_receive : List ℕ → ℕ → TcpEvent
  on_closed : TcpEvent

pub record TcpSocket : Type 0 where
  pub local_port : ℕ
  pub remote_port : ℕ
  pub remote_ip : Ipv4Address
  pub state : TcpState
  pub seq : ℕ
  pub ack : ℕ
  pub rx_buf : List ℕ
  pub tx_buf : List ℕ

-- Writes to the fields `state`, `seq` and `ack`.
abbrev pub update : TcpState → ℕ → ℕ → TcpSocket → TcpSocket
update state seq ack t = record {
  local_port = t.local_port;
  remote_port = t.remote_port;
  remote_ip = t.remote_ip;
  state = state;
  seq = seq;
  ack = ack;
  rx_buf = t.rx_buf;
  tx_buf = t.tx_buf;
}

unfoldable pub pseudo_header : Ipv4Address → Ipv4Address → ℕ → List ℕ
pseudo_header src dst seg_len =
    ip_bytes src ++ (ip_bytes dst ++ (0 ∷ (ipv4_proto_tcp ∷ bytes16 (htons (u16 seg_len)))))

-- The scratch buffer holds 1500 bytes.
unfoldable pub compute_checksum : Ipv4Address → Ipv4Address → List ℕ → ℕ → Option ℕ
compute_checksum src dst segment seg_len =
    if ltb 1500 (12 + seg_len)
    then none
    else some (internet_checksum (pseudo_header src dst seg_len ++ read seg_len segment))

-- The 20 bytes of a `TCPHeader`, for a value of the checksum field.
unfoldable pub tcp_header : List ℕ → TcpSocket → ℕ → List ℕ
tcp_header checksum t flags =
    bytes16 (htons t.local_port)
    ++ (bytes16 (htons t.remote_port)
        ++ (bytes32 (htonl t.seq)
            ++ (bytes32 (htonl t.ack)
                ++ (80 ∷ (flags ∷ (bytes16 (htons 8192) ++ (checksum ++ (0 ∷ (0 ∷ [])))))))))

module _ {ℓ} {H : Type ℓ} where
  unfoldable pub send_segment :
      ℕ → List ℕ → ℕ → TcpSocket → Ipv4Handler H → Link → Option (TcpSocket × Ipv4Handler H × Link)
  send_segment flags content size t h l = do
    zeroed ← write_at t.tx_buf 0 (tcp_header (0 ∷ (0 ∷ [])) t flags ++ read size content)
    sum ← compute_checksum h.local_ip t.remote_ip zeroed (20 + size)
    buf ← write_at zeroed 16 (bytes16 sum)
    (ok, h', l') ← send_ipv4 t.remote_ip ipv4_proto_tcp buf (20 + size) h l
    some (
      record {
        local_port = t.local_port;
        remote_port = t.remote_port;
        remote_ip = t.remote_ip;
        state = t.state;
        seq =
            (if bit_and flags tcp_syn != 0 || bit_and flags tcp_fin != 0
              then add32 t.seq 1
              else add32 t.seq size);
        ack = t.ack;
        rx_buf = t.rx_buf;
        tx_buf = buf;
      },
      h',
      l',
    )

  unfoldable pub connect :
      Ipv4Address → ℕ → TcpSocket → Ipv4Handler H → Link → Option (TcpSocket × Ipv4Handler H × Link)
  connect dst_ip dst_port t h l =
      send_segment tcp_syn [] 0
        (record {
          local_port = t.local_port;
          remote_port = dst_port;
          remote_ip = dst_ip;
          state = syn_sent;
          seq = 0xDEADBEEF;
          ack = 0;
          rx_buf = t.rx_buf;
          tx_buf = t.tx_buf;
        })
        h l

  unfoldable pub send_tcp :
      List ℕ
      → ℕ
      → TcpSocket
      → Ipv4Handler H
      → Link
      → Option (Bool × TcpSocket × Ipv4Handler H × Link)
  send_tcp content size t h l = elim t.state [
    | established ↦ do
      (t', h', l') ← send_segment (bit_or tcp_psh tcp_ack) content size t h l
      some (true, t', h', l')
    | _ ↦ some (false, t, h, l)
  ]

  unfoldable pub close :
      TcpSocket → Ipv4Handler H → Link → Option (TcpSocket × Ipv4Handler H × Link)
  close t h l = elim t.state [
    | established ↦ send_segment (bit_or tcp_fin tcp_ack) [] 0 (update fin_wait_1 t.seq t.ack t) h l
    | _ ↦ some (t, h, l)
  ]
