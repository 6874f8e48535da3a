-- ===== src/Net/Udp.antt =====
-- src/net/udp.h, src/net/udp.cpp: datagrams over IPv4.
-- `OnReceive` is virtual: a received datagram is the arguments of that call.

pub mod RoundTrip
use layla_os.Base.{
  ℕ, ◌+◌, List, [], ◌∷◌, ◌++◌, Option, none, some, ◌>>=◌, Bool, true, false, if◌then◌else◌, ltb,
  ◌!=◌, u16, sub32, drop,
}
use layla_os.Net.Wire.{Ipv4Address, load16, bytes16, htons, ntohs, read, write_at}
use layla_os.Net.Arp.{Link}
use layla_os.Net.Ipv4.{Ipv4Handler, send_ipv4}

abbrev pub ipv4_proto_udp : ℕ
ipv4_proto_udp = 0x11

pub record UdpSocket : Type 0 where
  pub local_port : ℕ
  pub tx_buf : List ℕ

-- The arguments of one `OnReceive`.
pub record Datagram : Type 0 where
  pub src_ip : Ipv4Address
  pub src_port : ℕ
  pub content : List ℕ
  pub size : ℕ

unfoldable pub udp_header : ℕ → ℕ → ℕ → List ℕ
udp_header src_port dst_port size =
    bytes16 (htons src_port)
    ++ (bytes16 (htons dst_port) ++ (bytes16 (htons (u16 (8 + size))) ++ (0 ∷ (0 ∷ []))))

unfoldable pub receive_udp : UdpSocket → List ℕ → ℕ → Ipv4Address → Option Datagram
receive_udp s payload size src =
    if ltb size 8
    then none
    else if ntohs (load16 payload 2) != s.local_port
    then none
    else some (record {
      src_ip = src;
      src_port = ntohs (load16 payload 0);
      content = drop 8 payload;
      size = sub32 (ntohs (load16 payload 4)) 8;
    })

-- `Send` cuts the data to what the buffer holds.
unfoldable pub clip_udp : ℕ → ℕ
clip_udp size = if ltb 1464 size then 1464 else size

unfoldable pub send_udp {ℓ} :
    {H : Type ℓ}
    → Ipv4Address
    → ℕ
    → ℕ
    → List ℕ
    → ℕ
    → UdpSocket
    → Ipv4Handler H
    → Link
    → Option (Bool × UdpSocket × Ipv4Handler H × Link)
send_udp dst_ip dst_port src_port content size s h l = do
  buf ←
      write_at s.tx_buf 0
        (udp_header src_port dst_port (clip_udp size) ++ read (clip_udp size) content)
  (ok, h', l') ← send_ipv4 dst_ip ipv4_proto_udp buf (8 + clip_udp size) h l
  some (ok, record { local_port = s.local_port; tx_buf = buf }, h', l')
