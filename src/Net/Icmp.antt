-- ===== src/Net/Icmp.antt =====
-- src/net/icmp.h, src/net/icmp.cpp: echo requests and replies.

pub mod Echo
use layla_os.Base.{
  ℕ, ◌+◌, List, [], ◌∷◌, ◌++◌, Option, none, some, ◌>>=◌, Bool, true, false, if◌then◌else◌, ltb,
  ◌!=◌, take, drop,
}
use layla_os.Net.Wire.{Ipv4Address, load8, bytes16, htons, read, write_at}
use layla_os.Net.Checksum.{internet_checksum}
use layla_os.Net.Arp.{Link}
use layla_os.Net.Ipv4.{Ipv4Handler, send_ipv4}

abbrev pub ipv4_proto_icmp : ℕ
ipv4_proto_icmp = 0x01

abbrev pub icmp_echo_request : ℕ
icmp_echo_request = 8

abbrev pub icmp_echo_reply : ℕ
icmp_echo_reply = 0

-- The reply holds at most the 64 bytes of `tx_buf`.
unfoldable pub reply_size : ℕ → ℕ
reply_size size = if ltb 64 size then 64 else size

-- The copied request with type, code and checksum rewritten; the checksum is over the field zeroed.
unfoldable pub echo_reply : List ℕ → ℕ → List ℕ
echo_reply payload n =
    let rest = drop 4 (read n payload) in
    icmp_echo_reply
    ∷ (0 ∷ (bytes16 (internet_checksum (icmp_echo_reply ∷ (0 ∷ (0 ∷ (0 ∷ rest))))) ++ rest))

unfoldable pub echo_request : ℕ → ℕ → List ℕ
echo_request id seq =
    let rest = bytes16 (htons id) ++ bytes16 (htons seq) in
    icmp_echo_request
    ∷ (0 ∷ (bytes16 (internet_checksum (icmp_echo_request ∷ (0 ∷ (0 ∷ (0 ∷ rest))))) ++ rest))

module _ {ℓ} {H : Type ℓ} where
  -- `tx_buf` is state: a reply overwrites it.
  unfoldable pub handle_icmp :
      List ℕ
      → ℕ
      → Ipv4Address
      → List ℕ
      → Ipv4Handler H
      → Link
      → Option (List ℕ × Ipv4Handler H × Link)
  handle_icmp payload size src tx_buf h l =
      if ltb size 8
      then some (tx_buf, h, l)
      else if load8 payload 0 != icmp_echo_request
      then some (tx_buf, h, l)
      else do
        buf ← write_at tx_buf 0 (echo_reply payload (reply_size size))
        (ok, h', l') ← send_ipv4 src ipv4_proto_icmp buf (reply_size size) h l
        some (buf, h', l')

  unfoldable pub send_echo_request :
      Ipv4Address
      → ℕ
      → ℕ
      → List ℕ
      → Ipv4Handler H
      → Link
      → Option (Bool × List ℕ × Ipv4Handler H × Link)
  send_echo_request target id seq tx_buf h l = do
    buf ← write_at tx_buf 0 (echo_request id seq)
    (ok, h', l') ← send_ipv4 target ipv4_proto_icmp buf 8 h l
    some (ok, buf, h', l')
