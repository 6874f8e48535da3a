-- ===== src/Net/Tcp/Header.antt =====
-- src/net/tcp.h, src/net/tcp.cpp: the header of a segment as the other side reads it.
use layla_os.Base.{
  ℕ, ◌+◌, ◌*◌, ◌/◌, ◌%◌, ◌^◌, ◌<◌, ◌>>>◌, List, ◌++◌, drop, ◌≡◌, refl, ap, ◌∙◌, arith,
}
use layla_os.Net.Wire.{bytes16, htonl, ntohs, ntohl, load8, load16, load32, read}
use layla_os.Net.Wire.Read.{length-read, read-append}
use layla_os.Net.Wire.Swap.{ntohl-htonl}
use layla_os.Net.Ipv4.RoundTrip.{load16-htons}
use layla_os.Net.Tcp.{TcpSocket, tcp_header}

-- The socket's fields are `uint16_t` and `uint32_t`.
abbrev pub IsWords : TcpSocket → Type 0
IsWords t = (t.local_port < 2 ^ 16) × (t.remote_port < 2 ^ 16) × (t.seq < 2 ^ 32) × (t.ack < 2 ^ 32)

-- What the other side reads from the segment at the beginning of a buffer.
pub record Carries (flags : ℕ) (content : List ℕ) (size : ℕ) (t : TcpSocket) (buf : List ℕ)
    : Type 0 where
  pub source : ntohs (load16 buf 0) ≡ t.local_port
  pub target : ntohs (load16 buf 2) ≡ t.remote_port
  pub sequence : ntohl (load32 buf 4) ≡ t.seq
  pub acknowledges : ntohl (load32 buf 8) ≡ t.ack
  pub header_size : (load8 buf 12 >>> 4) * 4 ≡ 20
  pub flag_bits : load8 buf 13 ≡ flags
  pub window : ntohs (load16 buf 14) ≡ 8192
  pub bytes : read size (drop 20 buf) ≡ read size content

load32-htonl :
    (x : ℕ)
    → x < 2 ^ 32
    → ntohl (
        htonl x % 256
        + 256 * (htonl x / 256 % 256)
        + 65536 * (htonl x / 65536 % 256 + 256 * (htonl x / 16777216 % 256)))
      ≡ x
load32-htonl x h =
    let (back, small) = ntohl-htonl x h in
    ap htonl
      {x = htonl x % 256
        + 256 * (htonl x / 256 % 256)
        + 65536 * (htonl x / 65536 % 256 + 256 * (htonl x / 16777216 % 256))}
      {y = htonl x} (omega arith)
    ∙ back

pub header-Carries :
    (flags : ℕ) (content : List ℕ) (size : ℕ) (t : TcpSocket) (sum : ℕ) (rest : List ℕ)
    → IsWords t
    → Carries flags content size t ((tcp_header (bytes16 sum) t flags ++ read size content) ++ rest)
unfolding tcp_header
header-Carries flags content size t sum rest (source, target, seq, ack) = record {
  source = load16-htons t.local_port source;
  target = load16-htons t.remote_port target;
  sequence = load32-htonl t.seq seq;
  acknowledges = load32-htonl t.ack ack;
  header_size = refl;
  flag_bits = refl;
  window = load16-htons 8192 (omega arith);
  bytes = read-append size (read size content) rest (length-read size content);
}
