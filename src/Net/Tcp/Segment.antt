-- ===== src/Net/Tcp/Segment.antt =====
-- src/net/tcp.cpp, `SendSegment` and `ComputeChecksum`: the segment that goes out.
use layla_os.Base.{
  ℕ, ◌+◌, ◌≤◌, ◌<◌, Bool, Bool-cases, inl, inr, ◌⊎◌, sym, subst, List, [], ◌∷◌, ◌++◌, none, some,
  true, false, ◌||◌, if◌then◌else◌, ltb, leb, ◌!=◌, bit_and, u16, add32, length, length-append,
  length-drop, drop, ◌≡◌, refl, ap, ◌∙◌, arith,
}
use layla_os.Net.Wire.{Ipv4Address, ip_bytes, bytes16, bytes32, htons, htonl, read, write_at}
use layla_os.Net.Checksum.{internet_checksum}
use layla_os.Net.Checksum.Verify.{
  IsBytes, IsBytes-append, IsBytes-bytes16, IsBytes-bytes32, internet_checksum-bytes16,
}
use layla_os.Net.Wire.Read.{length-read, read-append}
use layla_os.Net.Arp.{Link}
use layla_os.Net.Ipv4.{Ipv4Handler, send_ipv4}
use layla_os.Net.Ipv4.Ready.{CanSend, send_ipv4-CanSend}
use layla_os.Net.Tcp.Header.{IsWords, Carries, header-Carries}
use layla_os.Net.Tcp.{
  ipv4_proto_tcp, tcp_syn, tcp_fin, TcpSocket, pseudo_header, compute_checksum, tcp_header,
  send_segment,
}

-- The socket after a segment: the sequence number moves on, the buffer holds the segment.
abbrev pub after_segment : ℕ → ℕ → List ℕ → TcpSocket → TcpSocket
after_segment flags size buf t = record {
  local_port = t.local_port;
  remote_port = t.remote_port;
  remote_ip = t.remote_ip;
  state = t.state;
  seq =
      (if bit_and flags tcp_syn != 0 || bit_and flags tcp_fin != 0
        then add32 t.seq 1
        else add32 t.seq size);
  ack = t.ack;
  rx_buf = t.rx_buf;
  tx_buf = buf;
}

abbrev pub is_control : ℕ → Bool
is_control flags = bit_and flags tcp_syn != 0 || bit_and flags tcp_fin != 0

-- The checksum over the pseudo header and the segment in the buffer verifies.
abbrev pub Verifies : Ipv4Address → Ipv4Address → ℕ → List ℕ → Type 0
Verifies src dst seg_len buf =
    internet_checksum (pseudo_header src dst seg_len ++ read seg_len buf) ≡ 0

segment_checksum :
    (src dst : Ipv4Address) (t : TcpSocket) (flags seg_len : ℕ) (content : List ℕ)
    → IsBytes (ip_bytes src ++ ip_bytes dst)
    → flags < 256
    → IsBytes content
    → length content ≤ 2000
    → internet_checksum (
        pseudo_header src dst seg_len
        ++ (tcp_header
              (bytes16 (
                internet_checksum (
                  pseudo_header src dst seg_len ++ (tcp_header (0 ∷ (0 ∷ [])) t flags ++ content))))
              t
              flags
            ++ content))
      ≡ 0
unfolding pseudo_header tcp_header
segment_checksum src dst t flags seg_len content ips small bytes short =
    let offset = 80 ∷ (flags ∷ bytes16 (htons 8192)) in
    let acked = bytes32 (htonl t.ack) ++ offset in
    let numbered = bytes32 (htonl t.seq) ++ acked in
    let remote = bytes16 (htons t.remote_port) ++ numbered in
    let ports = bytes16 (htons t.local_port) ++ remote in
    let fields = bytes16 (htons (u16 seg_len)) ++ ports in
    let offset_bytes : IsBytes offset =
      (omega arith, (small, IsBytes-bytes16 (htons 8192) [] tt)) in
    let front_bytes : IsBytes (0 ∷ (ipv4_proto_tcp ∷ fields)) = (
      omega arith,
      (
        omega arith,
        IsBytes-bytes16 (htons (u16 seg_len)) ports (
            IsBytes-bytes16 (htons t.local_port) remote (
              IsBytes-bytes16 (htons t.remote_port) numbered (
                IsBytes-bytes32 (htonl t.seq) acked
                  (IsBytes-bytes32 (htonl t.ack) offset offset_bytes)))),
      ),
    ) in
    internet_checksum-bytes16 14 (ip_bytes src ++ (ip_bytes dst ++ (0 ∷ (ipv4_proto_tcp ∷ fields))))
      (0 ∷ (0 ∷ content)) refl
      (IsBytes-append (ip_bytes src ++ ip_bytes dst) (0 ∷ (ipv4_proto_tcp ∷ fields)) ips
        front_bytes)
      (omega arith, (omega arith, bytes)) (omega arith)

module _ {ℓ} {H : Type ℓ} where
  -- The call returns, with the buffer that it hands to IPv4.
  pub segment_sent :
      (flags : ℕ) (content : List ℕ) (size : ℕ) (t : TcpSocket) (h : Ipv4Handler H) (l : Link)
      → CanSend h l
      → length t.tx_buf ≡ 1480
      → size ≤ 1460
      → flags < 256
      → IsBytes (ip_bytes h.local_ip ++ ip_bytes t.remote_ip)
      → IsBytes (read size content)
      → (buf : List ℕ) × (h' : Ipv4Handler H) × (l' : Link) × (send_segment flags content size t h l
          ≡ some (after_segment flags size buf t, h', l'))
        × Verifies h.local_ip t.remote_ip (20 + size) buf
        × (length buf ≡ 1480)
        × CanSend h' l'
        × (h'.local_ip ≡ h.local_ip)
        × (sum : ℕ) × (rest : List ℕ) × (ok : Bool) × (buf
            ≡ (tcp_header (bytes16 sum) t flags ++ read size content) ++ rest)
        × (send_ipv4 t.remote_ip ipv4_proto_tcp buf (20 + size) h l ≡ some (ok, h', l'))
  unfolding send_segment tcp_header compute_checksum write_at
  segment_sent flags content size t h l can whole small octet ips bytes =
      let chunk = read size content in
      let lc = length-read size content in
      let zeros = tcp_header (0 ∷ (0 ∷ [])) t flags ++ chunk in
      let fits : leb (0 + length zeros) (length t.tx_buf) ≡ true = ground arith in
      let rest = drop (0 + length zeros) t.tx_buf in
      let sum = internet_checksum (pseudo_header h.local_ip t.remote_ip (20 + size) ++ zeros) in
      let no_overrun : ltb 1500 (12 + (20 + size)) ≡ false = ground arith in
      let summed : compute_checksum h.local_ip t.remote_ip (zeros ++ rest) (20 + size) ≡ some sum =
        rw (compute_checksum, no_overrun)
          (ap
            (λ (b : List ℕ).
              some (internet_checksum (pseudo_header h.local_ip t.remote_ip (20 + size) ++ b)))
            (read-append (20 + size) zeros rest (omega arith))) in
      let buf = (tcp_header (bytes16 sum) t flags ++ chunk) ++ rest in
      let lb : length (zeros ++ rest) ≡ 1480 =
        omega (arith, length-append chunk rest, length-drop (0 + length zeros) t.tx_buf) in
      let room : leb 18 (length (zeros ++ rest)) ≡ true = ground arith in
      let out =
        send_ipv4-CanSend t.remote_ip ipv4_proto_tcp buf (20 + size) h l can (omega arith) in
      (
        buf,
        out.1,
        out.2,
        rw (send_segment, write_at, fits, summed, room, out.3) refl,
        ap
              (λ (b : List ℕ).
                internet_checksum (pseudo_header h.local_ip t.remote_ip (20 + size) ++ b))
              (read-append (20 + size) (tcp_header (bytes16 sum) t flags ++ chunk) rest
                (omega arith))
            ∙ segment_checksum h.local_ip t.remote_ip t flags (20 + size) chunk ips octet bytes
                (omega arith),
        omega (arith, length-append chunk rest, length-drop (0 + length zeros) t.tx_buf),
        out.4,
        out.5,
        sum,
        rest,
        out.0,
        refl,
        out.3,
      )

  -- A segment with at most 1460 bytes of data: SendSegment hands a buffer to IPv4, whose first 20 bytes
  -- and the size are the segment: the ports, the numbers and the flags of the socket and the call, a
  -- header of 20 bytes, the data, and a checksum that verifies over the pseudo header. The sequence
  -- number moves by one for a SYN or a FIN and by the size otherwise, nothing else of the socket but
  -- the buffer changes, and the machine can send again. The socket's buffer has 1480 bytes, the
  -- machine can send, the socket's ports, its numbers and the flags are machine words, and the
  -- addresses and the data are bytes.
  pub send_segment_lem :
      (flags : ℕ) (content : List ℕ) (size : ℕ) (t : TcpSocket) (h : Ipv4Handler H) (l : Link)
      → CanSend h l
      → IsWords t
      → length t.tx_buf ≡ 1480
      → size ≤ 1460
      → flags < 256
      → IsBytes (ip_bytes h.local_ip ++ ip_bytes t.remote_ip)
      → IsBytes (read size content)
      → (t' : TcpSocket) × (ok : Bool) × (h' : Ipv4Handler H) × (l' : Link) × (send_segment flags
            content size t h l
          ≡ some (t', h', l'))
        × (send_ipv4 t.remote_ip ipv4_proto_tcp t'.tx_buf (20 + size) h l ≡ some (ok, h', l'))
        × Carries flags content size t t'.tx_buf
        × Verifies h.local_ip t.remote_ip (20 + size) t'.tx_buf
        × (t' ≡ record t { seq = t'.seq; tx_buf = t'.tx_buf })
        × ((is_control flags ≡ true) × (t'.seq ≡ add32 t.seq 1)
            ⊎ (is_control flags ≡ false) × (t'.seq ≡ add32 t.seq size))
        × (length t'.tx_buf ≡ 1480)
        × CanSend h' l'
        × (h'.local_ip ≡ h.local_ip)
  send_segment_lem flags content size t h l can words whole small octet ips bytes =
      let (buf, h', l', eq, sums, len, again, ip, sum, rest, ok, is, sent) =
        segment_sent flags content size t h l can whole small octet ips bytes in
      (
        after_segment flags size buf t,
        ok,
        h',
        l',
        eq,
        sent,
        subst (Carries flags content size t) (sym is)
            (header-Carries flags content size t sum rest words),
        sums,
        refl,
        elim (Bool-cases (is_control flags)) [
          | inl control ↦ inl (control, rw control refl)
          | inr other ↦ inr (other, rw other refl)
        ],
        len,
        again,
        ip,
      )

  -- With more data than that, the copy runs past the end of the transmit buffer.
  pub send_segment_overflow :
      (flags : ℕ) (content : List ℕ) (size : ℕ) (t : TcpSocket) (h : Ipv4Handler H) (l : Link)
      → length t.tx_buf ≡ 1480
      → 1460 < size
      → send_segment flags content size t h l ≡ none
  unfolding send_segment tcp_header write_at
  send_segment_overflow flags content size t h l whole large =
      let lc = length-read size content in
      let over : leb (0 + length (tcp_header (0 ∷ (0 ∷ [])) t flags ++ read size content))
            (length t.tx_buf)
          ≡ false =
        ground arith in
      rw over refl
