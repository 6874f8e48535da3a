-- ===== src/Net/Udp/RoundTrip.antt =====
-- src/net/udp.cpp over src/net/ipv4.cpp: a datagram from one machine's socket to another's.
use layla_os.Base.{
  ℕ, ◌+◌, ◌-◌, ◌^◌, ◌≤◌, ◌<◌, List, [], ◌∷◌, ◌++◌, some, true, false, ltb, leb, ◌!=◌, u16, sub32,
  length, drop, append_assoc, ◌≡◌, refl, ap, ap₂, ◌∙◌, arith,
}
use layla_os.Net.Wire.{Ipv4Address, ip_bytes, MacAddress, read, write_at}
use layla_os.Net.Checksum.Verify.{IsBytes}
use layla_os.Net.Ethernet.Frame.{IsReady}
use layla_os.Net.Wire.Read.{length-read, read-append}
use layla_os.Net.Arp.{Link, resolve}
use layla_os.Net.Ipv4.{Ipv4Handler, deliver}
use layla_os.Net.Ipv4.RoundTrip.{calls, deliver-send_ipv4, load16-htons}
use layla_os.Net.Udp.{ipv4_proto_udp, UdpSocket, udp_header, receive_udp, clip_udp, send_udp}

clip_udp-le : (size : ℕ) → clip_udp size ≤ 1464
unfolding clip_udp
clip_udp-le size = ground arith

receive_udp-header :
    (s : UdpSocket) (src_port size n : ℕ) (content : List ℕ) (src : Ipv4Address)
    → src_port < 2 ^ 16
    → s.local_port < 2 ^ 16
    → n ≤ 1464
    → receive_udp s (udp_header src_port s.local_port n ++ content) (8 + n) src
      ≡ some (record { src_ip = src; src_port = src_port; content = content; size = n })
unfolding receive_udp udp_header
receive_udp-header s src_port size n content src hs hd hn =
    let big : ltb (8 + n) 8 ≡ false = ground arith in
    let port = load16-htons s.local_port hd in
    let same : (s.local_port != s.local_port) ≡ false = ground arith in
    rw (big, port, same)
      (ap₂ (λ (a b : ℕ). some (record { src_ip = src; src_port = a; content = content; size = b }))
        (load16-htons src_port hs)
        (ap (λ (k : ℕ). sub32 k 8) (load16-htons (u16 (8 + n)) (omega arith)) ∙ omega arith))

length-udp_header :
    (src_port dst_port n : ℕ) (chunk : List ℕ)
    → length chunk ≡ n
    → length (udp_header src_port dst_port n ++ chunk) ≡ 8 + n
unfolding udp_header
length-udp_header src_port dst_port n chunk e = omega (arith, e)

module _ {ℓ} {H : Type ℓ} where
  -- A datagram round trip. When the destination resolves and the card works, `Send` answers true and
  -- puts one frame on the wire; the machine with the destination address hands its payload to the UDP
  -- handlers, and there the socket bound to the destination port receives the sender's address and
  -- port and the data, cut to 1464 bytes, and its length. The buffers of the sender's socket and of
  -- its machine are in place, the two ports are 16-bit words, and the addresses are bytes.
  pub receive_udp-send :
      (s s2 : UdpSocket) (h r : Ipv4Handler H) (l : Link) (dst_mac : MacAddress) (src_port size : ℕ)
      (content : List ℕ)
      → resolve r.local_ip l.cache ≡ some dst_mac
      → IsReady l.card
      → length s.tx_buf ≡ 1472
      → length h.tx_buf ≡ 1500
      → src_port < 2 ^ 16
      → s2.local_port < 2 ^ 16
      → IsBytes (ip_bytes h.local_ip ++ ip_bytes r.local_ip)
      → (s' : UdpSocket) × (h' : Ipv4Handler H) × (l' : Link) × (frame datagram pad : List ℕ)
        × (send_udp r.local_ip s2.local_port src_port content size s h l ≡ some (true, s', h', l'))
        × (l'.card.sent ≡ l.card.sent ++ (frame ∷ []))
        × (deliver r (drop 14 frame) (length frame - 14)
            ≡ calls r datagram (8 + clip_udp size) h.local_ip r.local_ip ipv4_proto_udp)
        × (receive_udp s2 datagram (8 + clip_udp size) h.local_ip
            ≡ some (record {
              src_ip = h.local_ip;
              src_port = src_port;
              content = read (clip_udp size) content ++ pad;
              size = clip_udp size;
            }))
  unfolding send_udp write_at
  receive_udp-send s s2 h r l dst_mac src_port size content known ready buffer1 buffer2 hs hd ips =
      let n = clip_udp size in
      let cut = clip_udp-le size in
      let chunk = read n content in
      let lc = length-read n content in
      let bytes = udp_header src_port s2.local_port n ++ chunk in
      let lb : length bytes ≡ 8 + n = length-udp_header src_port s2.local_port n chunk lc in
      let fits : leb (0 + length bytes) (length s.tx_buf) ≡ true = ground arith in
      let buf = bytes ++ drop (0 + length bytes) s.tx_buf in
      let out =
        deliver-send_ipv4 h r l dst_mac ipv4_proto_udp (8 + n) buf known ready buffer2 (omega arith)
          (omega arith, ips) in
      let payload : read (8 + n) buf ++ out.3
          ≡ udp_header src_port s2.local_port n ++ (chunk ++ out.3) =
        ap (λ (t : List ℕ). t ++ out.3)
          (read-append (8 + n) bytes (drop (0 + length bytes) s.tx_buf) lb)
        ∙ append_assoc (udp_header src_port s2.local_port n) chunk out.3 in
      (
        record { local_port = s.local_port; tx_buf = buf },
        out.0,
        out.1,
        out.2,
        udp_header src_port s2.local_port n ++ (chunk ++ out.3),
        out.3,
        rw (send_udp, write_at, fits, out.4) refl,
        out.5,
        out.6 ∙ ap (λ (t : List ℕ). calls r t (8 + n) h.local_ip r.local_ip ipv4_proto_udp) payload,
        receive_udp-header s2 src_port size n (chunk ++ out.3) h.local_ip hs hd cut,
      )
