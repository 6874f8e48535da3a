-- ===== src/Net/Ipv4/RoundTrip.antt =====
-- src/net/ipv4.cpp: what `Send` of one machine puts on the wire and what `HandleEthernetPayload` of
-- another makes of it.
use layla_os.Base.{
  ℕ, suc, ◌+◌, ◌-◌, ◌*◌, ◌/◌, ◌%◌, ◌^◌, ◌≤◌, ◌<◌, List, [], ◌∷◌, ◌++◌, some, true, false, ltb, leb,
  u16, add32, sub32, length, length-append, length-drop, drop, append_assoc, ◌≡◌, refl, ap, ◌∙◌,
  arith,
}
use layla_os.Net.Wire.{Ipv4Address, ip_bytes, MacAddress, bytes16, htons, ntohs, read, write_at}
use layla_os.Net.Wire.Swap.{htons-lt, ntohs-htons}
use layla_os.Net.Checksum.{internet_checksum}
use layla_os.Net.Checksum.Verify.{IsBytes, internet_checksum-bytes16}
use layla_os.Net.Ethernet.{frame_bytes}
use layla_os.Net.Wire.Read.{length-read, read-append}
use layla_os.Net.Ethernet.Frame.{IsReady, send_frame_lem, length-frame_bytes}
use layla_os.Net.Arp.{Link, with_card, resolve}
use layla_os.Net.Arp.Cache.{ip_eq_refl}
use layla_os.Net.Ipv4.{
  ethertype_ipv4, Ipv4Handler, Ipv4Call, header_with, ipv4_header, protocol_loop, deliver,
  send_ipv4,
}

-- The checksum of the header verifies.
ipv4_header_checksum :
    (total id protocol : ℕ) (src dst : Ipv4Address)
    → IsBytes (protocol ∷ (ip_bytes src ++ ip_bytes dst))
    → internet_checksum (ipv4_header total id src dst protocol) ≡ 0
unfolding ipv4_header header_with
ipv4_header_checksum total id protocol src dst bytes =
    internet_checksum-bytes16 5
      (0x45
        ∷ (0
            ∷ (bytes16 (htons total)
                ++ (bytes16 (htons id) ++ (0 ∷ (0 ∷ (64 ∷ (protocol ∷ []))))))))
      (ip_bytes src ++ ip_bytes dst) refl
      (let p = bytes.0 in
        (
          omega arith,
          (
            omega arith,
            (
              omega arith,
              (
                omega arith,
                (
                  omega arith,
                  (omega arith, (omega arith, (omega arith, (omega arith, (omega arith, tt))))),
                ),
              ),
            ),
          ),
        ))
      bytes.1 (omega arith)

pub load16-htons : (x : ℕ) → x < 2 ^ 16 → ntohs (htons x % 256 + 256 * (htons x / 256 % 256)) ≡ x
load16-htons x h =
    let small = htons-lt x in
    ap htons {x = htons x % 256 + 256 * (htons x / 256 % 256)} {y = htons x} (omega arith)
    ∙ ntohs-htons x h

pub length-ipv4_packet :
    (total id size protocol : ℕ) (src dst : Ipv4Address) (payload : List ℕ)
    → length (ipv4_header total id src dst protocol ++ read size payload) ≡ 20 + size
unfolding ipv4_header header_with
length-ipv4_packet total id size protocol src dst payload = omega (arith, length-read size payload)

module _ {ℓ} {H : Type ℓ} where
  -- The calls for one packet, one for each handler of the protocol.
  abbrev pub calls : Ipv4Handler H → List ℕ → ℕ → Ipv4Address → Ipv4Address → ℕ → List (Ipv4Call H)
  calls h payload size src dst protocol =
      protocol_loop protocol
        (λ p. record {
          callee = p;
          payload = payload;
          size = size;
          src = src;
          dst = dst;
          protocol = protocol;
        })
        h.handler_count h.handlers

  deliver-header :
      (h : Ipv4Handler H) (total id protocol size : ℕ) (src : Ipv4Address) (rest : List ℕ)
      → total < 2 ^ 16
      → IsBytes (protocol ∷ (ip_bytes src ++ ip_bytes h.local_ip))
      → 20 ≤ size
      → deliver h (ipv4_header total id src h.local_ip protocol ++ rest) size
        ≡ calls h rest (sub32 total 20) src h.local_ip protocol
  unfolding deliver ipv4_header header_with
  deliver-header h total id protocol size src rest small bytes enough =
      let checks = ipv4_header_checksum total id protocol src h.local_ip bytes in
      let big : ltb size 20 ≡ false = ground arith in
      rw (big, ip_eq_refl h.local_ip, checks)
        (ap (λ (t : ℕ). calls h rest (sub32 t 20) src h.local_ip protocol)
          (load16-htons total small))

  -- The payload size that a handler is given is the length field of the header less 20, modulo 2^32,
  -- whatever number of bytes arrived: a length below 20 wraps around, and one that is larger than the
  -- packet is passed on as it is.
  pub deliver_unchecked :
      (h : Ipv4Handler H) (total id protocol : ℕ) (src : Ipv4Address) (rest : List ℕ)
      → total < 2 ^ 16
      → IsBytes (protocol ∷ (ip_bytes src ++ ip_bytes h.local_ip))
      → (deliver h (ipv4_header total id src h.local_ip protocol ++ rest) (20 + length rest)
          ≡ calls h rest (sub32 total 20) src h.local_ip protocol)
        × (total < 20 → 4294967276 ≤ sub32 total 20)
        × (20 + length rest < total → length rest < sub32 total 20)
  deliver_unchecked h total id protocol src rest small bytes = (
    deliver-header h total id protocol (20 + length rest) src rest small bytes (omega arith),
    λ short. omega arith,
    λ long. omega arith,
  )

  -- A packet round trip. When the destination resolves, the card works and the payload has at most
  -- 1480 bytes, `Send` answers true and puts one frame on the wire; the machine with the destination
  -- address, which is given the frame's payload, calls each of its handlers for the protocol with
  -- exactly the bytes sent (and the padding of a short frame after them), their number, and the two
  -- addresses.
  pub deliver-send_ipv4 :
      (s r : Ipv4Handler H) (l : Link) (dst_mac : MacAddress) (protocol size : ℕ) (payload : List ℕ)
      → resolve r.local_ip l.cache ≡ some dst_mac
      → IsReady l.card
      → length s.tx_buf ≡ 1500
      → size ≤ 1480
      → IsBytes (protocol ∷ (ip_bytes s.local_ip ++ ip_bytes r.local_ip))
      → (s' : Ipv4Handler H) × (l' : Link) × (frame pad : List ℕ) × (send_ipv4 r.local_ip protocol
            payload size s l
          ≡ some (true, s', l'))
        × (l'.card.sent ≡ l.card.sent ++ (frame ∷ []))
        × (deliver r (drop 14 frame) (length frame - 14)
            ≡ calls r (read size payload ++ pad) size s.local_ip r.local_ip protocol)
        × (length s'.tx_buf ≡ 1500)
  unfolding send_ipv4 write_at frame_bytes
  deliver-send_ipv4 s r l dst_mac protocol size payload known ready buffer small bytes =
      let header = ipv4_header (u16 (20 + size)) s.id_counter s.local_ip r.local_ip protocol in
      let packet = header ++ read size payload in
      let lp : length packet ≡ 20 + size =
        length-ipv4_packet (u16 (20 + size)) s.id_counter size protocol s.local_ip r.local_ip
          payload in
      let fits : leb (0 + length packet) (length s.tx_buf) ≡ true = ground arith in
      let rest = drop (0 + length packet) s.tx_buf in
      let out =
        send_frame_lem dst_mac ethertype_ipv4 (packet ++ rest) (add32 20 size) l.card ready
          (omega arith) in
      let frame =
        frame_bytes dst_mac l.card.mac ethertype_ipv4 (packet ++ rest) (add32 20 size) ++ out.0 in
      let lf : length frame ≡ 34 + size + length out.0 = omega (
        arith,
        length-append
            (frame_bytes dst_mac l.card.mac ethertype_ipv4 (packet ++ rest) (add32 20 size)) out.0,
        length-frame_bytes dst_mac l.card.mac ethertype_ipv4 (packet ++ rest) (add32 20 size),
      ) in
      let carried : drop 14 frame ≡ header ++ (read size payload ++ out.0) =
        ap (λ (t : List ℕ). t ++ out.0) (read-append (add32 20 size) packet rest (omega arith))
        ∙ append_assoc header (read size payload) out.0 in
      (
        record {
          local_ip = s.local_ip;
          id_counter = u16 (suc s.id_counter);
          handlers = s.handlers;
          handler_count = s.handler_count;
          tx_buf = packet ++ rest;
        },
        with_card l out.1,
        frame,
        out.0,
        rw (send_ipv4, write_at, known, fits, out.2) refl,
        out.4,
        ap (λ (t : List ℕ). deliver r t (length frame - 14)) carried
            ∙ (deliver-header r (u16 (20 + size)) s.id_counter protocol (length frame - 14)
                s.local_ip (read size payload ++ out.0) (omega arith) bytes (omega arith))
            ∙ ap (λ (t : ℕ). calls r (read size payload ++ out.0) t s.local_ip r.local_ip protocol)
                {x = sub32 (u16 (20 + size)) 20} {y = size} (omega arith),
        omega (arith, length-append packet rest, length-drop (0 + length packet) s.tx_buf),
      )
