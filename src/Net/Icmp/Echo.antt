-- ===== src/Net/Icmp/Echo.antt =====
-- src/net/icmp.cpp: the answer to an echo request.
use layla_os.Base.{
  ℕ, zero, suc, ◌+◌, ◌≤◌, List, [], ◌∷◌, ◌++◌, some, Bool, true, false, ltb, leb, ◌!=◌, length,
  length-drop, drop, ◌≡◌, refl, ap, ◌∙◌, arith,
}
use layla_os.Net.Wire.{Ipv4Address, load8, read, write_at}
use layla_os.Net.Checksum.{internet_checksum}
use layla_os.Net.Checksum.Verify.{IsBytes, internet_checksum-bytes16}
use layla_os.Net.Wire.Read.{length-read, read-append}
use layla_os.Net.Arp.{Link}
use layla_os.Net.Ipv4.{Ipv4Handler, send_ipv4}
use layla_os.Net.Ipv4.Ready.{CanSend, send_ipv4-CanSend}
use layla_os.Net.Icmp.{
  ipv4_proto_icmp, icmp_echo_reply, icmp_echo_request, reply_size, echo_reply, handle_icmp,
}

reply_size-le : (size : ℕ) → reply_size size ≤ 64
unfolding reply_size
reply_size-le size = ground arith

reply_size-least : (size : ℕ) → 8 ≤ size → 4 ≤ reply_size size
unfolding reply_size
reply_size-least size h = ground arith

IsBytes-drop : (k : ℕ) (xs : List ℕ) → IsBytes xs → IsBytes (drop k xs)
IsBytes-drop zero xs b = b
IsBytes-drop (suc k) [] b = b
IsBytes-drop (suc k) (x ∷ xs) b = IsBytes-drop k xs b.1

-- The reply is the request, cut to 64 bytes, with type and code 0 and a checksum that verifies: its
-- identifier, sequence number and data are those of the request.
echo_reply_lem :
    (payload : List ℕ) (n : ℕ)
    → 4 ≤ n
    → n ≤ 64
    → IsBytes (read n payload)
    → (internet_checksum (echo_reply payload n) ≡ 0)
      × (length (echo_reply payload n) ≡ n)
      × (load8 (echo_reply payload n) 0 ≡ icmp_echo_reply)
      × (load8 (echo_reply payload n) 1 ≡ 0)
      × (drop 4 (echo_reply payload n) ≡ drop 4 (read n payload))
unfolding echo_reply
echo_reply_lem payload n low high bytes =
    let rest = drop 4 (read n payload) in
    (
      internet_checksum-bytes16 1 (icmp_echo_reply ∷ (0 ∷ [])) rest refl
          (omega arith, (omega arith, tt)) (IsBytes-drop 4 (read n payload) bytes)
          (omega (arith, length-drop 4 (read n payload), length-read n payload)),
      omega (arith, length-drop 4 (read n payload), length-read n payload),
      refl,
      refl,
      refl,
    )

module _ {ℓ} {H : Type ℓ} where
  -- An echo request of at least 8 bytes is answered: the handler returns with the machine able to send,
  -- and the message that it hands to IPv4 has type and code 0, a checksum that verifies, and from the
  -- identifier on the request's own bytes, up to 64 in all.
  pub handle_icmp_lem :
      (payload : List ℕ) (size : ℕ) (src : Ipv4Address) (tx_buf : List ℕ) (h : Ipv4Handler H)
      (l : Link)
      → CanSend h l
      → length tx_buf ≡ 64
      → 8 ≤ size
      → load8 payload 0 ≡ icmp_echo_request
      → IsBytes (read (reply_size size) payload)
      → (buf : List ℕ) × (ok : Bool) × (h' : Ipv4Handler H) × (l' : Link) × (handle_icmp payload
            size src tx_buf h l
          ≡ some (buf, h', l'))
        × (send_ipv4 src ipv4_proto_icmp buf (reply_size size) h l ≡ some (ok, h', l'))
        × CanSend h' l'
        × (internet_checksum (read (reply_size size) buf) ≡ 0)
        × (load8 buf 0 ≡ icmp_echo_reply)
        × (load8 buf 1 ≡ 0)
        × (drop 4 (read (reply_size size) buf) ≡ drop 4 (read (reply_size size) payload))
  unfolding handle_icmp write_at echo_reply
  handle_icmp_lem payload size src tx_buf h l can whole large request bytes =
      let n = reply_size size in
      let under = reply_size-le size in
      let e = echo_reply_lem payload n (reply_size-least size large) under bytes in
      let le = e.1 in
      let big : ltb size 8 ≡ false = ground arith in
      let asked : (load8 payload 0 != icmp_echo_request) ≡ false = rw request refl in
      let fits : leb (0 + length (echo_reply payload n)) (length tx_buf) ≡ true = ground arith in
      let buf = echo_reply payload n ++ drop (0 + length (echo_reply payload n)) tx_buf in
      let same =
        read-append n (echo_reply payload n) (drop (0 + length (echo_reply payload n)) tx_buf) le in
      let out = send_ipv4-CanSend src ipv4_proto_icmp buf n h l can (omega arith) in
      (
        buf,
        out.0,
        out.1,
        out.2,
        rw (handle_icmp, write_at, big, asked, fits, out.3) refl,
        out.3,
        out.4,
        ap internet_checksum same ∙ e.0,
        refl,
        refl,
        ap (drop 4) same ∙ e.4,
      )
