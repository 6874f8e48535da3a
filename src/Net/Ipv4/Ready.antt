-- ===== src/Net/Ipv4/Ready.antt =====
-- src/net/ipv4.cpp: a machine whose buffers are in place sends whatever fits.
use layla_os.Base.{
  ℕ, suc, ◌+◌, ◌≤◌, List, ◌++◌, some, Option-cases, Bool, true, false, leb, u16, add32, length,
  length-append, length-drop, drop, ◌≡◌, refl, inl, inr, arith,
}
use layla_os.Net.Wire.{Ipv4Address, read, write_at}
use layla_os.Net.Ethernet.Frame.{IsReady, send_frame_lem}
use layla_os.Net.Arp.{Link, resolve}
use layla_os.Net.Ipv4.{ethertype_ipv4, Ipv4Handler, ipv4_header, send_ipv4}
use layla_os.Net.Ipv4.RoundTrip.{length-ipv4_packet}

module _ {ℓ} {H : Type ℓ} where
  abbrev pub CanSend : Ipv4Handler H → Link → Type 0
  CanSend h l = (length h.tx_buf ≡ 1500) × IsReady l.card

  -- With at most 1480 bytes `Send` returns, leaves the machine able to send, and keeps its address.
  pub send_ipv4-CanSend :
      (dst : Ipv4Address) (protocol : ℕ) (payload : List ℕ) (size : ℕ) (h : Ipv4Handler H)
      (l : Link)
      → CanSend h l
      → size ≤ 1480
      → (ok : Bool) × (h' : Ipv4Handler H) × (l' : Link) × (send_ipv4 dst protocol payload size h l
          ≡ some (ok, h', l'))
        × CanSend h' l'
        × (h'.local_ip ≡ h.local_ip)
  unfolding send_ipv4 write_at
  send_ipv4-CanSend dst protocol payload size h l can small =
      let packet =
        ipv4_header (u16 (20 + size)) h.id_counter h.local_ip dst protocol ++ read size payload in
      let lp =
        length-ipv4_packet (u16 (20 + size)) h.id_counter size protocol h.local_ip dst payload in
      let buffer = can.0 in
      let fits : leb (0 + length packet) (length h.tx_buf) ≡ true = ground arith in
      let rest = drop (0 + length packet) h.tx_buf in
      elim (Option-cases (resolve dst l.cache)) [
        | inl q ↦ (false, h, l, rw (send_ipv4, q) refl, can, refl)
        | inr q ↦
            let out =
              send_frame_lem q.0 ethertype_ipv4 (packet ++ rest) (add32 20 size) l.card can.1
                (omega arith) in
            (
              true,
              record {
                local_ip = h.local_ip;
                id_counter = u16 (suc h.id_counter);
                handlers = h.handlers;
                handler_count = h.handler_count;
                tx_buf = packet ++ rest;
              },
              record { card = out.1; cache = l.cache },
              rw (send_ipv4, write_at, q.1, fits, out.2) refl,
              (
                omega (arith, length-append packet rest, length-drop (0 + length packet) h.tx_buf),
                out.6,
              ),
              refl,
            )
      ]
