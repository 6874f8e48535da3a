-- ===== src/Net/Arp/Exchange.antt =====
-- src/net/arp.cpp: two machines on one wire, from the request to the resolved address.
use layla_os.Base.{
  ℕ, ◌-◌, List, [], ◌∷◌, ◌++◌, Option, some, ◌>>=◌, ltb, ◌≡◌, refl, ap, ◌∙◌, true, false, length,
  drop, arith,
}
use layla_os.Net.Wire.{Ipv4Address, MacAddress, mac, broadcast, htons}
use layla_os.Net.Ethernet.{Rtl8139, frame_bytes}
use layla_os.Net.Ethernet.Frame.{IsReady, send_frame_lem}
use layla_os.Net.Arp.{
  ethertype_arp, arp_request, arp_reply, ArpCacheEntry, Link, with_card, with_cache, arp_packet,
  cache_set, resolve, send_request, send_reply, handle_ethernet_payload,
}
use layla_os.Net.Arp.Cache.{has_room, ip_eq_refl, cache_get-set}

-- One frame more went out.
abbrev pub Transmits : Link → List ℕ → Link → Type 0
Transmits l frame l' = l'.card.sent ≡ l.card.sent ++ (frame ∷ [])

-- The handler's run on the payload of a frame, as `Dispatch` calls it.
abbrev pub receive : Ipv4Address → List ℕ → Link → Option Link
receive local_ip frame l = handle_ethernet_payload local_ip (drop 14 frame) (length frame - 14) l

-- What an ARP frame looks like on the wire.
abbrev arp_frame : ℕ → MacAddress → MacAddress → Ipv4Address → MacAddress → Ipv4Address → List ℕ
arp_frame opcode dst sender_mac sender_ip target_mac target_ip =
    frame_bytes dst sender_mac ethertype_arp
      (arp_packet opcode sender_mac sender_ip target_mac target_ip) 28

-- A request for the local address is answered to the sender, whose address is learnt.
receive-request :
    (local_ip sender_ip : Ipv4Address) (dst sender_mac target_mac : MacAddress) (pad : List ℕ)
    (l : Link)
    → IsReady l.card
    → (l' : Link) × (pad' : List ℕ) × (receive local_ip
          (arp_frame arp_request dst sender_mac sender_ip target_mac local_ip ++ pad)
          l
        ≡ some l')
      × Transmits l
          (arp_frame arp_reply sender_mac l.card.mac local_ip sender_mac sender_ip ++ pad')
          l'
      × (l'.cache ≡ cache_set sender_ip sender_mac l.cache)
unfolding htons frame_bytes arp_packet handle_ethernet_payload send_reply
receive-request local_ip sender_ip dst sender_mac target_mac pad l ready =
    let frame = arp_frame arp_request dst sender_mac sender_ip target_mac local_ip ++ pad in
    let big : ltb (length frame - 14) 28 ≡ false = ground arith in
    let learnt = with_cache l (cache_set sender_ip sender_mac l.cache) in
    let out =
      send_frame_lem sender_mac ethertype_arp
        (arp_packet arp_reply l.card.mac local_ip sender_mac sender_ip) 28 l.card ready
        (omega arith) in
    let card = out.1 in
    rw (big, ip_eq_refl local_ip)
      (
        with_card learnt card,
        out.0,
        ap (λ (o : Option Rtl8139). o >>= λ c. some (with_card learnt c)) out.2,
        out.4,
        refl,
      )

-- A reply is learnt, and nothing goes out.
receive-reply :
    (local_ip sender_ip : Ipv4Address) (dst sender_mac target_mac : MacAddress) (pad : List ℕ)
    (l : Link)
    → receive local_ip (arp_frame arp_reply dst sender_mac sender_ip target_mac local_ip ++ pad) l
      ≡ some (with_cache l (cache_set sender_ip sender_mac l.cache))
unfolding htons frame_bytes arp_packet handle_ethernet_payload
receive-reply local_ip sender_ip dst sender_mac target_mac pad l =
    let frame = arp_frame arp_reply dst sender_mac sender_ip target_mac local_ip ++ pad in
    let big : ltb (length frame - 14) 28 ≡ false = ground arith in rw big refl

-- An address that is set while an entry is free is resolved.
resolve-set :
    (ip : Ipv4Address) (m : MacAddress) (es : List ArpCacheEntry)
    → has_room es ≡ true
    → resolve ip (cache_set ip m es) ≡ some m
resolve-set ip m es room = cache_get-set ip ip m es ∙ rw (ip_eq_refl ip) (ground arith)

-- A request for the address of the other machine on the wire goes out as a broadcast; the other
-- machine answers it, and after its answer each of the two resolves the other's address to the other's
-- MAC, where each has a free cache entry and a working card. The answer is not answered.
pub resolve-exchange :
    (ip_a ip_b : Ipv4Address) (la lb : Link)
    → IsReady la.card
    → IsReady lb.card
    → has_room la.cache ≡ true
    → has_room lb.cache ≡ true
    → (request reply : List ℕ) × (la1 lb1 la2 : Link) × (send_request ip_a ip_b la ≡ some la1)
      × Transmits la request la1
      × (receive ip_b request lb ≡ some lb1)
      × Transmits lb reply lb1
      × (receive ip_a reply la1 ≡ some la2)
      × (la2.card ≡ la1.card)
      × (resolve ip_a lb1.cache ≡ some la.card.mac)
      × (resolve ip_b la2.cache ≡ some lb.card.mac)
unfolding send_request
resolve-exchange ip_a ip_b la lb ra rb rooma roomb =
    let zero_mac = mac 0 0 0 0 0 0 in
    let out =
      send_frame_lem broadcast ethertype_arp (arp_packet arp_request la.card.mac ip_a zero_mac ip_b)
        28 la.card ra (omega arith) in
    let la1 = with_card la out.1 in
    let answer = receive-request ip_b ip_a broadcast la.card.mac zero_mac out.0 lb rb in
    (
      arp_frame arp_request broadcast la.card.mac ip_a zero_mac ip_b ++ out.0,
      arp_frame arp_reply la.card.mac lb.card.mac ip_b la.card.mac ip_a ++ answer.1,
      la1,
      answer.0,
      with_cache la1 (cache_set ip_b lb.card.mac la.cache),
      ap (λ (o : Option Rtl8139). o >>= λ c. some (with_card la c)) out.2,
      out.4,
      answer.2,
      answer.3,
      receive-reply ip_a ip_b la.card.mac lb.card.mac la.card.mac answer.1 la1,
      refl,
      ap (resolve ip_a) answer.4 ∙ resolve-set ip_a la.card.mac lb.cache roomb,
      resolve-set ip_b lb.card.mac la.cache rooma,
    )
