-- ===== src/Net/Arp.antt =====
-- src/net/arp.h, src/net/arp.cpp: the address cache, requests and replies.
pub mod Cache
pub mod Exchange
use layla_os.Base.{
  ℕ, List, [], ◌∷◌, ◌++◌, Option, none, some, ◌>>=◌, if◌then◌else◌, ltb, ◌==◌, Bool, true, false,
  ◌&&◌, not, replicate,
}
use layla_os.Net.Wire.{
  Ipv4Address, from_bytes, ip_eq, ip_bytes, load_ip, MacAddress, mac, mac_bytes, load_mac,
  broadcast, load16, bytes16, htons, ntohs,
}
use layla_os.Net.Ethernet.{Rtl8139, send_frame}

abbrev pub ethertype_arp : ℕ
ethertype_arp = 0x0806

abbrev pub arp_request : ℕ
arp_request = 1

abbrev pub arp_reply : ℕ
arp_reply = 2

pub record ArpCacheEntry : Type 0 where
  pub ip : Ipv4Address
  pub mac : MacAddress
  pub valid : Bool

abbrev pub arp_cache : List ArpCacheEntry
arp_cache = replicate 128 (record { ip = from_bytes 0 0 0 0; mac = mac 0 0 0 0 0 0; valid = false })

-- The first loop of `CacheSet`: the entry for the address gets the new MAC.
unfoldable pub cache_update :
    Ipv4Address → MacAddress → List ArpCacheEntry → Option (List ArpCacheEntry)
cache_update ip m [] = none
cache_update ip m (e ∷ es) =
    let rest = cache_update ip m es in
    if e.valid && ip_eq e.ip ip
    then some (record { ip = e.ip; mac = m; valid = e.valid } ∷ es)
    else elim rest [ none ↦ none | some es' ↦ some (e ∷ es') ]

-- The second loop: the first free entry.
unfoldable pub cache_insert :
    Ipv4Address → MacAddress → List ArpCacheEntry → Option (List ArpCacheEntry)
cache_insert ip m [] = none
cache_insert ip m (e ∷ es) =
    let rest = cache_insert ip m es in
    if not e.valid
    then some (record { ip = ip; mac = m; valid = true } ∷ es)
    else elim rest [ none ↦ none | some es' ↦ some (e ∷ es') ]

unfoldable pub cache_set : Ipv4Address → MacAddress → List ArpCacheEntry → List ArpCacheEntry
cache_set ip m es = elim (cache_update ip m es) [
  | some es' ↦ es'
  | none ↦ elim (cache_insert ip m es) [ some es' ↦ es' | none ↦ es ]
]

unfoldable pub cache_get : Ipv4Address → List ArpCacheEntry → Option MacAddress
cache_get ip [] = none
cache_get ip (e ∷ es) =
    let rest = cache_get ip es in if e.valid && ip_eq e.ip ip then some e.mac else rest

abbrev pub resolve : Ipv4Address → List ArpCacheEntry → Option MacAddress
resolve ip es = cache_get ip es

-- The 28 bytes of an `ARPPacket`.
unfoldable pub arp_packet : ℕ → MacAddress → Ipv4Address → MacAddress → Ipv4Address → List ℕ
arp_packet opcode sender_mac sender_ip target_mac target_ip =
    bytes16 (htons 0x0001)
    ++ (bytes16 (htons 0x0800)
        ++ (6
            ∷ (4
                ∷ (bytes16 (htons opcode)
                    ++ (mac_bytes sender_mac
                        ++ (ip_bytes sender_ip ++ (mac_bytes target_mac ++ ip_bytes target_ip)))))))

-- The card and the cache, which the handlers of a machine share.
pub record Link : Type 0 where
  pub card : Rtl8139
  pub cache : List ArpCacheEntry

abbrev pub with_card : Link → Rtl8139 → Link
with_card l card = record { card = card; cache = l.cache }

abbrev pub with_cache : Link → List ArpCacheEntry → Link
with_cache l cache = record { card = l.card; cache = cache }

unfoldable pub send_request : Ipv4Address → Ipv4Address → Link → Option Link
send_request local_ip target_ip l = do
  card ←
      send_frame broadcast ethertype_arp
        (arp_packet arp_request l.card.mac local_ip (mac 0 0 0 0 0 0) target_ip) 28 l.card
  some (with_card l card)

-- The reply to the packet at `request`.
unfoldable pub send_reply : Ipv4Address → List ℕ → Link → Option Link
send_reply local_ip request l = do
  card ←
      send_frame (load_mac request 8) ethertype_arp
        (arp_packet arp_reply l.card.mac local_ip (load_mac request 8) (load_ip request 14)) 28
        l.card
  some (with_card l card)

unfoldable pub handle_ethernet_payload : Ipv4Address → List ℕ → ℕ → Link → Option Link
handle_ethernet_payload local_ip payload size l =
    let learnt = with_cache l (cache_set (load_ip payload 14) (load_mac payload 8) l.cache) in
    let reply = send_reply local_ip payload learnt in
    if ltb size 28
    then some l
    else if ntohs (load16 payload 6) == arp_request && ip_eq (load_ip payload 24) local_ip
    then reply
    else some learnt
