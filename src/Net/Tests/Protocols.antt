-- ===== src/Net/Tests/Protocols.antt =====
-- Instances of the theorems on the network stack.
use layla_os.Base.{
  ℕ, ◌-◌, ◌^◌, ◌<◌, List, [], ◌∷◌, ◌++◌, ◌≡◌, refl, some, true, arith, drop, replicate, length,
  length-replicate,
}
use layla_os.Net.Wire.{mac_bytes, bytes16, htonl, ntohl}
use layla_os.Net.Wire.Swap.{ntohl-htonl}
use layla_os.Net.Checksum.{sum_words, fold_carries, internet_checksum}
use layla_os.Net.Checksum.Verify.{internet_checksum-bytes16}
use layla_os.Net.Arp.{Link, cache_get, cache_set, resolve, send_request}
use layla_os.Net.Arp.Cache.{cache_get-set}
use layla_os.Net.Arp.Exchange.{Transmits, receive, resolve-exchange}
use layla_os.Net.Ipv4.{Ipv4Handler, deliver, send_ipv4}
use layla_os.Net.Ipv4.RoundTrip.{calls, deliver-send_ipv4}
use layla_os.Net.Tests.Machines.{
  addresses, knows_b, mac_a, mac_b, ip_a, ip_b, card-IsReady, free_entry, entry, link_a, strange_a,
  strange_b, ipv4_a, ipv4_b,
}

abbrev ipv4_frame : List ℕ
ipv4_frame = mac_bytes mac_b ++ (mac_bytes mac_a ++ (8 ∷ (0 ∷ replicate 46 0)))

ones_checksum : internet_checksum (0xFF ∷ (0xFF ∷ (1 ∷ []))) ≡ 0xFFFE
unfolding internet_checksum fold_carries sum_words
ones_checksum = refl

ntohl-htonl_example : (ntohl (htonl 0xDEADBEEF) ≡ 0xDEADBEEF) × (htonl 0xDEADBEEF < 2 ^ 32)
ntohl-htonl_example = ntohl-htonl 0xDEADBEEF (omega arith)

internet_checksum-bytes16_example :
    internet_checksum (
      (8 ∷ (0 ∷ []))
      ++ (bytes16 (internet_checksum ((8 ∷ (0 ∷ [])) ++ (0 ∷ (0 ∷ (200 ∷ []))))) ++ (200 ∷ [])))
    ≡ 0
internet_checksum-bytes16_example =
    internet_checksum-bytes16 1 (8 ∷ (0 ∷ [])) (200 ∷ []) refl (omega arith, (omega arith, tt))
      (omega arith, tt) (omega arith)

cache_get-set_example :
    cache_get ip_a (cache_set ip_a mac_a (entry ip_b mac_b ∷ (free_entry ∷ []))) ≡ some mac_a
unfolding cache_get
cache_get-set_example = cache_get-set ip_a ip_a mac_a (entry ip_b mac_b ∷ (free_entry ∷ []))

resolve-exchange_example :
    (request reply : List ℕ) × (la1 lb1 la2 : Link) × (send_request ip_a ip_b strange_a ≡ some la1)
    × Transmits strange_a request la1
    × (receive ip_b request strange_b ≡ some lb1)
    × Transmits strange_b reply lb1
    × (receive ip_a reply la1 ≡ some la2)
    × (la2.card ≡ la1.card)
    × (resolve ip_a lb1.cache ≡ some mac_a)
    × (resolve ip_b la2.cache ≡ some mac_b)
resolve-exchange_example =
    resolve-exchange ip_a ip_b strange_a strange_b (card-IsReady mac_a) (card-IsReady mac_b) refl
      refl

deliver-send_ipv4_example :
    (s' : Ipv4Handler ℕ) × (l' : Link) × (frame pad : List ℕ) × (send_ipv4 ip_b 17
        (1 ∷ (2 ∷ []))
        2
        ipv4_a
        link_a
      ≡ some (true, s', l'))
    × (l'.card.sent ≡ [] ++ (frame ∷ []))
    × (deliver ipv4_b (drop 14 frame) (length frame - 14)
        ≡ calls ipv4_b (1 ∷ (2 ∷ pad)) 2 ip_a ip_b 17)
    × (length s'.tx_buf ≡ 1500)
deliver-send_ipv4_example =
    deliver-send_ipv4 ipv4_a ipv4_b link_a mac_b 17 2 (1 ∷ (2 ∷ [])) knows_b (card-IsReady mac_a)
      (length-replicate {A = ℕ} 1500 0) (omega arith) (omega arith, addresses)
