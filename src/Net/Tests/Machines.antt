-- ===== src/Net/Tests/Machines.antt =====
-- Two machines on one wire, for the tests of the protocols.
use layla_os.Base.{
  ℕ, [], ◌∷◌, ◌++◌, ◌≡◌, refl, ap, ◌∙◌, some, true, false, get_or-replicate, replicate,
  length-replicate, length, arith,
}
use layla_os.Net.Wire.{Ipv4Address, from_bytes, MacAddress, mac, ip_bytes}
use layla_os.Net.Ethernet.{Rtl8139}
use layla_os.Net.Ethernet.Frame.{IsReady}
use layla_os.Net.Arp.{ArpCacheEntry, Link, resolve, cache_get}
use layla_os.Net.Ipv4.{Ipv4Handler}
use layla_os.Net.Ipv4.Ready.{CanSend}
use layla_os.Net.Checksum.Verify.{IsBytes}
use layla_os.Net.Tcp.Automaton.{IsLive}
use layla_os.Net.Udp.{UdpSocket}
use layla_os.Net.Tcp.{TcpSocket, TcpState}

abbrev pub mac_a : MacAddress
mac_a = mac 0x52 0x54 0 0x12 0x34 1

abbrev pub mac_b : MacAddress
mac_b = mac 0x52 0x54 0 0x12 0x34 2

abbrev pub ip_a : Ipv4Address
ip_a = from_bytes 10 0 2 15

abbrev pub ip_b : Ipv4Address
ip_b = from_bytes 10 0 2 2

abbrev pub card : MacAddress → Rtl8139
card m = record { mac = m; tx_buffers = replicate 4 (replicate 1536 0); tx_current = 3; sent = [] }

pub card-IsReady : (m : MacAddress) → IsReady (card m)
card-IsReady m = (
  λ i h. ap length (get_or-replicate 4 i (replicate 1536 0) [] h) ∙ length-replicate {A = ℕ} 1536 0,
  refl,
  omega arith,
)

abbrev pub free_entry : ArpCacheEntry
free_entry = record { ip = from_bytes 0 0 0 0; mac = mac 0 0 0 0 0 0; valid = false }

abbrev pub entry : Ipv4Address → MacAddress → ArpCacheEntry
entry ip m = record { ip = ip; mac = m; valid = true }

-- A machine that knows the other one.
abbrev pub link_a : Link
link_a = record { card = card mac_a; cache = entry ip_b mac_b ∷ (free_entry ∷ []) }

abbrev pub strange_a : Link
strange_a = record { card = card mac_a; cache = free_entry ∷ [] }

abbrev pub strange_b : Link
strange_b = record { card = card mac_b; cache = free_entry ∷ [] }

pub knows_b : resolve ip_b link_a.cache ≡ some mac_b
unfolding cache_get
knows_b = refl

-- The handlers are numbers here; number 7 is registered for UDP, 9 for TCP.
abbrev pub ipv4_a : Ipv4Handler ℕ
ipv4_a = record {
  local_ip = ip_a;
  id_counter = 65535;
  handlers =
      record { protocol = 17; handler = some 7 } ∷ (record { protocol = 6; handler = some 9 } ∷ []);
  handler_count = 2;
  tx_buf = replicate 1500 0;
}

abbrev pub ipv4_b : Ipv4Handler ℕ
ipv4_b = record {
  local_ip = ip_b;
  id_counter = 0;
  handlers =
      record { protocol = 17; handler = some 7 } ∷ (record { protocol = 6; handler = some 9 } ∷ []);
  handler_count = 2;
  tx_buf = replicate 1500 0;
}

pub can_send : CanSend ipv4_a link_a
can_send = (length-replicate {A = ℕ} 1500 0, card-IsReady mac_a)

abbrev pub udp : UdpSocket
udp = record { local_port = 1234; tx_buf = replicate 1472 0 }

abbrev pub tcp : TcpState → TcpSocket
tcp s = record {
  local_port = 1234;
  remote_port = 80;
  remote_ip = ip_b;
  state = s;
  seq = 0xDEADBEF0;
  ack = 0;
  rx_buf = replicate 8192 0;
  tx_buf = replicate 1480 0;
}

pub addresses : IsBytes (ip_bytes ip_a ++ ip_bytes ip_b)
addresses = (
  omega arith,
  (
    omega arith,
    (omega arith, (omega arith, (omega arith, (omega arith, (omega arith, (omega arith, tt)))))),
  ),
)

pub tcp-IsLive : (s : TcpState) → IsLive (tcp s) ipv4_a link_a
tcp-IsLive s =
    (length-replicate {A = ℕ} 1480 0, length-replicate {A = ℕ} 8192 0, can_send, addresses)
