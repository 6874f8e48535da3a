-- ===== src/Net/Tests/Transport.antt =====
-- Instances of the theorems on UDP, ICMP and TCP.
use layla_os.Base.{
  ℕ, ◌-◌, List, [], ◌∷◌, ◌++◌, ◌≡◌, refl, none, some, true, false, ◌⊎◌, add32, Bool, arith, drop,
  replicate, length, length-replicate,
}
use layla_os.Net.Wire.{load8, bytes16, bytes32, htons, htonl, read}
use layla_os.Net.Checksum.{internet_checksum}
use layla_os.Net.Arp.{Link}
use layla_os.Net.Ipv4.{Ipv4Handler, deliver, send_ipv4}
use layla_os.Net.Ipv4.RoundTrip.{calls}
use layla_os.Net.Ipv4.Ready.{CanSend}
use layla_os.Net.Udp.{UdpSocket, clip_udp, send_udp, receive_udp}
use layla_os.Net.Udp.RoundTrip.{receive_udp-send}
use layla_os.Net.Icmp.{handle_icmp, reply_size}
use layla_os.Net.Icmp.Echo.{handle_icmp_lem}
use layla_os.Net.Tcp.{TcpSocket, TcpState, TcpEvent, send_segment}
use layla_os.Net.Tcp.Receive.{handle_tcp}
use layla_os.Net.Tcp.Header.{Carries}
use layla_os.Net.Tcp.Segment.{is_control, Verifies, send_segment_lem}
use layla_os.Net.Tcp.Automaton.{IsLive, Moves}
use layla_os.Net.Tcp.Life.{
  is_addressed, flags_of, seq_of, ack_of, content_of, data_size, handle_tcp-Moves,
}
use layla_os.Net.Tcp.Callbacks.{in_order, handle_all, handle_all-in_order}
use layla_os.Kernel.Syscall.Network.{NetShared, sys_net_tcp_send}
use layla_os.Kernel.Syscall.Limits.{sys_net_tcp_send_overflow}
use layla_os.Net.Tests.Machines.{
  mac_a, mac_b, ip_a, ip_b, addresses, knows_b, card-IsReady, can_send, link_a, ipv4_a, ipv4_b, udp,
  tcp, tcp-IsLive,
}

receive_udp-send_example :
    (s' : UdpSocket) × (h' : Ipv4Handler ℕ) × (l' : Link) × (frame datagram pad : List ℕ)
    × (send_udp ip_b 1234 53 (1 ∷ []) 1 udp ipv4_a link_a ≡ some (true, s', h', l'))
    × (l'.card.sent ≡ [] ++ (frame ∷ []))
    × (deliver ipv4_b (drop 14 frame) (length frame - 14) ≡ calls ipv4_b datagram 9 ip_a ip_b 17)
    × (receive_udp udp datagram 9 ip_a
        ≡ some (record { src_ip = ip_a; src_port = 53; content = 1 ∷ pad; size = 1 }))
unfolding clip_udp
receive_udp-send_example =
    receive_udp-send udp udp ipv4_a ipv4_b link_a mac_b 53 1 (1 ∷ []) knows_b (card-IsReady mac_a)
      (length-replicate {A = ℕ} 1472 0) (length-replicate {A = ℕ} 1500 0) (omega arith)
      (omega arith) addresses

abbrev ping : List ℕ
ping = 8 ∷ (0 ∷ (0 ∷ (0 ∷ (0 ∷ (1 ∷ (0 ∷ (2 ∷ [])))))))

handle_icmp_lem_example :
    (buf : List ℕ) × (ok : Bool) × (h' : Ipv4Handler ℕ) × (l' : Link) × (handle_icmp ping 8 ip_b
        (replicate 64 0)
        ipv4_a
        link_a
      ≡ some (buf, h', l'))
    × (send_ipv4 ip_b 1 buf 8 ipv4_a link_a ≡ some (ok, h', l'))
    × CanSend h' l'
    × (internet_checksum (read 8 buf) ≡ 0)
    × (load8 buf 0 ≡ 0)
    × (load8 buf 1 ≡ 0)
    × (drop 4 (read 8 buf) ≡ 0 ∷ (1 ∷ (0 ∷ (2 ∷ []))))
unfolding reply_size
handle_icmp_lem_example =
    handle_icmp_lem ping 8 ip_b (replicate 64 0) ipv4_a link_a can_send
      (length-replicate {A = ℕ} 64 0) (omega arith) refl
      (
        omega arith,
        (
          omega arith,
          (
            omega arith,
            (omega arith, (omega arith, (omega arith, (omega arith, (omega arith, tt))))),
          ),
        ),
      )

send_segment_lem_example :
    let t : TcpSocket = tcp TcpState.established in
    (t' : TcpSocket) × (ok : Bool) × (h' : Ipv4Handler ℕ) × (l' : Link) × (send_segment 0x18
        (1 ∷ [])
        1
        t
        ipv4_a
        link_a
      ≡ some (t', h', l'))
    × (send_ipv4 ip_b 6 t'.tx_buf 21 ipv4_a link_a ≡ some (ok, h', l'))
    × Carries 0x18 (1 ∷ []) 1 t t'.tx_buf
    × Verifies ip_a ip_b 21 t'.tx_buf
    × (t' ≡ record t { seq = t'.seq; tx_buf = t'.tx_buf })
    × ((is_control 0x18 ≡ true) × (t'.seq ≡ add32 t.seq 1)
        ⊎ (is_control 0x18 ≡ false) × (t'.seq ≡ add32 t.seq 1))
    × (length t'.tx_buf ≡ 1480)
    × CanSend h' l'
    × (h'.local_ip ≡ ip_a)
send_segment_lem_example =
    send_segment_lem 0x18 (1 ∷ []) 1 (tcp TcpState.established) ipv4_a link_a can_send
      (omega arith, omega arith, omega arith, omega arith) (length-replicate {A = ℕ} 1480 0)
      (omega arith) (omega arith) addresses (omega arith, tt)

-- A segment with the flags SYN and ACK.
abbrev syn_ack : List ℕ
syn_ack =
    bytes16 (htons 80)
    ++ (bytes16 (htons 1234)
        ++ (bytes32 (htonl 100) ++ (bytes32 (htonl 0xDEADBEF0) ++ (80 ∷ (0x12 ∷ replicate 6 0)))))

handle_tcp-Moves_example :
    (is_addressed syn_ack 20 (tcp TcpState.syn_sent) ≡ true)
      × Moves
          (flags_of syn_ack)
          (seq_of syn_ack)
          (ack_of syn_ack)
          (data_size syn_ack 20)
          (content_of syn_ack)
          (tcp TcpState.syn_sent)
          ipv4_a
          link_a
          (handle_tcp syn_ack 20 (tcp TcpState.syn_sent) ipv4_a link_a)
    ⊎ (is_addressed syn_ack 20 (tcp TcpState.syn_sent) ≡ false)
      × (handle_tcp syn_ack 20 (tcp TcpState.syn_sent) ipv4_a link_a
          ≡ some (tcp TcpState.syn_sent, none, ipv4_a, link_a))
handle_tcp-Moves_example =
    handle_tcp-Moves syn_ack 20 (tcp TcpState.syn_sent) ipv4_a link_a (tcp-IsLive TcpState.syn_sent)

handle_all-in_order_example :
    (es : List TcpEvent) × (t' : TcpSocket) × (h' : Ipv4Handler ℕ) × (l' : Link) × (handle_all
        ((syn_ack, 20) ∷ ((syn_ack, 20) ∷ []))
        (tcp TcpState.syn_sent)
        ipv4_a
        link_a
      ≡ some (es, t', h', l'))
    × (in_order 0 es ≡ true)
    × IsLive t' h' l'
handle_all-in_order_example =
    handle_all-in_order ((syn_ack, 20) ∷ ((syn_ack, 20) ∷ [])) (tcp TcpState.syn_sent) ipv4_a link_a
      (tcp-IsLive TcpState.syn_sent)

-- A program's page with one byte more than a segment holds.
abbrev long_page : NetShared
long_page = record { status = 0; data_len = 1461; content = replicate 4088 0 }

sys_net_tcp_send_overflow_example :
    sys_net_tcp_send long_page (some (tcp TcpState.established)) ipv4_a link_a ≡ none
sys_net_tcp_send_overflow_example =
    sys_net_tcp_send_overflow long_page (tcp TcpState.established) ipv4_a link_a refl
      (length-replicate {A = ℕ} 1480 0) (omega arith)
