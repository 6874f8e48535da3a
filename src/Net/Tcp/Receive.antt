-- ===== src/Net/Tcp/Receive.antt =====
-- src/net/tcp.cpp, `HandleIPv4Payload`: one function per case of the switch on the state.
use layla_os.Base.{
  ℕ, ◌-◌, ◌*◌, List, [], Option, none, some, ◌>>=◌, ◌&&◌, if◌then◌else◌, ltb, ◌!=◌, ◌>>>◌, bit_and,
  bit_or, add32, drop,
}
use layla_os.Net.Wire.{load8, load16, load32, ntohs, ntohl, read, write_at}
use layla_os.Net.Arp.{Link}
use layla_os.Net.Ipv4.{Ipv4Handler}
use layla_os.Net.Tcp.{
  tcp_fin, tcp_syn, tcp_ack, closed, syn_sent, established, fin_wait_1, fin_wait_2, last_ack,
  TcpEvent, on_connected, on_receive, on_closed, TcpSocket, update, send_segment,
}

module _ {ℓ} {H : Type ℓ} where
  -- A segment without data, as the socket then is.
  abbrev reply :
      ℕ
      → TcpSocket
      → Option TcpEvent
      → Ipv4Handler H
      → Link
      → Option (TcpSocket × Option TcpEvent × Ipv4Handler H × Link)
  reply flags t event h l = do
    (t', h', l') ← send_segment flags [] 0 t h l
    some (t', event, h', l')

  -- `case TCP_SYN_SENT`.
  unfoldable pub handle_syn_sent :
      ℕ
      → ℕ
      → ℕ
      → TcpSocket
      → Ipv4Handler H
      → Link
      → Option (TcpSocket × Option TcpEvent × Ipv4Handler H × Link)
  handle_syn_sent flags in_seq in_ack t h l =
      if bit_and flags tcp_syn != 0 && bit_and flags tcp_ack != 0
      then reply tcp_ack (update established in_ack (add32 in_seq 1) t) (some on_connected) h l
      else some (t, none, h, l)

  -- `case TCP_ESTABLISHED`: `content` and `size` are the segment's data.
  unfoldable pub handle_established :
      ℕ
      → ℕ
      → List ℕ
      → ℕ
      → TcpSocket
      → Ipv4Handler H
      → Link
      → Option (TcpSocket × Option TcpEvent × Ipv4Handler H × Link)
  handle_established flags in_seq content size t h l =
      if bit_and flags tcp_fin != 0
      then (do
        (t1, h1, l1) ← send_segment tcp_ack [] 0 (update t.state t.seq (add32 in_seq 1) t) h l
        (t2, h2, l2) ← send_segment (bit_or tcp_fin tcp_ack) [] 0 t1 h1 l1
        some (update last_ack t2.seq t2.ack t2, none, h2, l2))
      else if ltb 0 size
      then (do
        let copy = if ltb 8192 size then 8192 else size
        rx ← write_at t.rx_buf 0 (read copy content)
        (t', h', l') ←
            send_segment tcp_ack [] 0
              (record {
                local_port = t.local_port;
                remote_port = t.remote_port;
                remote_ip = t.remote_ip;
                state = t.state;
                seq = t.seq;
                ack = add32 in_seq size;
                rx_buf = rx;
                tx_buf = t.tx_buf;
              })
              h l
        some (t', some (on_receive rx copy), h', l'))
      else some (t, none, h, l)

  -- `case TCP_FIN_WAIT_2`.
  unfoldable pub handle_fin_wait_2 :
      ℕ
      → ℕ
      → TcpSocket
      → Ipv4Handler H
      → Link
      → Option (TcpSocket × Option TcpEvent × Ipv4Handler H × Link)
  handle_fin_wait_2 flags in_seq t h l =
      if bit_and flags tcp_fin != 0
      then (do
        (t', h', l') ← send_segment tcp_ack [] 0 (update t.state t.seq (add32 in_seq 1) t) h l
        some (update closed t'.seq t'.ack t', some on_closed, h', l'))
      else some (t, none, h, l)

  unfoldable pub handle_tcp :
      List ℕ
      → ℕ
      → TcpSocket
      → Ipv4Handler H
      → Link
      → Option (TcpSocket × Option TcpEvent × Ipv4Handler H × Link)
  handle_tcp payload size t h l =
      let in_seq = ntohl (load32 payload 4) in
      let in_ack = ntohl (load32 payload 8) in
      let flags = load8 payload 13 in
      let hdr_len = (load8 payload 12 >>> 4) * 4 in
      let payload_size = if ltb hdr_len size then size - hdr_len else 0 in
      if ltb size 20
      then some (t, none, h, l)
      else if ntohs (load16 payload 2) != t.local_port
      then some (t, none, h, l)
      else elim t.state [
        | syn_sent ↦ handle_syn_sent flags in_seq in_ack t h l
        | established ↦ handle_established flags in_seq (drop hdr_len payload) payload_size t h l
        | last_ack ↦
            if bit_and flags tcp_ack != 0
            then some (update closed t.seq t.ack t, some on_closed, h, l)
            else some (t, none, h, l)
        | fin_wait_1 ↦
            if bit_and flags tcp_ack != 0
            then some (update fin_wait_2 t.seq t.ack t, none, h, l)
            else some (t, none, h, l)
        | fin_wait_2 ↦ handle_fin_wait_2 flags in_seq t h l
        | _ ↦ some (t, none, h, l)
      ]
