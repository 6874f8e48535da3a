-- ===== src/Net/Tcp/Automaton.antt =====
-- src/net/tcp.cpp, `HandleIPv4Payload`: its cases follow the state diagram.
use layla_os.Base.{
  ℕ, ◌+◌, ◌<◌, min, List, [], ◌∷◌, ◌>>=◌, ◌==◌, ◌++◌, Option, none, some, true, false, ◌&&◌,
  Bool-cases, if◌then◌else◌, ltb, leb, bit_or, add32, length, length-append, length-drop, drop, ◌≡◌,
  refl, sym, subst, inl, inr, arith,
}
use layla_os.Net.Wire.{ip_bytes, read, write_at}
use layla_os.Net.Checksum.Verify.{IsBytes}
use layla_os.Net.Wire.Read.{length-read, read-append}
use layla_os.Net.Arp.{Link}
use layla_os.Net.Ipv4.{Ipv4Handler}
use layla_os.Net.Ipv4.Ready.{CanSend}
use layla_os.Net.Tcp.{
  tcp_fin, tcp_syn, tcp_ack, TcpState, TcpEvent, TcpSocket, update, send_segment,
}
use layla_os.Net.Tcp.Diagram.{has, is_inert, Arrow}
use layla_os.Net.Tcp.Receive.{handle_syn_sent, handle_established, handle_fin_wait_2}
use layla_os.Net.Tcp.Segment.{after_segment, segment_sent}

module _ {ℓ} {H : Type ℓ} where
  -- The socket's buffers are in place, its machine can send, the two addresses are bytes.
  abbrev pub IsLive : TcpSocket → Ipv4Handler H → Link → Type 0
  IsLive t h l =
      (length t.tx_buf ≡ 1480)
      × (length t.rx_buf ≡ 8192)
      × CanSend h l
      × IsBytes (ip_bytes h.local_ip ++ ip_bytes t.remote_ip)

  -- Segments without data, one after the other.
  abbrev pub send_all :
      List ℕ → TcpSocket → Ipv4Handler H → Link → Option (TcpSocket × Ipv4Handler H × Link)
  send_all [] t h l = some (t, h, l)
  send_all (flags ∷ rest) t h l = do
    (t1, h1, l1) ← send_segment flags [] 0 t h l
    send_all rest t1 h1 l1

  -- The result of a handler: it returns, along an arrow; the socket that the arrow leads to sends the
  -- arrow's answers, and only its state may differ afterwards; and it stays live.
  pub record Moved (flags in_seq in_ack size : ℕ) (content : List ℕ) (t : TcpSocket)
      (h : Ipv4Handler H) (l : Link) (t' : TcpSocket) (event : Option TcpEvent) (h' : Ipv4Handler H)
      (l' : Link) : Type ℓ where
    pub answers : List ℕ
    pub sender : TcpSocket
    pub sent : TcpSocket
    pub arrow :
        Arrow flags in_seq in_ack size content t.state t.seq t.ack event answers t'.state sender.seq
          t'.ack
    pub peer : (sender.remote_ip ≡ t.remote_ip) × (sender.remote_port ≡ t.remote_port)
    pub acknowledges : sender.ack ≡ t'.ack
    pub sends : send_all answers sender h l ≡ some (sent, h', l')
    pub ends : t' ≡ record sent { state = t'.state }
    pub live : IsLive t' h' l'

  abbrev pub Moves :
      ℕ
      → ℕ
      → ℕ
      → ℕ
      → List ℕ
      → TcpSocket
      → Ipv4Handler H
      → Link
      → Option (TcpSocket × Option TcpEvent × Ipv4Handler H × Link)
      → Type ℓ
  Moves flags in_seq in_ack size content t h l result =
      (t' : TcpSocket) × (event : Option TcpEvent) × (h' : Ipv4Handler H) × (l' : Link) × (result
        ≡ some (t', event, h', l'))
      × Moved flags in_seq in_ack size content t h l t' event h' l'

  -- A segment without data keeps the socket live.
  pub empty_segment :
      (flags : ℕ) (t : TcpSocket) (h : Ipv4Handler H) (l : Link)
      → flags < 256
      → IsLive t h l
      → (buf : List ℕ) × (h' : Ipv4Handler H) × (l' : Link) × (send_segment flags [] 0 t h l
          ≡ some (after_segment flags 0 buf t, h', l'))
        × IsLive (after_segment flags 0 buf t) h' l'
  empty_segment flags t h l small live =
      let out = segment_sent flags [] 0 t h l live.2 live.0 (omega arith) small live.3 tt in
      (
        out.0,
        out.1,
        out.2,
        out.3,
        (
          out.5,
          live.1,
          out.6,
          subst (λ k. IsBytes (ip_bytes k ++ ip_bytes t.remote_ip)) (sym out.7) live.3,
        ),
      )

  module _ (flags in_seq in_ack size : ℕ) (content : List ℕ) (t : TcpSocket) (h : Ipv4Handler H)
      (l : Link) (live : IsLive t h l) where
    -- A step to another state that sends nothing.
    pub quiet :
        (s' : TcpState) (event : Option TcpEvent)
        → Arrow flags in_seq in_ack size content t.state t.seq t.ack event [] s' t.seq t.ack
        → Moves flags in_seq in_ack size content t h l (some (update s' t.seq t.ack t, event, h, l))
    quiet s' event a = (
      update s' t.seq t.ack t,
      event,
      h,
      l,
      refl,
      record {
        answers = [];
        sender = t;
        sent = t;
        arrow = a;
        peer = (refl, refl);
        acknowledges = refl;
        sends = refl;
        ends = refl;
        live = live;
      },
    )

    pub still :
        is_inert flags size t.state ≡ true
        → Moves flags in_seq in_ack size content t h l (some (t, none, h, l))
    still inert = quiet t.state none (Arrow.ignores t.state t.seq t.ack inert)

    -- A step that sends one answer and then goes to the state `s'`.
    answered :
        (sender : TcpSocket) (reply_flags : ℕ) (s' : TcpState) (event : Option TcpEvent)
        → reply_flags < 256
        → IsLive sender h l
        → (sender.remote_ip ≡ t.remote_ip) × (sender.remote_port ≡ t.remote_port)
        → Arrow flags in_seq in_ack size content t.state t.seq t.ack event
            (reply_flags ∷ [])
            s'
            sender.seq
            sender.ack
        → (buf : List ℕ) × (h' : Ipv4Handler H) × (l' : Link) × (send_segment reply_flags [] 0
              sender h l
            ≡ some (after_segment reply_flags 0 buf sender, h', l'))
          × (let t1 = after_segment reply_flags 0 buf sender in
              let t' = update s' t1.seq t1.ack t1 in
              Moved flags in_seq in_ack size content t h l t' event h' l')
    answered sender reply_flags s' event small ready peer a =
        let (buf, h', l', eq, live') = empty_segment reply_flags sender h l small ready in
        (
          buf,
          h',
          l',
          eq,
          record {
            answers = reply_flags ∷ [];
            sender = sender;
            sent = after_segment reply_flags 0 buf sender;
            arrow = a;
            peer = peer;
            acknowledges = refl;
            sends = rw eq refl;
            ends = refl;
            live = live';
          },
        )

    pub handle_syn_sent-Moves :
        t.state ≡ TcpState.syn_sent
        → Moves flags in_seq in_ack size content t h l (handle_syn_sent flags in_seq in_ack t h l)
    unfolding handle_syn_sent
    handle_syn_sent-Moves s = elim (Bool-cases (has tcp_syn flags && has tcp_ack flags)) [
      | inl e ↦
          let opened = update TcpState.established in_ack (add32 in_seq 1) t in
          let (buf, h', l', eq, moved) =
            answered opened tcp_ack TcpState.established (some TcpEvent.on_connected) (omega arith)
              live (refl, refl) (rw s (Arrow.opens t.seq t.ack (ground arith) (ground arith))) in
          (
            after_segment tcp_ack 0 buf opened,
            some TcpEvent.on_connected,
            h',
            l',
            rw (handle_syn_sent, e, eq) refl,
            moved,
          )
      | inr e ↦ rw (handle_syn_sent, e) (still (rw (s, e) refl))
    ]

    -- The FIN of the other side on an open connection, answered by two segments.
    peer_closed :
        t.state ≡ TcpState.established
        → has tcp_fin flags ≡ true
        → Moves flags in_seq in_ack size content t h l
            (handle_established flags in_seq content size t h l)
    unfolding handle_established
    peer_closed s e =
        let acked = update t.state t.seq (add32 in_seq 1) t in
        let (buf1, h1, l1, eq1, live1) = empty_segment tcp_ack acked h l (omega arith) live in
        let t1 = after_segment tcp_ack 0 buf1 acked in
        let (buf2, h2, l2, eq2, live2) =
          empty_segment (bit_or tcp_fin tcp_ack) t1 h1 l1 (omega arith) live1 in
        let t2 = after_segment (bit_or tcp_fin tcp_ack) 0 buf2 t1 in
        (
          update TcpState.last_ack t2.seq t2.ack t2,
          none,
          h2,
          l2,
          rw (handle_established, e, eq1, eq2) refl,
          record {
            answers = tcp_ack ∷ (bit_or tcp_fin tcp_ack ∷ []);
            sender = acked;
            sent = t2;
            arrow = rw s (Arrow.peer_closes t.seq t.ack e);
            peer = (refl, refl);
            acknowledges = refl;
            sends = rw (eq1, eq2) refl;
            ends = refl;
            live = live2;
          },
        )

    data_received :
        t.state ≡ TcpState.established
        → has tcp_fin flags ≡ false
        → ltb 0 size ≡ true
        → Moves flags in_seq in_ack size content t h l
            (handle_established flags in_seq content size t h l)
    unfolding handle_established write_at
    data_received s e z =
        let copy = if ltb 8192 size then 8192 else size in
        let cut : copy ≡ min size 8192 = ground arith in
        let lc = length-read copy content in
        let whole = live.1 in
        let fits : leb (0 + length (read copy content)) (length t.rx_buf) ≡ true = ground arith in
        let tail = drop (0 + length (read copy content)) t.rx_buf in
        let rx = read copy content ++ tail in
        let got : TcpSocket = record t { ack = add32 in_seq size; rx_buf = rx } in
        let lr : length rx ≡ 8192 = omega (
          arith,
          length-append (read copy content) tail,
          length-drop (0 + length (read copy content)) t.rx_buf,
        ) in
        let (buf, h', l', eq, moved) =
          answered got tcp_ack t.state (some (TcpEvent.on_receive rx copy)) (omega arith)
            (live.0, lr, live.2, live.3) (refl, refl)
            (rw s (
              Arrow.receives t.seq t.ack copy rx e (ground arith) cut
                (read-append copy (read copy content) tail lc))) in
        (
          after_segment tcp_ack 0 buf got,
          some (TcpEvent.on_receive rx copy),
          h',
          l',
          rw (handle_established, write_at, e, z, fits, eq) refl,
          moved,
        )

    pub handle_established-Moves :
        t.state ≡ TcpState.established
        → Moves flags in_seq in_ack size content t h l
            (handle_established flags in_seq content size t h l)
    unfolding handle_established
    handle_established-Moves s = elim (Bool-cases (has tcp_fin flags)) [
      | inl e ↦ peer_closed s e
      | inr e ↦ elim (Bool-cases (ltb 0 size)) [
        | inl z ↦ data_received s e z
        | inr z ↦
            let empty : (size == 0) ≡ true = ground arith in
            rw (handle_established, e, z) (still (rw (s, e, empty) refl))
      ]
    ]

    pub handle_fin_wait_2-Moves :
        t.state ≡ TcpState.fin_wait_2
        → Moves flags in_seq in_ack size content t h l (handle_fin_wait_2 flags in_seq t h l)
    unfolding handle_fin_wait_2
    handle_fin_wait_2-Moves s = elim (Bool-cases (has tcp_fin flags)) [
      | inl e ↦
          let acked = update t.state t.seq (add32 in_seq 1) t in
          let (buf, h', l', eq, moved) =
            answered acked tcp_ack TcpState.closed (some TcpEvent.on_closed) (omega arith) live
              (refl, refl) (rw s (Arrow.peer_follows t.seq t.ack e)) in
          let t1 = after_segment tcp_ack 0 buf acked in
          (
            update TcpState.closed t1.seq t1.ack t1,
            some TcpEvent.on_closed,
            h',
            l',
            rw (handle_fin_wait_2, e, eq) refl,
            moved,
          )
      | inr e ↦ rw (handle_fin_wait_2, e) (still (rw (s, e) refl))
    ]
