-- ===== src/Net/Tcp/Life.antt =====
-- src/net/tcp.cpp: every segment keeps to the state diagram, and the callbacks over a connection's
-- life.
use layla_os.Base.{
  ℕ, ◌-◌, ◌*◌, List, Option, none, some, [], Bool, true, false, ◌&&◌, not, arith, Bool-cases,
  if◌then◌else◌, ltb, ◌!=◌, ◌>>>◌, drop, ◌≡◌, refl, sym, subst, inl, inr, ◌⊎◌,
}
use layla_os.Net.Wire.{load8, load16, load32, ntohs, ntohl}
use layla_os.Net.Arp.{Link}
use layla_os.Net.Ipv4.{Ipv4Handler}
use layla_os.Net.Tcp.{tcp_ack, TcpState, TcpEvent, TcpSocket, update}
use layla_os.Net.Tcp.Receive.{handle_tcp}
use layla_os.Net.Tcp.Diagram.{has, is_inert, Arrow}
use layla_os.Net.Tcp.Automaton.{
  IsLive, Moves, quiet, still, handle_syn_sent-Moves, handle_established-Moves,
  handle_fin_wait_2-Moves,
}

-- The fields of a segment that the handler reads.
abbrev pub flags_of : List ℕ → ℕ
flags_of payload = load8 payload 13

abbrev pub seq_of : List ℕ → ℕ
seq_of payload = ntohl (load32 payload 4)

abbrev pub data_size : List ℕ → ℕ → ℕ
data_size payload size =
    let hdr_len = (load8 payload 12 >>> 4) * 4 in if ltb hdr_len size then size - hdr_len else 0

abbrev pub ack_of : List ℕ → ℕ
ack_of payload = ntohl (load32 payload 8)

abbrev pub content_of : List ℕ → List ℕ
content_of payload = drop ((load8 payload 12 >>> 4) * 4) payload

-- A whole segment for the socket's port.
abbrev pub is_addressed : List ℕ → ℕ → TcpSocket → Bool
is_addressed payload size t = not (ltb size 20) && not (ntohs (load16 payload 2) != t.local_port)

module _ {ℓ} {H : Type ℓ} (payload : List ℕ) (size : ℕ) (t : TcpSocket) (h : Ipv4Handler H)
    (l : Link) (live : IsLive t h l) where
  abbrev Goes : Option (TcpSocket × Option TcpEvent × Ipv4Handler H × Link) → Type ℓ
  Goes result =
      Moves (flags_of payload) (seq_of payload) (ack_of payload) (data_size payload size)
        (content_of payload) t h l result

  along :
      (r r' : Option (TcpSocket × Option TcpEvent × Ipv4Handler H × Link))
      → r ≡ r'
      → Goes r'
      → Goes r
  along r r' e m = subst Goes (sym e) m

  idle :
      (r : Option (TcpSocket × Option TcpEvent × Ipv4Handler H × Link))
      → is_inert (flags_of payload) (data_size payload size) t.state ≡ true
      → r ≡ some (t, none, h, l)
      → Goes r
  idle r inert e = along r (some (t, none, h, l)) e (
      still (flags_of payload) (seq_of payload) (ack_of payload) (data_size payload size)
        (content_of payload) t h l live inert)

  -- A step of a state that waits for an acknowledgment.
  on_ack :
      (s' : TcpState) (event : Option TcpEvent)
      → Arrow
          (flags_of payload)
          (seq_of payload)
          (ack_of payload)
          (data_size payload size)
          (content_of payload)
          t.state
          t.seq
          t.ack
          event
          []
          s'
          t.seq
          t.ack
      → handle_tcp payload size t h l ≡ some (update s' t.seq t.ack t, event, h, l)
      → Goes (handle_tcp payload size t h l)
  on_ack s' event a e = along _ _ e (
      quiet (flags_of payload) (seq_of payload) (ack_of payload) (data_size payload size)
        (content_of payload) t h l live s' event a)

  handle_state-Moves :
      (s : TcpState)
      → t.state ≡ s
      → ltb size 20 ≡ false
      → (ntohs (load16 payload 2) != t.local_port) ≡ false
      → Goes (handle_tcp payload size t h l)
  unfolding handle_tcp
  handle_state-Moves TcpState.closed e big port =
      idle _ (rw e refl) (simp (handle_tcp, big, port, e) refl)
  handle_state-Moves TcpState.listen e big port =
      idle _ (rw e refl) (simp (handle_tcp, big, port, e) refl)
  handle_state-Moves TcpState.syn_received e big port =
      idle _ (rw e refl) (simp (handle_tcp, big, port, e) refl)
  handle_state-Moves TcpState.close_wait e big port =
      idle _ (rw e refl) (simp (handle_tcp, big, port, e) refl)
  handle_state-Moves TcpState.time_wait e big port =
      idle _ (rw e refl) (simp (handle_tcp, big, port, e) refl)
  handle_state-Moves TcpState.syn_sent e big port =
      along _ _ (simp (handle_tcp, big, port, e) refl) (
        handle_syn_sent-Moves (flags_of payload) (seq_of payload) (ack_of payload)
          (data_size payload size) (content_of payload) t h l live e)
  handle_state-Moves TcpState.established e big port =
      along _ _ (simp (handle_tcp, big, port, e) refl) (
        handle_established-Moves (flags_of payload) (seq_of payload) (ack_of payload)
          (data_size payload size) (content_of payload) t h l live e)
  handle_state-Moves TcpState.fin_wait_2 e big port =
      along _ _ (simp (handle_tcp, big, port, e) refl) (
        handle_fin_wait_2-Moves (flags_of payload) (seq_of payload) (ack_of payload)
          (data_size payload size) (content_of payload) t h l live e)
  handle_state-Moves TcpState.fin_wait_1 e big port =
      elim (Bool-cases (has tcp_ack (flags_of payload))) [
        | inr f ↦ idle _ (rw (e, f) refl) (simp (handle_tcp, big, port, e, f) refl)
        | inl f ↦
            on_ack TcpState.fin_wait_2 none (rw e (Arrow.fin_acked t.seq t.ack f))
              (simp (handle_tcp, big, port, e, f) refl)
      ]
  handle_state-Moves TcpState.last_ack e big port =
      elim (Bool-cases (has tcp_ack (flags_of payload))) [
        | inr f ↦ idle _ (rw (e, f) refl) (simp (handle_tcp, big, port, e, f) refl)
        | inl f ↦
            on_ack TcpState.closed (some TcpEvent.on_closed)
              (rw e (Arrow.close_acked t.seq t.ack f)) (simp (handle_tcp, big, port, e, f) refl)
      ]

  -- Every segment is handled. A segment that is too short or for another port changes nothing. Any
  -- other moves the socket along one arrow of the diagram, which stays in place only if the state
  -- has no use for the segment: the state and the acknowledgment number after it, the callback with
  -- the bytes that came, the segments sent in answer and their numbers are those of the arrow. The
  -- socket and its machine, whose buffers are in place, stay able to handle the next one.
  pub handle_tcp-Moves :
      (is_addressed payload size t ≡ true)
        × Moves
            (flags_of payload)
            (seq_of payload)
            (ack_of payload)
            (data_size payload size)
            (content_of payload)
            t
            h
            l
            (handle_tcp payload size t h l)
      ⊎ (is_addressed payload size t ≡ false)
        × (handle_tcp payload size t h l ≡ some (t, none, h, l))
  unfolding handle_tcp
  handle_tcp-Moves = elim (Bool-cases (ltb size 20)) [
    | inl e ↦ inr (ground arith, simp (handle_tcp, e) refl)
    | inr e ↦ elim (Bool-cases (ntohs (load16 payload 2) != t.local_port)) [
      | inl f ↦ inr (ground arith, simp (handle_tcp, e, f) refl)
      | inr f ↦ inl (ground arith, handle_state-Moves t.state refl e f)
    ]
  ]
