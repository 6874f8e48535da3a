-- ===== src/Net/Tcp/Callbacks.antt =====
-- src/net/tcp.cpp: the order of the callbacks over a connection's life.
use layla_os.Base.{
  ℕ, List, [], ◌∷◌, Option, none, some, ◌>>=◌, inl, inr, Bool, true, ◌&&◌, ◌||◌, ◌==◌, ◌≡◌, refl,
  arith,
}
use layla_os.Net.Arp.{Link}
use layla_os.Net.Ipv4.{Ipv4Handler}
use layla_os.Net.Tcp.{TcpState, TcpEvent, TcpSocket}
use layla_os.Net.Tcp.Receive.{handle_tcp}
use layla_os.Net.Tcp.Diagram.{Arrow}
use layla_os.Net.Tcp.Automaton.{IsLive}
use layla_os.Net.Tcp.Life.{flags_of, seq_of, ack_of, content_of, data_size, handle_tcp-Moves}

-- How far a connection is: being opened, open, being closed, over.
abbrev pub stage : TcpState → ℕ
stage TcpState.syn_sent = 0
stage TcpState.established = 1
stage TcpState.fin_wait_1 = 2
stage TcpState.fin_wait_2 = 2
stage TcpState.last_ack = 2
stage _ = 3

-- The callbacks in order: `OnConnected` once and first, `OnReceive` while open, `OnClosed` once and last.
abbrev pub in_order : ℕ → List TcpEvent → Bool
in_order k [] = true
in_order k (TcpEvent.on_connected ∷ es) = k == 0 && in_order 1 es
in_order k (TcpEvent.on_receive buf n ∷ es) = k == 1 && in_order 1 es
in_order k (TcpEvent.on_closed ∷ es) = (k == 1 || k == 2) && in_order 3 es

abbrev emit : Option TcpEvent → List TcpEvent → List TcpEvent
emit none es = es
emit (some e) es = e ∷ es

in_order_sooner : (es : List TcpEvent) → in_order 2 es ≡ true → in_order 1 es ≡ true
in_order_sooner [] o = refl
in_order_sooner (TcpEvent.on_connected ∷ es) o = absurd (ground arith)
in_order_sooner (TcpEvent.on_receive buf n ∷ es) o = absurd (ground arith)
in_order_sooner (TcpEvent.on_closed ∷ es) o = o

-- One arrow in front of a run.
in_order-Arrow :
    (flags in_seq in_ack size : ℕ) (content : List ℕ) {seq seq' ack ack' : ℕ} {s s' : TcpState}
    {event : Option TcpEvent} {answers : List ℕ} (es : List TcpEvent)
    → Arrow flags in_seq in_ack size content s seq ack event answers s' seq' ack'
    → in_order (stage s') es ≡ true
    → in_order (stage s) (emit event es) ≡ true
in_order-Arrow flags in_seq in_ack size content es (Arrow.ignores s seq ack a) o = o
in_order-Arrow flags in_seq in_ack size content es (Arrow.opens seq ack a b) o = o
in_order-Arrow flags in_seq in_ack size content es (Arrow.receives seq ack n buf a b c d) o = o
in_order-Arrow flags in_seq in_ack size content es (Arrow.peer_closes seq ack a) o =
    in_order_sooner es o
in_order-Arrow flags in_seq in_ack size content es (Arrow.close_acked seq ack a) o = o
in_order-Arrow flags in_seq in_ack size content es (Arrow.fin_acked seq ack a) o = o
in_order-Arrow flags in_seq in_ack size content es (Arrow.peer_follows seq ack a) o = o

module _ {ℓ} {H : Type ℓ} where
  -- A list of segments, each with its size, handled one after the other: the callbacks made.
  abbrev pub handle_all :
      List (List ℕ × ℕ)
      → TcpSocket
      → Ipv4Handler H
      → Link
      → Option (List TcpEvent × TcpSocket × Ipv4Handler H × Link)
  handle_all [] t h l = some ([], t, h, l)
  handle_all ((payload, size) ∷ rest) t h l = do
    (t1, event, h1, l1) ← handle_tcp payload size t h l
    (es, t2, h2, l2) ← handle_all rest t1 h1 l1
    some (emit event es, t2, h2, l2)

  -- Whatever segments arrive, in whatever order, they are all handled, and the callbacks come in order:
  -- `OnConnected` at most once and before the others, `OnReceive` only on an open connection, `OnClosed`
  -- at most once and after the others.
  pub handle_all-in_order :
      (segments : List (List ℕ × ℕ)) (t : TcpSocket) (h : Ipv4Handler H) (l : Link)
      → IsLive t h l
      → (es : List TcpEvent) × (t' : TcpSocket) × (h' : Ipv4Handler H) × (l' : Link) × (handle_all
            segments t h l
          ≡ some (es, t', h', l'))
        × (in_order (stage t.state) es ≡ true)
        × IsLive t' h' l'
  handle_all-in_order [] t h l live = ([], t, h, l, refl, refl, live)
  handle_all-in_order ((payload, size) ∷ rest) t h l live =
      elim (handle_tcp-Moves payload size t h l live) [
        | inl (here, (t1, event, h1, l1, eq, moved)) ↦
            let r = handle_all-in_order rest t1 h1 l1 moved.live in
            (
              emit event r.0,
              r.1,
              r.2,
              r.3,
              rw (eq, r.4) refl,
              in_order-Arrow (flags_of payload) (seq_of payload) (ack_of payload)
                  (data_size payload size) (content_of payload) r.0 moved.arrow r.5,
              r.6,
            )
        | inr (other, eq) ↦
            let r = handle_all-in_order rest t h l live in
            (r.0, r.1, r.2, r.3, rw (eq, r.4) refl, r.5, r.6)
      ]
