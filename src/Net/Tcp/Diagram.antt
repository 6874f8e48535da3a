-- ===== src/Net/Tcp/Diagram.antt =====
-- src/net/tcp.cpp, `HandleIPv4Payload`: the state diagram that the socket follows.
use layla_os.Base.{
  ℕ, ◌<◌, min, List, [], ◌∷◌, not, ◌==◌, Option, none, some, Bool, true, false, ◌&&◌, ◌!=◌, bit_and,
  bit_or, add32, ◌≡◌,
}
use layla_os.Net.Wire.{read}
use layla_os.Net.Tcp.{tcp_fin, tcp_syn, tcp_ack, TcpState, TcpEvent}

-- Flag `f` of a segment.
abbrev pub has : ℕ → ℕ → Bool
has f flags = bit_and flags f != 0

-- A segment for the socket that its state has no use for.
abbrev pub is_inert : ℕ → ℕ → TcpState → Bool
is_inert flags size TcpState.syn_sent = not (has tcp_syn flags && has tcp_ack flags)
is_inert flags size TcpState.established = not (has tcp_fin flags) && size == 0
is_inert flags size TcpState.fin_wait_1 = not (has tcp_ack flags)
is_inert flags size TcpState.fin_wait_2 = not (has tcp_fin flags)
is_inert flags size TcpState.last_ack = not (has tcp_ack flags)
is_inert flags size _ = true

-- The diagram: for the flags, the two numbers and the data of a segment, the state, the sequence and
-- the acknowledgment number before; the callback; the flags of the segments sent in answer, in
-- their order; and the state, the sequence number that the first answer has, and the acknowledgment
-- number after.
pub data Arrow (flags in_seq in_ack size : ℕ) (content : List ℕ)
    : TcpState → ℕ → ℕ → Option TcpEvent → List ℕ → TcpState → ℕ → ℕ → Type 0 where
  ignores :
      (s : TcpState) (seq ack : ℕ)
      → is_inert flags size s ≡ true
      → Arrow flags in_seq in_ack size content s seq ack none [] s seq ack
  opens :
      (seq ack : ℕ)
      → has tcp_syn flags ≡ true
      → has tcp_ack flags ≡ true
      → Arrow flags in_seq in_ack size content TcpState.syn_sent seq ack
          (some TcpEvent.on_connected)
          (tcp_ack ∷ [])
          TcpState.established
          in_ack
          (add32 in_seq 1)
  receives :
      (seq ack n : ℕ) (buf : List ℕ)
      → has tcp_fin flags ≡ false
      → 0 < size
      → n ≡ min size 8192
      → read n buf ≡ read n content
      → Arrow flags in_seq in_ack size content TcpState.established seq ack
          (some (TcpEvent.on_receive buf n))
          (tcp_ack ∷ [])
          TcpState.established
          seq
          (add32 in_seq size)
  peer_closes :
      (seq ack : ℕ)
      → has tcp_fin flags ≡ true
      → Arrow flags in_seq in_ack size content TcpState.established seq ack none
          (tcp_ack ∷ (bit_or tcp_fin tcp_ack ∷ []))
          TcpState.last_ack
          seq
          (add32 in_seq 1)
  close_acked :
      (seq ack : ℕ)
      → has tcp_ack flags ≡ true
      → Arrow flags in_seq in_ack size content TcpState.last_ack seq ack
          (some TcpEvent.on_closed)
          []
          TcpState.closed
          seq
          ack
  fin_acked :
      (seq ack : ℕ)
      → has tcp_ack flags ≡ true
      → Arrow flags in_seq in_ack size content TcpState.fin_wait_1 seq ack none []
          TcpState.fin_wait_2 seq ack
  peer_follows :
      (seq ack : ℕ)
      → has tcp_fin flags ≡ true
      → Arrow flags in_seq in_ack size content TcpState.fin_wait_2 seq ack
          (some TcpEvent.on_closed)
          (tcp_ack ∷ [])
          TcpState.closed
          seq
          (add32 in_seq 1)
