-- ===== src/Kernel/Syscall/Mailbox.antt =====
-- src/kernel/syscall.cpp: what a socket received reaches the shared page.
use layla_os.Base.{
  ℕ, ◌≤◌, ◌≡◌, refl, ap, ◌∙◌, true, false, List, ◌++◌, if◌then◌else◌, ltb, drop, arith,
}
use layla_os.Net.Wire.{read}
use layla_os.Net.Wire.Read.{length-read, read-append}
use layla_os.Kernel.Syscall.{net_buf_max_data, validate_net_shared, is_ring3_range}
use layla_os.Kernel.Syscall.Network.{
  Received, NetShared, rx_size, on_receive, recv_finish, clip_shared,
}

-- The length of what is kept.
abbrev pub kept : ℕ → ℕ
kept size = if ltb rx_size size then rx_size else size

page_valid : validate_net_shared net_buf_max_data ≡ true
unfolding validate_net_shared is_ring3_range
page_valid = refl

kept-le : (size : ℕ) → kept size ≤ rx_size
kept-le size = ground arith

recv_ready :
    (r : Received) (shared : NetShared)
    → r.ready ≡ true
    → recv_finish r shared ≡ (
      0,
      record { buf = r.buf; len = 0; ready = false },
      record {
        status = 0;
        data_len = clip_shared r.len;
        content = read (clip_shared r.len) r.buf ++ drop (clip_shared r.len) shared.content;
      },
    )
unfolding recv_finish
recv_ready r shared h = rw (recv_finish, page_valid, h) refl

recv_empty :
    (r : Received) (shared : NetShared)
    → r.ready ≡ false
    → recv_finish r shared ≡ (1, r, record { status = 1; data_len = 0; content = shared.content })
unfolding recv_finish
recv_empty r shared h = rw (recv_finish, page_valid, h) refl

on_receive_lem :
    (bytes : List ℕ) (size : ℕ) (r : Received)
    → let r' = on_receive bytes size r in
      (r'.buf ≡ read (kept size) bytes ++ drop (kept size) r.buf)
      × (r'.len ≡ kept size)
      × (r'.ready ≡ true)
unfolding on_receive
on_receive_lem bytes size r = (refl, refl, refl)

-- A receive call after a datagram or a segment has come in answers 0 and leaves in the shared page
-- the length and the bytes that came, up to 2048 of them; after it nothing is waiting, so that the
-- next call answers 1 with the length 0.
pub recv_finish-on_receive :
    (bytes : List ℕ) (size : ℕ) (r : Received) (shared : NetShared)
    → let (result, r', shared') = recv_finish (on_receive bytes size r) shared in
      (result ≡ 0)
      × (shared'.status ≡ 0)
      × (shared'.data_len ≡ kept size)
      × (read (kept size) shared'.content ≡ read (kept size) bytes)
      × (r'.ready ≡ false)
      × ((recv_finish r' shared').0 ≡ 1)
      × ((recv_finish r' shared').2.data_len ≡ 0)
recv_finish-on_receive bytes size r shared =
    let r1 = on_receive bytes size r in
    let (stored, long, waiting) = on_receive_lem bytes size r in
    let first = recv_ready r1 shared waiting in
    let (result, r2, shared') = recv_finish r1 shared in
    let empty : r2.ready ≡ false = ap (λ (a : ℕ × Received × NetShared). a.1.ready) first in
    let second = recv_empty r2 shared' empty in
    let n = kept size in
    let small : clip_shared r1.len ≡ n = ap clip_shared long ∙ ground (arith, kept-le size) in
    (
      ap (λ (a : ℕ × Received × NetShared). a.0) first,
      ap (λ (a : ℕ × Received × NetShared). a.2.status) first,
      ap (λ (a : ℕ × Received × NetShared). a.2.data_len) first ∙ small,
      ap (λ (a : ℕ × Received × NetShared). read n a.2.content) first
          ∙ ap (λ (k : ℕ). read n (read k r1.buf ++ drop k shared.content)) small
          ∙ read-append n (read n r1.buf) (drop n shared.content) (length-read n r1.buf)
          ∙ ap (read n) stored
          ∙ read-append n (read n bytes) (drop n r.buf) (length-read n bytes),
      empty,
      ap (λ (a : ℕ × Received × NetShared). a.0) second,
      ap (λ (a : ℕ × Received × NetShared). a.2.data_len) second,
    )
