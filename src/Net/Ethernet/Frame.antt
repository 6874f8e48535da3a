-- ===== src/Net/Ethernet/Frame.antt =====
-- src/drivers/rtl8139.cpp, `Send`: the frame that goes out.
use layla_os.Base.{
  ℕ, ◌+◌, ◌-◌, ◌%◌, ◌≤◌, ◌<◌, List, [], ◌∷◌, ◌++◌, some, leb, ◌≡◌, refl, sym, ap, ◌∙◌, true, get_or,
  set, length, length-set, length-append, length-drop, length-take, get_or-set_self, get_or-set_ne,
  ℕ_discrete, take, take-append, drop, arith,
}
use layla_os.Net.Wire.Read.{length-read}
use layla_os.Net.Wire.{MacAddress, write_at}
use layla_os.Net.Ethernet.{Rtl8139, frame_size, frame_bytes, send_frame}

-- Four buffers of 1536 bytes, the current one among them.
abbrev pub IsReady : Rtl8139 → Type 0
IsReady card =
    ((i : ℕ) → i < 4 → length (get_or card.tx_buffers i []) ≡ 1536)
    × (length card.tx_buffers ≡ 4)
    × (card.tx_current < 4)

pub length-frame_bytes :
    (dst src : MacAddress) (et : ℕ) (payload : List ℕ) (size : ℕ)
    → length (frame_bytes dst src et payload size) ≡ 14 + size
unfolding frame_bytes
length-frame_bytes dst src et payload size = omega (arith, length-read size payload)

frame_size_lem : (size : ℕ) → size ≤ 1522 → frame_size size ≡ 14 + size + (46 - size)
unfolding frame_size
frame_size_lem size h = ground arith

-- Writing one buffer of the four leaves them all as long as they were.
IsReady-set :
    (card : Rtl8139) (buf : List ℕ) (i : ℕ)
    → IsReady card
    → length buf ≡ 1536
    → i < 4
    → length (get_or (set card.tx_buffers card.tx_current buf) i []) ≡ 1536
IsReady-set card buf i ready e h =
    let count = ready.1 in
    let current = ready.2 in
    elim (ℕ_discrete card.tx_current i) [
      | yes same ↦
          ap (λ (k : ℕ). length (get_or (set card.tx_buffers card.tx_current buf) k [])) (sym same)
          ∙ ap length (get_or-set_self card.tx_buffers card.tx_current buf [] (omega arith))
          ∙ e
      | no other ↦
          ap length (get_or-set_ne card.tx_buffers card.tx_current i buf [] other) ∙ ready.0 i h
    ]

-- A payload of at most 1522 bytes is sent: one frame goes out, made of the header, the payload and
-- whatever the buffer held after them up to the minimum of 60 bytes; the card is ready for the next.
pub send_frame_lem :
    (dst : MacAddress) (et : ℕ) (payload : List ℕ) (size : ℕ) (card : Rtl8139)
    → IsReady card
    → size ≤ 1522
    → (pad : List ℕ) × (card' : Rtl8139) × (send_frame dst et payload size card ≡ some card')
      × (card'.mac ≡ card.mac)
      × (card'.sent ≡ card.sent ++ ((frame_bytes dst card.mac et payload size ++ pad) ∷ []))
      × (length pad ≡ 46 - size)
      × IsReady card'
unfolding send_frame write_at
send_frame_lem dst et payload size card ready small =
    let f = frame_bytes dst card.mac et payload size in
    let lf = length-frame_bytes dst card.mac et payload size in
    let buf = get_or card.tx_buffers card.tx_current [] in
    let lbuf : length buf ≡ 1536 = ready.0 card.tx_current ready.2 in
    let rest = drop (0 + length f) buf in
    let fits : leb (0 + length f) (length buf) ≡ true = ground arith in
    let cut = take-append (frame_size size) f rest (omega (arith, frame_size_lem size small)) in
    let whole : length (f ++ rest) ≡ 1536 =
      omega (arith, length-append f rest, length-drop (0 + length f) buf) in
    let pad = take (frame_size size - length f) rest in
    rw fits (
      pad,
      record {
        mac = card.mac;
        tx_buffers = set card.tx_buffers card.tx_current (f ++ rest);
        tx_current = (card.tx_current + 1) % 4;
        sent = card.sent ++ (take (frame_size size) (f ++ rest) ∷ []);
      },
      refl,
      refl,
      ap (λ (t : List ℕ). card.sent ++ (t ∷ [])) cut,
      omega (
        arith,
        length-take (frame_size size - length f) rest,
        length-drop (0 + length f) buf,
        frame_size_lem size small,
      ),
      (
        λ i h. IsReady-set card (f ++ rest) i ready whole h,
        length-set card.tx_buffers card.tx_current (f ++ rest) ∙ ready.1,
        omega arith,
      ),
    )
