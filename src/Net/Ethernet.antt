-- ===== src/Net/Ethernet.antt =====
-- src/net/ethernet.h, src/net/ethernet.cpp: the table of payload handlers and the dispatch of a
-- frame; src/drivers/rtl8139.cpp, `Send`: a frame in one of the four transmit buffers.
-- A handler is a value of `H`, its null pointer `none`. Dispatch only reads the table, so it is the
-- list of the calls that it makes, in their order.
pub mod Table
pub mod Frame
use layla_os.Base.{
  ℕ, zero, suc, ◌+◌, ◌-◌, ◌/◌, ◌%◌, List, [], ◌∷◌, ◌++◌, Option, none, some, ◌>>=◌, if◌then◌else◌,
  ltb, ◌==◌, bit_and, ◌>>>◌, get_or, set, take, drop, replicate, add32, Bool, true, false,
}
use layla_os.Net.Wire.{MacAddress, mac_bytes, load_mac, load16, ntohs, read, write_at}

pub record HandlerEntry {ℓ} (H : Type ℓ) : Type ℓ where
  pub ethertype : ℕ
  pub handler : Option H

pub record EthernetDriver {ℓ} (H : Type ℓ) : Type ℓ where
  pub handlers : List (HandlerEntry H)
  pub handler_count : ℕ

-- The arguments of one `HandleEthernetPayload`.
pub record PayloadCall {ℓ} (H : Type ℓ) : Type ℓ where
  pub callee : H
  pub payload : List ℕ
  pub size : ℕ
  pub src : MacAddress
  pub dst : MacAddress

module _ {ℓ} {H : Type ℓ} where
  unfoldable pub new_driver : EthernetDriver H
  new_driver = record {
    handlers = replicate 8 (record { ethertype = 0; handler = none });
    handler_count = 0;
  }

  unfoldable pub register_handler : ℕ → Option H → EthernetDriver H → EthernetDriver H
  register_handler ethertype h d =
      if ltb d.handler_count 8
      then record {
        handlers = set d.handlers d.handler_count (record { ethertype = ethertype; handler = h });
        handler_count = suc d.handler_count;
      }
      else d

  -- The loop over the first `n` entries.
  unfoldable pub dispatch_loop :
      ℕ → (H → PayloadCall H) → ℕ → List (HandlerEntry H) → List (PayloadCall H)
  dispatch_loop et call zero es = []
  dispatch_loop et call (suc n) [] = []
  dispatch_loop et call (suc n) (e ∷ es) =
      let rest = dispatch_loop et call n es in
      if e.ethertype == et then elim e.handler [ none ↦ rest | some h ↦ call h ∷ rest ] else rest

  unfoldable pub dispatch : EthernetDriver H → List ℕ → ℕ → List (PayloadCall H)
  dispatch d frame size =
      let call : H → PayloadCall H = λ h. record {
        callee = h;
        payload = drop 14 frame;
        size = size - 14;
        src = load_mac frame 6;
        dst = load_mac frame 0;
      } in
      if ltb size 14
      then []
      else dispatch_loop (ntohs (load16 frame 12)) call d.handler_count d.handlers

-- The card: its address, the transmit buffers, and the frames handed over, each the part of its
-- buffer that the size register names.
pub record Rtl8139 : Type 0 where
  pub mac : MacAddress
  pub tx_buffers : List (List ℕ)
  pub tx_current : ℕ
  pub sent : List (List ℕ)

unfoldable pub frame_size : ℕ → ℕ
frame_size size = let n = add32 14 size in if ltb n 60 then 60 else n

unfoldable pub frame_bytes : MacAddress → MacAddress → ℕ → List ℕ → ℕ → List ℕ
frame_bytes dst src ethertype payload size =
    mac_bytes dst
    ++ (mac_bytes src
        ++ (bit_and (ethertype >>> 8) 0xFF ∷ (bit_and ethertype 0xFF ∷ read size payload)))

-- `Send`, which always answers true.
unfoldable pub send_frame : MacAddress → ℕ → List ℕ → ℕ → Rtl8139 → Option Rtl8139
send_frame dst ethertype payload size card = do
  buf ←
      write_at (get_or card.tx_buffers card.tx_current []) 0
        (frame_bytes dst card.mac ethertype payload size)
  some (record {
    mac = card.mac;
    tx_buffers = set card.tx_buffers card.tx_current buf;
    tx_current = (card.tx_current + 1) % 4;
    sent = card.sent ++ (take (frame_size size) buf ∷ []);
  })
