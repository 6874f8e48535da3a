-- ===== src/Net/Ethernet/Table.antt =====
-- src/net/ethernet.cpp: what registering a handler changes in the dispatch of a frame.
use layla_os.Base.{
  ℕ, zero, suc, ◌-◌, ◌≤◌, ◌<◌, List, [], ◌∷◌, ◌++◌, none, some, if◌then◌else◌, ltb, ◌==◌, ◌≡◌, refl,
  sym, ap, ◌∙◌, Bool-cases, Option-cases, inl, inr, set, length, length-set, append-nil, drop,
  arith,
}
use layla_os.Net.Wire.{load_mac, load16, ntohs}
use layla_os.Net.Ethernet.{
  HandlerEntry, EthernetDriver, PayloadCall, register_handler, dispatch_loop, dispatch,
}

module _ {ℓ} {H : Type ℓ} where
  abbrev pub IsValid : EthernetDriver H → Type 0
  IsValid d = (length d.handlers ≡ 8) × (d.handler_count ≤ 8)

  -- The call that a frame makes of one handler.
  abbrev pub payload_call : List ℕ → ℕ → H → PayloadCall H
  payload_call frame size h = record {
    callee = h;
    payload = drop 14 frame;
    size = size - 14;
    src = load_mac frame 6;
    dst = load_mac frame 0;
  }

  abbrev entry_calls : ℕ → HandlerEntry H → (H → PayloadCall H) → List (PayloadCall H)
  entry_calls et e call =
      if e.ethertype == et then elim e.handler [ none ↦ [] | some h ↦ call h ∷ [] ] else []

  dispatch_loop-set :
      (et : ℕ) (es : List (HandlerEntry H)) (call : H → PayloadCall H) (n : ℕ) (e : HandlerEntry H)
      → n < length es
      → dispatch_loop et call (suc n) (set es n e)
        ≡ dispatch_loop et call n es ++ entry_calls et e call
  unfolding dispatch_loop
  dispatch_loop-set et [] call n e h = absurd (omega arith)
  dispatch_loop-set et (x ∷ es) call zero e h = ground arith
  dispatch_loop-set et (x ∷ es) call (suc n) e h =
      let ih = dispatch_loop-set et es call n e (omega arith) in
      elim (Bool-cases (x.ethertype == et)) [
        | inl t ↦ elim (Option-cases x.handler) [
          | inl q ↦ rw (t, q) ih
          | inr q ↦ rw (t, q.1) (ap (λ (r : List (PayloadCall H)). call q.0 ∷ r) ih)
        ]
        | inr t ↦ rw t ih
      ]

  -- Registering a handler while the table has room adds one call at the end of the dispatch of every
  -- frame of that type, and changes nothing for other frames; with eight handlers it changes nothing.
  pub dispatch-register_handler :
      (d : EthernetDriver H) (et : ℕ) (h : H) (frame : List ℕ) (size : ℕ)
      → IsValid d
      → IsValid (register_handler et (some h) d)
        × (dispatch (register_handler et (some h) d) frame size
            ≡ dispatch d frame size
              ++ (if ltb size 14
                  then []
                  else if ltb d.handler_count 8
                  then if et == ntohs (load16 frame 12) then payload_call frame size h ∷ [] else []
                  else []))
  unfolding dispatch register_handler
  dispatch-register_handler d et h frame size v =
      let size_of = v.0 in
      elim (Bool-cases (ltb d.handler_count 8)) [
        | inl t ↦ elim (Bool-cases (ltb size 14)) [
          | inl u ↦
              rw (t, u) ((length-set d.handlers d.handler_count _ ∙ size_of, ground arith), refl)
          | inr u ↦
              rw (t, u)
                (
                  (length-set d.handlers d.handler_count _ ∙ size_of, ground arith),
                  dispatch_loop-set _ _ _ _ _ (ground arith),
                )
        ]
        | inr t ↦ elim (Bool-cases (ltb size 14)) [
          | inl u ↦ rw (t, u) (v, refl)
          | inr u ↦ rw (t, u) (v, sym (append-nil _))
        ]
      ]
