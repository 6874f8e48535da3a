-- ===== src/Drivers/Mouse/Packets.antt =====
-- src/drivers/mouse.cpp: the packets of a sequence of interrupts.
use layla_os.Base.{
  ℕ, ◌≡◌, refl, ap, List, [], ◌∷◌, ◌++◌, Option, none, some, Bool-cases, inl, inr, if◌then◌else◌,
  ◌==◌, bit_and,
}
use layla_os.Drivers.Mouse.{MouseDriver, Packet, packet, handle_mouse}

abbrev pub packet_list : Option Packet → List Packet
packet_list none = []
packet_list (some p) = p ∷ []

-- The interrupts, each with the two ports' bytes.
unfoldable pub handle_all : List (ℕ × ℕ) → MouseDriver → List Packet
handle_all [] m = []
handle_all ((status, byte) ∷ rest) m =
    packet_list (handle_mouse status byte m).1 ++ handle_all rest (handle_mouse status byte m).0

-- The bytes of the interrupts that the mouse raised.
pub mouse_bytes : List (ℕ × ℕ) → List ℕ
mouse_bytes [] = []
mouse_bytes ((status, byte) ∷ rest) =
    if bit_and status 0x20 == 0 then mouse_bytes rest else byte ∷ mouse_bytes rest

-- The packets of a sequence of bytes: three at a time, a rest of less than three is none.
pub packets : List ℕ → List Packet
packets (a ∷ (b ∷ (c ∷ rest))) = packet (a ∷ (b ∷ (c ∷ []))) ∷ packets rest
packets _ = []

-- The buffer with the bytes of the packet that has begun.
abbrev holding : List ℕ → ℕ → ℕ → ℕ → MouseDriver
holding [] x y z = record { buffer = x ∷ (y ∷ (z ∷ [])); offset = 0 }
holding (a ∷ []) x y z = record { buffer = a ∷ (y ∷ (z ∷ [])); offset = 1 }
holding (a ∷ (b ∷ _)) x y z = record { buffer = a ∷ (b ∷ (z ∷ [])); offset = 2 }

handle_all-holding :
    (events : List (ℕ × ℕ)) (x y z : ℕ)
    → (handle_all events (holding [] x y z) ≡ packets (mouse_bytes events))
      × ((a : ℕ) → handle_all events (holding (a ∷ []) x y z) ≡ packets (a ∷ mouse_bytes events))
      × ((a b : ℕ)
          → handle_all events (holding (a ∷ (b ∷ [])) x y z)
            ≡ packets (a ∷ (b ∷ mouse_bytes events)))
unfolding handle_all mouse_bytes packets handle_mouse
handle_all-holding [] x y z = (refl, (λ a. refl), (λ a b. refl))
handle_all-holding ((status, byte) ∷ rest) x y z = elim (Bool-cases (bit_and status 0x20 == 0)) [
  | inl other ↦ let same = handle_all-holding rest x y z in rw other same
  | inr ours ↦ rw ours (
    (handle_all-holding rest byte y z).1 byte,
    (λ a. (handle_all-holding rest a byte z).2 a byte),
    (λ a b.
        ap (λ (l : List Packet). packet (a ∷ (b ∷ (byte ∷ []))) ∷ l)
          (handle_all-holding rest a b byte).0),
  )
]

-- Whatever other interrupts lie between them, the bytes of the mouse reach the desktop in packets of
-- three, in their order and none of them twice, from an empty buffer on.
pub handle_all-packets :
    (events : List (ℕ × ℕ)) (x y z : ℕ)
    → handle_all events (record { buffer = x ∷ (y ∷ (z ∷ [])); offset = 0 })
      ≡ packets (mouse_bytes events)
handle_all-packets events x y z = (handle_all-holding events x y z).0
