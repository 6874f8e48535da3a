-- ===== src/Drivers/Mouse.antt =====
-- src/drivers/mouse.h, src/drivers/mouse.cpp: from the bytes of the mouse to its packets. What the ports
-- give is an argument; a call of the desktop's OnMouseMove is the packet that it gets.
pub mod Packets
mod Tests
use layla_os.Base.{
  ℕ, ◌+◌, ◌%◌, List, [], ◌∷◌, Option, none, some, Bool, if◌then◌else◌, ◌==◌, ◌!=◌, get_or, set, u8,
  bit_and,
}
use layla_os.Ui.Desktop.{Desktop, sign_extend, on_mouse_move}

pub record MouseDriver : Type 0 where
  pub buffer : List ℕ
  pub offset : ℕ

-- The two steps as `int32_t` and the three buttons.
pub record Packet : Type 0 where
  pub dx : ℕ
  pub dy : ℕ
  pub buttons : ℕ

-- What the desktop gets when the buffer is full.
unfoldable pub packet : List ℕ → Packet
packet buffer = record {
  dx = sign_extend (get_or buffer 1 0);
  dy = sign_extend (get_or buffer 2 0);
  buttons = bit_and (get_or buffer 0 0) 0x07;
}

-- `HandleInterrupt` with the bytes that the command port and the data port give.
unfoldable pub handle_mouse : ℕ → ℕ → MouseDriver → MouseDriver × Option Packet
handle_mouse status byte m =
    let buffer = set m.buffer m.offset byte in
    let offset = u8 (m.offset + 1) in
    if bit_and status 0x20 == 0
    then (m, none)
    else if offset != 3
    then (record { buffer = buffer; offset = offset }, none)
    else (record { buffer = buffer; offset = 0 }, some (packet buffer))

-- The packet reaches the desktop, if there is one.
unfoldable pub deliver_packet : Option Desktop → Packet → Option Desktop
deliver_packet none p = none
deliver_packet (some d) p = some (on_mouse_move d p.dx p.dy p.buttons)
