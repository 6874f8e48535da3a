-- ===== src/Drivers/Mouse/Tests.antt =====
-- A packet with an interrupt of the keyboard between its bytes.
use layla_os.Base.{ℕ, ◌≡◌, refl, List, [], ◌∷◌, some, minus}
use layla_os.Ui.Desktop.{Desktop, new_desktop}
use layla_os.Drivers.Mouse.{packet, handle_mouse, deliver_packet}
use layla_os.Drivers.Mouse.Packets.{handle_all, mouse_bytes, packets, handle_all-packets}

abbrev events : List (ℕ × ℕ)
events = (0x21, 0x09) ∷ ((0x01, 0x1E) ∷ ((0x21, 5) ∷ ((0x21, 0xFE) ∷ ((0x21, 0x08) ∷ []))))

handle_all-packets_example :
    handle_all events (record { buffer = 0 ∷ (0 ∷ (0 ∷ [])); offset = 0 })
    ≡ packets (mouse_bytes events)
handle_all-packets_example = handle_all-packets events 0 0 0

-- Five to the right and two down with the left button.
packet_runs :
    handle_all events (record { buffer = 0 ∷ (0 ∷ (0 ∷ [])); offset = 0 })
    ≡ record { dx = 5; dy = minus 2; buttons = 1 } ∷ []
unfolding handle_all handle_mouse packet
packet_runs = refl

packet_moves :
    deliver_packet (some (new_desktop 320 200)) (record { dx = 5; dy = minus 2; buttons = 1 })
    ≡ some (record (new_desktop 320 200) { mouse_x = 165; mouse_y = 102; mouse_buttons = 1 })
unfolding deliver_packet new_desktop layla_os.Ui.Desktop.on_mouse_move layla_os.Ui.Desktop.keep_in
packet_moves = refl
