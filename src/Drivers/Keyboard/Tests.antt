-- ===== src/Drivers/Keyboard/Tests.antt =====
-- Keys with and without the modifiers.
use layla_os.Base.{◌≡◌, refl, some, true, false}
use layla_os.Drivers.Keyboard.{key_char, apply_ctrl, decode}

control_c : (decode (record { shift = false; ctrl = true; caps_lock = false }) 0x2E).1 ≡ some 3
unfolding decode key_char apply_ctrl
control_c = refl
