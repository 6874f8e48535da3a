-- ===== src/Drivers/Keyboard.antt =====
-- src/drivers/keyboard.h, src/drivers/keyboard.cpp: from scan codes to characters.
-- The scan code that the port gives is an argument; drawing the character is left out.
pub mod Codes
mod Tests
use layla_os.Base.{
  ℕ, ◌+◌, List, [], ◌∷◌, ◌++◌, Option, none, some, Bool, true, false, ◌&&◌, ◌||◌, not,
  if◌then◌else◌, ltb, leb, ◌==◌, ◌!=◌, bit_and, get_or, replicate,
}
use layla_os.Kernel.Scheduler.{Scheduler}
use layla_os.Kernel.KeyboardBuffer.{KeyboardBuffer, enqueue, wake_waiters}

abbrev pub normal_table : List ℕ
normal_table =
    0
    ∷ 0
    ∷ 49
    ∷ 50
    ∷ 51
    ∷ 52
    ∷ 53
    ∷ 54
    ∷ 55
    ∷ 56
    ∷ 57
    ∷ 48
    ∷ 45
    ∷ 61
    ∷ 8
    ∷ 9
    ∷ 113
    ∷ 119
    ∷ 101
    ∷ 114
    ∷ 116
    ∷ 121
    ∷ 117
    ∷ 105
    ∷ 111
    ∷ 112
    ∷ 91
    ∷ 93
    ∷ 10
    ∷ 0
    ∷ 97
    ∷ 115
    ∷ 100
    ∷ 102
    ∷ 103
    ∷ 104
    ∷ 106
    ∷ 107
    ∷ 108
    ∷ 59
    ∷ 39
    ∷ 96
    ∷ 0
    ∷ 92
    ∷ 122
    ∷ 120
    ∷ 99
    ∷ 118
    ∷ 98
    ∷ 110
    ∷ 109
    ∷ 44
    ∷ 46
    ∷ 47
    ∷ 0
    ∷ 42
    ∷ 0
    ∷ 32
    ∷ replicate 30 0

abbrev pub shifted_table : List ℕ
shifted_table =
    0
    ∷ 0
    ∷ 33
    ∷ 64
    ∷ 35
    ∷ 36
    ∷ 37
    ∷ 94
    ∷ 38
    ∷ 42
    ∷ 40
    ∷ 41
    ∷ 95
    ∷ 43
    ∷ 8
    ∷ 9
    ∷ 81
    ∷ 87
    ∷ 69
    ∷ 82
    ∷ 84
    ∷ 89
    ∷ 85
    ∷ 73
    ∷ 79
    ∷ 80
    ∷ 123
    ∷ 125
    ∷ 10
    ∷ 0
    ∷ 65
    ∷ 83
    ∷ 68
    ∷ 70
    ∷ 71
    ∷ 72
    ∷ 74
    ∷ 75
    ∷ 76
    ∷ 58
    ∷ 34
    ∷ 126
    ∷ 0
    ∷ 124
    ∷ 90
    ∷ 88
    ∷ 67
    ∷ 86
    ∷ 66
    ∷ 78
    ∷ 77
    ∷ 60
    ∷ 62
    ∷ 63
    ∷ 0
    ∷ 42
    ∷ 0
    ∷ 32
    ∷ replicate 30 0

pub record KeyboardDriver : Type 0 where
  pub shift : Bool
  pub ctrl : Bool
  pub caps_lock : Bool

abbrev pub new_keyboard : KeyboardDriver
new_keyboard = record { shift = false; ctrl = false; caps_lock = false }

abbrev pub xor : Bool → Bool → Bool
xor true b = not b
xor false b = b

abbrev pub is_letter : ℕ → Bool
is_letter c = leb b'a' c && leb c b'z' || leb b'A' c && leb c b'Z'

-- The character of a key that is pressed, 0 for none, before `ctrl`.
unfoldable pub key_char : KeyboardDriver → ℕ → ℕ
key_char k scancode =
    if ltb scancode 88
    then get_or (if xor k.shift k.caps_lock then shifted_table else normal_table) scancode 0
    else 0

unfoldable pub apply_ctrl : KeyboardDriver → ℕ → ℕ
apply_ctrl k c = if k.ctrl && is_letter c then bit_and c 0x1F else c

-- The handler up to the character: the driver after a scan code, and the character if there is one.
unfoldable pub decode : KeyboardDriver → ℕ → KeyboardDriver × Option ℕ
decode k scancode =
    if scancode == 0x9D
    then (record k { ctrl = false }, none)
    else if scancode == 0xAA || scancode == 0xB6
    then (record k { shift = false }, none)
    else if scancode == 0x1D
    then (record k { ctrl = true }, none)
    else if scancode == 0x2A || scancode == 0x36
    then (record k { shift = true }, none)
    else if scancode == 0x3A
    then (record k { caps_lock = not k.caps_lock }, none)
    else if bit_and scancode 0x80 != 0
    then (k, none)
    else if key_char k scancode == 0
    then (k, none)
    else (k, some (apply_ctrl k (key_char k scancode)))

-- The handler: a character goes to the desktop if one is shown (the second result), else to the
-- keyboard buffer and its readers.
unfoldable pub handle_scancode :
    Bool
    → KeyboardDriver
    → ℕ
    → KeyboardBuffer
    → Option Scheduler
    → KeyboardDriver × Option ℕ × KeyboardBuffer × Option Scheduler
handle_scancode desktop k scancode ring s =
    let (k', c) = decode k scancode in
    elim c [
      | none ↦ (k', none, ring, s)
      | some c ↦
          if desktop then (k', some c, ring, s) else (k', none, enqueue ring c, wake_waiters s)
    ]
