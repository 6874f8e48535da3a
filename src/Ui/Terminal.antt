-- ===== src/Ui/Terminal.antt =====
-- src/ui/terminal.h, src/ui/terminal.cpp: the grid of characters, the cursor, and the line editor
-- between the keyboard and the keyboard buffer. Drawing is the screen's and is left out.
-- A `char` is its byte. `none` is a write past the end of `input_line`.
pub mod Grid
pub mod Editor
mod Tests
use layla_os.Base.{
  ℕ, zero, suc, ◌+◌, ◌-◌, Bool, true, false, ◌&&◌, Option, none, some, ◌>>=◌, List, [], ◌∷◌, ◌++◌,
  if◌then◌else◌, ltb, leb, ◌==◌, get_or, set, take, drop, length, replicate,
}
use layla_os.Kernel.Scheduler.{Scheduler}
use layla_os.Kernel.KeyboardBuffer.{KeyboardBuffer, enqueue, wake_waiters}

abbrev pub cols : ℕ
cols = 40

abbrev pub rows : ℕ
rows = 23

abbrev pub col_text : ℕ
col_text = 220

pub record Terminal : Type 0 where
  pub grid : List (List ℕ)
  pub colors : List (List ℕ)
  pub cursor_col : ℕ
  pub cursor_row : ℕ
  pub input_line : List ℕ
  pub input_len : ℕ
  pub raw_input_mode : Bool

unfoldable pub new_terminal : Terminal
new_terminal = record {
  grid = replicate rows (replicate cols b' ');
  colors = replicate rows (replicate cols col_text);
  cursor_col = 0;
  cursor_row = 0;
  input_line = replicate 256 0;
  input_len = 0;
  raw_input_mode = false;
}

-- `grid[row][col] = v`.
abbrev pub set_cell : List (List ℕ) → ℕ → ℕ → ℕ → List (List ℕ)
set_cell cells row col v = set cells row (set (get_or cells row []) col v)

-- The rows move up by one, a blank row comes in at the bottom.
unfoldable pub scroll_up : Terminal → Terminal
scroll_up t = record t {
  grid = drop 1 t.grid ++ (replicate cols b' ' ∷ []);
  colors = drop 1 t.colors ++ (replicate cols col_text ∷ []);
  cursor_row = (if ltb 0 t.cursor_row then t.cursor_row - 1 else t.cursor_row);
}

unfoldable pub new_line : Terminal → Terminal
new_line t =
    let moved = record t { cursor_col = 0; cursor_row = t.cursor_row + 1 } in
    if leb rows (t.cursor_row + 1) then scroll_up moved else moved

-- The position before the cursor.
unfoldable pub step_back : Terminal → Terminal
step_back t =
    if ltb 0 t.cursor_col
    then record t { cursor_col = t.cursor_col - 1 }
    else if ltb 0 t.cursor_row
    then record t { cursor_row = t.cursor_row - 1; cursor_col = cols - 1 }
    else t

-- A character with the text colour at the cursor.
unfoldable pub put_at_cursor : Terminal → ℕ → Terminal
put_at_cursor t c = record t {
  grid = set_cell t.grid t.cursor_row t.cursor_col c;
  colors = set_cell t.colors t.cursor_row t.cursor_col col_text;
}

unfoldable pub backspace : Terminal → Terminal
backspace t = put_at_cursor (step_back t) b' '

unfoldable pub put_char : Terminal → ℕ → Terminal
put_char t c =
    let written = put_at_cursor t c in
    let moved = record written { cursor_col = t.cursor_col + 1 } in
    if c == 10
    then new_line t
    else if c == 8
    then backspace t
    else if leb cols (t.cursor_col + 1)
    then new_line moved
    else moved

-- `Print` of the characters before the final 0, and `SetShellOutput`.
abbrev pub print : List ℕ → Terminal → Terminal
print [] t = t
print (c ∷ str) t = print str (put_char t c)

-- `line[i] = c`.
abbrev pub store : List ℕ → ℕ → ℕ → Option (List ℕ)
store line i c = if ltb i (length line) then some (set line i c) else none

abbrev pub enqueue_all : List ℕ → KeyboardBuffer → KeyboardBuffer
enqueue_all [] k = k
enqueue_all (c ∷ line) k = enqueue_all line (enqueue k c)

-- The line so far.
abbrev pub with_line : Terminal → List ℕ → ℕ → Terminal
with_line t line len = record t { input_line = line; input_len = len }

unfoldable pub on_newline :
    Terminal
    → KeyboardBuffer
    → Option Scheduler
    → Option (Terminal × KeyboardBuffer × Option Scheduler)
on_newline t k s = do
  ended ← store t.input_line t.input_len 10
  line ← store ended (t.input_len + 1) 0
  some (
    with_line (put_char t 10) line 0,
    enqueue_all (take (t.input_len + 1) line) k,
    wake_waiters s,
  )

unfoldable pub on_printable :
    Terminal
    → KeyboardBuffer
    → Option Scheduler
    → ℕ
    → Option (Terminal × KeyboardBuffer × Option Scheduler)
on_printable t k s c = do
  line ← store t.input_line t.input_len c
  some (with_line (put_char t c) line (t.input_len + 1), k, s)

-- A `char` of 128 and more is negative.
unfoldable pub is_printable : ℕ → Bool
is_printable c = leb 32 c && ltb c 128

unfoldable pub on_key_press :
    Terminal
    → KeyboardBuffer
    → Option Scheduler
    → ℕ
    → Option (Terminal × KeyboardBuffer × Option Scheduler)
on_key_press t k s c =
    if t.raw_input_mode
    then some (t, enqueue k c, wake_waiters s)
    else if c == 8
    then some (
      if ltb 0 t.input_len then with_line (backspace t) t.input_line (t.input_len - 1) else t,
      k,
      s,
    )
    else if c == 10
    then on_newline t k s
    else if is_printable c && ltb t.input_len 255
    then on_printable t k s c
    else some (t, k, s)
