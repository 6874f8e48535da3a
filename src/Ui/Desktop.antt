-- ===== src/Ui/Desktop.antt =====
-- src/ui/gui.h, src/ui/gui.cpp: the windows of the desktop and the mouse's cursor. Drawing is left out,
-- and a call of a window or a widget is its index. An `int32_t` is its word of 32 bits.
pub mod Cursor
pub mod Hits
mod Tests
use layla_os.Base.{
  ℕ, zero, suc, ◌+◌, ◌-◌, ◌/◌, ◌%◌, ◌^◌, List, [], ◌∷◌, ◌++◌, Option, none, some, Bool, true, false,
  ◌&&◌, if◌then◌else◌, ltb, leb, add32, sub32, u8, get_elem?, length,
}

-- `a < b` of two `int32_t`.
abbrev pub slt : ℕ → ℕ → Bool
slt a b = ltb (add32 a (2 ^ 31)) (add32 b (2 ^ 31))

abbrev pub sle : ℕ → ℕ → Bool
sle a b = leb (add32 a (2 ^ 31)) (add32 b (2 ^ 31))

-- `(int32_t)(int8_t)b`
abbrev pub sign_extend : ℕ → ℕ
sign_extend b = if ltb b 128 then b else add32 b (2 ^ 32 - 256)

pub record Widget : Type 0 where
  pub x : ℕ
  pub y : ℕ
  pub w : ℕ
  pub h : ℕ

unfoldable pub contains_point : Widget → ℕ → ℕ → Bool
contains_point v px py =
    sle v.x px && (slt px (add32 v.x v.w) && (sle v.y py && slt py (add32 v.y v.h)))

abbrev pub max_widgets : ℕ
max_widgets = 32

-- `Window::AddWidget` and `Desktop::AddWindow`, each with its limit.
unfoldable pub add_widget : ℕ → List Widget → Widget → List Widget
add_widget limit widgets v = if ltb (length widgets) limit then widgets ++ (v ∷ []) else widgets

abbrev pub add_to_window : List Widget → Widget → List Widget
add_to_window widgets v = add_widget max_widgets widgets v

-- `Window::OnMouseDown`: the widgets that are called, from the index `i` on.
unfoldable pub pressed_from : ℕ → List Widget → ℕ → ℕ → List ℕ
pressed_from i [] px py = []
pressed_from i (v ∷ vs) px py =
    let rest = pressed_from (suc i) vs px py in if contains_point v px py then i ∷ rest else rest

unfoldable pub window_on_mouse_down : List Widget → ℕ → ℕ → List ℕ
window_on_mouse_down widgets px py = pressed_from 0 widgets px py

-- `OnKeyPress` of a window and of the desktop: the last one gets the key.
unfoldable pub key_target : List Widget → Option ℕ
key_target [] = none
key_target (v ∷ vs) = some (length vs)

abbrev pub max_windows : ℕ
max_windows = 16

pub record Desktop : Type 0 where
  pub w : ℕ
  pub h : ℕ
  pub windows : List Widget
  pub mouse_x : ℕ
  pub mouse_y : ℕ
  pub mouse_buttons : ℕ

unfoldable pub new_desktop : ℕ → ℕ → Desktop
new_desktop w h = record {
  w = w;
  h = h;
  windows = [];
  mouse_x = w / 2;
  mouse_y = h / 2;
  mouse_buttons = 0;
}

unfoldable pub add_window : Desktop → Widget → Desktop
add_window d v = record d { windows = add_widget max_windows d.windows v }

-- The two tests on a coordinate after it has moved.
unfoldable pub keep_in : ℕ → ℕ → ℕ
keep_in size a =
    let above = if slt a 0 then 0 else a in if sle size above then sub32 size 1 else above

unfoldable pub on_mouse_move : Desktop → ℕ → ℕ → ℕ → Desktop
on_mouse_move d dx dy buttons = record d {
  mouse_x = keep_in d.w (add32 d.mouse_x dx);
  mouse_y = keep_in d.h (sub32 d.mouse_y dy);
  mouse_buttons = buttons;
}

-- The loop of `Desktop::OnMouseDown` and `OnMouseUp`, from the index `n - 1` down: the window called.
unfoldable pub window_at : ℕ → List Widget → ℕ → ℕ → Option ℕ
window_at zero windows px py = none
window_at (suc n) windows px py =
    let below = window_at n windows px py in
    elim (get_elem? windows n) [
      | none ↦ below
      | some v ↦ if contains_point v px py then some n else below
    ]

unfoldable pub desktop_on_mouse_down : Desktop → ℕ → ℕ → Option ℕ
desktop_on_mouse_down d px py = window_at (length d.windows) d.windows px py
