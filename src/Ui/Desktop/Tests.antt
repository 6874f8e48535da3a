-- ===== src/Ui/Desktop/Tests.antt =====
-- Two windows that overlap, and the cursor at the right edge.
use layla_os.Base.{◌≡◌, refl, [], ◌∷◌, none, some, length}
use layla_os.Ui.Desktop.{
  Widget, Desktop, new_desktop, add_window, desktop_on_mouse_down, window_on_mouse_down, key_target,
}
use layla_os.Ui.Desktop.Hits.{IsTopmost, desktop_on_mouse_down-IsTopmost}

abbrev under : Widget
under = record { x = 10; y = 10; w = 100; h = 60 }

abbrev over : Widget
over = record { x = 50; y = 40; w = 100; h = 60 }

abbrev screen : Desktop
screen =
    add_window (add_window (record (new_desktop 320 200) { mouse_x = 318; mouse_y = 1 }) under) over

desktop_on_mouse_down-IsTopmost_example :
    IsTopmost screen.windows 60 50 (length screen.windows) (desktop_on_mouse_down screen 60 50)
desktop_on_mouse_down-IsTopmost_example = desktop_on_mouse_down-IsTopmost screen 60 50

click_runs :
    (desktop_on_mouse_down screen 60 50 ≡ some 1)
    × (desktop_on_mouse_down screen 20 20 ≡ some 0)
    × (desktop_on_mouse_down screen 5 5 ≡ none)
    × (window_on_mouse_down screen.windows 60 50 ≡ 0 ∷ (1 ∷ []))
    × (key_target screen.windows ≡ some 1)
unfolding desktop_on_mouse_down layla_os.Ui.Desktop.window_at layla_os.Ui.Desktop.contains_point
    add_window layla_os.Ui.Desktop.add_widget new_desktop window_on_mouse_down
    layla_os.Ui.Desktop.pressed_from key_target
click_runs = (refl, refl, refl, refl, refl)
