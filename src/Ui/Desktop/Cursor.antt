-- ===== src/Ui/Desktop/Cursor.antt =====
-- src/ui/gui.cpp, `Desktop::OnMouseMove`: the cursor stays on the desktop.
use layla_os.Base.{ℕ, ◌+◌, ◌-◌, if◌then◌else◌, ltb, min}
use layla_os.Ui.Desktop.{Desktop}

-- A coordinate after a step to the right and to the left, held between 0 and `size - 1`.
abbrev pub after_step : ℕ → ℕ → ℕ → ℕ
after_step size a b = if ltb b 128 then min (a + b) (size - 1) else a - (256 - b)

abbrev pub after_step_back : ℕ → ℕ → ℕ → ℕ
after_step_back size a b = if ltb b 128 then a - b else min (a + (256 - b)) (size - 1)
