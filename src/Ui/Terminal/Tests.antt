-- ===== src/Ui/Terminal/Tests.antt =====
-- A terminal at work, and instances of its theorems.
use layla_os.Base.{
  ℕ, refl, [], ◌∷◌, none, false, get_or-replicate, replicate, length, length-replicate, ap, ◌∙◌,
  arith,
}
use layla_os.Kernel.KeyboardBuffer.{KeyboardBuffer}
use layla_os.Kernel.KeyboardBuffer.Refine.{IsValid as IsRing}
use layla_os.Ui.Terminal.{rows, cols, col_text, Terminal, print, on_key_press}
use layla_os.Ui.Terminal.Grid.{IsValid, print-IsValid}
use layla_os.Ui.Terminal.Editor.{Edits, on_key_press-edit}

-- A terminal with the cursor in the last cell and `n` characters typed.
abbrev at_end : ℕ → Terminal
at_end n = record {
  grid = replicate rows (replicate cols b' ');
  colors = replicate rows (replicate cols col_text);
  cursor_col = 39;
  cursor_row = 22;
  input_line = replicate 256 b'a';
  input_len = n;
  raw_input_mode = false;
}

at_end-IsValid : (n : ℕ) → IsValid (at_end n)
at_end-IsValid n = record {
  cells = (refl, λ i h. ap length (get_or-replicate rows i (replicate cols b' ') [] h) ∙ refl);
  shades = (refl, λ i h. ap length (get_or-replicate rows i (replicate cols col_text) [] h) ∙ refl);
  col_in = omega arith;
  row_in = omega arith;
}

abbrev empty_ring : KeyboardBuffer
empty_ring = record { buffer = replicate 256 0; head = 0; tail = 0 }

empty_ring-IsValid : IsRing empty_ring
empty_ring-IsValid = record { storage = refl; head_in = omega arith; tail_in = omega arith }

print-IsValid_example : IsValid (print (b'o' ∷ (b'k' ∷ (10 ∷ []))) (at_end 0))
print-IsValid_example = print-IsValid (b'o' ∷ (b'k' ∷ (10 ∷ []))) (at_end 0) (at_end-IsValid 0)

on_key_press-edit_example :
    Edits (at_end 3) empty_ring 10 (on_key_press (at_end 3) empty_ring none 10)
on_key_press-edit_example =
    on_key_press-edit (at_end 3) empty_ring none 10
      (at_end-IsValid 3, length-replicate {A = ℕ} 256 b'a', omega arith) empty_ring-IsValid refl
      (λ e. omega arith)
