-- ===== src/Ui/Terminal/Grid.antt =====
-- src/ui/terminal.cpp: the cursor stays on the grid, whatever is printed.
use layla_os.Base.{
  ℕ, suc, ◌+◌, ◌<◌, ◌≡◌, refl, ap, ◌∙◌, List, [], ◌∷◌, ◌++◌, Bool-cases, inl, inr, ltb, leb, ◌==◌,
  get_or, set, drop, length, length-set, length-append, length-drop, length-replicate, replicate,
  get_or-set_self, get_or-set_ne, get_or-append_left, get_or-append_last, ℕ_discrete, arith,
}
use layla_os.Ui.Terminal.{
  cols, rows, col_text, Terminal, set_cell, scroll_up, new_line, step_back, put_at_cursor,
  backspace, put_char, print,
}

-- 23 rows of 40 cells.
abbrev IsGrid : List (List ℕ) → Type 0
IsGrid cells = (length cells ≡ rows) × ((i : ℕ) → i < rows → length (get_or cells i []) ≡ cols)

pub record IsValid (t : Terminal) : Type 0 where
  pub cells : IsGrid t.grid
  pub shades : IsGrid t.colors
  pub col_in : t.cursor_col < cols
  pub row_in : t.cursor_row < rows

set_cell-IsGrid :
    (cells : List (List ℕ)) (row col v : ℕ)
    → row < rows
    → IsGrid cells
    → IsGrid (set_cell cells row col v)
set_cell-IsGrid cells row col v h g =
    let count = g.0 in
    (
      length-set cells row (set (get_or cells row []) col v) ∙ g.0,
      λ i hi. elim (ℕ_discrete row i) [
        | yes e ↦
            ap (λ (k : ℕ). length (get_or (set_cell cells row col v) k [])) {x = i} {y = row}
              (omega arith)
            ∙ ap length
                (get_or-set_self cells row (set (get_or cells row []) col v) [] (omega arith))
            ∙ length-set (get_or cells row []) col v
            ∙ g.1 row h
        | no ne ↦
            ap length (get_or-set_ne cells row i (set (get_or cells row []) col v) [] ne) ∙ g.1 i hi
      ],
    )

get_or-drop : (cells : List (List ℕ)) (i : ℕ) → get_or (drop 1 cells) i [] ≡ get_or cells (suc i) []
get_or-drop [] i = refl
get_or-drop (x ∷ cells) i = refl

scroll-IsGrid :
    (cells : List (List ℕ)) (v : ℕ)
    → IsGrid cells
    → IsGrid (drop 1 cells ++ (replicate cols v ∷ []))
scroll-IsGrid cells v g =
    let count = g.0 in
    let left = length-drop 1 cells in
    (
      omega (arith, length-append (drop 1 cells) (replicate cols v ∷ [])),
      λ i hi. elim (ℕ_discrete i (length (drop 1 cells))) [
        | yes e ↦
            ap length (get_or-append_last (drop 1 cells) i (replicate cols v) [] e)
            ∙ length-replicate cols v
        | no ne ↦
            ap length (
              get_or-append_left (drop 1 cells) (replicate cols v ∷ []) i [] (omega arith)
              ∙ get_or-drop cells i)
            ∙ g.1 (suc i) (omega arith)
      ],
    )

new_line-IsValid :
    (t : Terminal) → IsGrid t.grid → IsGrid t.colors → t.cursor_row < rows → IsValid (new_line t)
unfolding new_line scroll_up
new_line-IsValid t cells shades row = elim (Bool-cases (leb rows (t.cursor_row + 1))) [
  | inl e ↦
      rw (new_line, e)
        (record {
          cells = scroll-IsGrid t.grid b' ' cells;
          shades = scroll-IsGrid t.colors col_text shades;
          col_in = omega arith;
          row_in = ground (arith, row);
        })
  | inr e ↦
      rw (new_line, e)
        (record { cells = cells; shades = shades; col_in = omega arith; row_in = ground arith })
]

put_at_cursor-IsValid : (t : Terminal) (c : ℕ) → IsValid t → IsValid (put_at_cursor t c)
unfolding put_at_cursor
put_at_cursor-IsValid t c v = record {
  cells = set_cell-IsGrid t.grid t.cursor_row t.cursor_col c v.row_in v.cells;
  shades = set_cell-IsGrid t.colors t.cursor_row t.cursor_col col_text v.row_in v.shades;
  col_in = v.col_in;
  row_in = v.row_in;
}

step_back-IsValid : (t : Terminal) → IsValid t → IsValid (step_back t)
unfolding step_back
step_back-IsValid t v = elim (Bool-cases (ltb 0 t.cursor_col)) [
  | inl e ↦
      rw (step_back, e)
        (record {
          cells = v.cells;
          shades = v.shades;
          col_in = (let inside = v.col_in in omega arith);
          row_in = v.row_in;
        })
  | inr e ↦ elim (Bool-cases (ltb 0 t.cursor_row)) [
    | inl f ↦
        rw (step_back, e, f)
          (record {
            cells = v.cells;
            shades = v.shades;
            col_in = omega arith;
            row_in = (let inside = v.row_in in omega arith);
          })
    | inr f ↦ simp (step_back, e, f) v
  ]
]

pub backspace-IsValid : (t : Terminal) → IsValid t → IsValid (backspace t)
unfolding backspace
backspace-IsValid t v = put_at_cursor-IsValid (step_back t) b' ' (step_back-IsValid t v)

-- Printing a character, a line break or a backspace keeps the cursor on the grid and the grid whole.
pub put_char-IsValid : (t : Terminal) (c : ℕ) → IsValid t → IsValid (put_char t c)
unfolding put_char
put_char-IsValid t c v =
    let w = put_at_cursor-IsValid t c v in
    elim (Bool-cases (c == 10)) [
      | inl e ↦ rw (put_char, e) (new_line-IsValid t v.cells v.shades v.row_in)
      | inr e ↦ elim (Bool-cases (c == 8)) [
        | inl f ↦ rw (put_char, e, f) (backspace-IsValid t v)
        | inr f ↦ elim (Bool-cases (leb cols (t.cursor_col + 1))) [
          | inl g ↦
              rw (put_char, e, f, g)
                (new_line-IsValid (record (put_at_cursor t c) { cursor_col = t.cursor_col + 1 })
                  w.cells w.shades w.row_in)
          | inr g ↦
              rw (put_char, e, f, g)
                (record {
                  cells = w.cells;
                  shades = w.shades;
                  col_in = ground arith;
                  row_in = w.row_in;
                })
        ]
      ]
    ]

-- So does printing a whole string.
pub print-IsValid : (str : List ℕ) (t : Terminal) → IsValid t → IsValid (print str t)
print-IsValid [] t v = v
print-IsValid (c ∷ str) t v = print-IsValid str (put_char t c) (put_char-IsValid t c v)
