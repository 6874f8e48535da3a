-- ===== src/Ui/Terminal/Editor.antt =====
-- src/ui/terminal.cpp, `OnKeyPress`: the line editor against its description as a list of characters.
use layla_os.Base.{
  ℕ, zero, suc, ◌+◌, ◌-◌, ◌≤◌, ◌<◌, ◌≡◌, refl, sym, ap, ◌∙◌, Option, none, some, List, [], ◌∷◌,
  ◌++◌, Bool-cases, inl, inr, true, false, ◌&&◌, if◌then◌else◌, ltb, ◌==◌, set, take, length,
  length-set, length-take, arith,
}
use layla_os.Kernel.Scheduler.{Scheduler}
use layla_os.Kernel.KeyboardBuffer.{KeyboardBuffer, enqueue, wake_waiters}
use layla_os.Kernel.KeyboardBuffer.Refine.{IsValid as IsRing, contents, push, enqueue_refines}
use layla_os.Ui.Terminal.{
  Terminal, put_char, backspace, enqueue_all, with_line, on_newline, on_printable, is_printable,
  on_key_press,
}
use layla_os.Ui.Terminal.Grid.{IsValid, put_char-IsValid, backspace-IsValid}

-- The line typed so far.
abbrev pub typed : Terminal → List ℕ
typed t = take t.input_len t.input_line

-- One key in the editor: the new line, and the characters handed on.
abbrev pub edit : List ℕ → ℕ → List ℕ × List ℕ
edit line c =
    if c == 8
    then (take (length line - 1) line, [])
    else if c == 10
    then ([], line ++ (10 ∷ []))
    else if is_printable c && ltb (length line) 255
    then (line ++ (c ∷ []), [])
    else (line, [])

-- Characters put into the queue of the keyboard buffer, which drops what does not fit.
abbrev pub push_all : List ℕ → List ℕ → List ℕ
push_all q [] = q
push_all q (c ∷ line) = push_all (push q c) line

abbrev pub IsEditing : Terminal → Type 0
IsEditing t = IsValid t × (length t.input_line ≡ 256) × (t.input_len ≤ 255)

take-set_last :
    (xs : List ℕ) (n v : ℕ) → n < length xs → take (suc n) (set xs n v) ≡ take n xs ++ (v ∷ [])
take-set_last [] n v h = absurd (omega arith)
take-set_last (x ∷ xs) zero v h = refl
take-set_last (x ∷ xs) (suc n) v h = ap (λ (t : List ℕ). x ∷ t) (take-set_last xs n v (omega arith))

take-set_above : (xs : List ℕ) (n m v : ℕ) → n ≤ m → take n (set xs m v) ≡ take n xs
take-set_above xs zero m v h = refl
take-set_above [] (suc n) m v h = refl
take-set_above (x ∷ xs) (suc n) zero v h = absurd (omega arith)
take-set_above (x ∷ xs) (suc n) (suc m) v h =
    ap (λ (t : List ℕ). x ∷ t) (take-set_above xs n m v (omega arith))

take-take : (xs : List ℕ) (n m : ℕ) → m ≤ n → take m (take n xs) ≡ take m xs
take-take xs n zero h = refl
take-take xs zero (suc m) h = absurd (omega arith)
take-take [] (suc n) (suc m) h = refl
take-take (x ∷ xs) (suc n) (suc m) h = ap (λ (t : List ℕ). x ∷ t) (take-take xs n m (omega arith))

enqueue_all_refines :
    (line : List ℕ) (k : KeyboardBuffer)
    → IsRing k
    → IsRing (enqueue_all line k) × (contents (enqueue_all line k) ≡ push_all (contents k) line)
enqueue_all_refines [] k v = (v, refl)
enqueue_all_refines (c ∷ line) k v =
    let step = enqueue_refines k c v in
    let rest = enqueue_all_refines line (enqueue k c) step.0 in
    (rest.0, rest.1 ∙ ap (λ (q : List ℕ). push_all q line) step.1)

-- The result of a key: it is handled, the line and the queue are the editor's, and the terminal and
-- the buffer stay valid.
abbrev pub Edits :
    Terminal → KeyboardBuffer → ℕ → Option (Terminal × KeyboardBuffer × Option Scheduler) → Type 0
Edits t k c result =
    (t' : Terminal) × (k' : KeyboardBuffer) × (s' : Option Scheduler) × (result ≡ some (t', k', s'))
    × (typed t' ≡ (edit (typed t) c).0)
    × (contents k' ≡ push_all (contents k) (edit (typed t) c).1)
    × IsEditing t'
    × IsRing k'

with_line-IsValid :
    (t : Terminal) (line : List ℕ) (n : ℕ) → IsValid t → IsValid (with_line t line n)
with_line-IsValid t line n v = record {
  cells = v.cells;
  shades = v.shades;
  col_in = v.col_in;
  row_in = v.row_in;
}

length-typed : (t : Terminal) → IsEditing t → length (typed t) ≡ t.input_len
length-typed t v =
    let storage = v.1 in let bound = v.2 in omega (arith, length-take t.input_len t.input_line)

module _ (t : Terminal) (k : KeyboardBuffer) (s : Option Scheduler) (c : ℕ) (v : IsEditing t)
    (kv : IsRing k) (cooked : t.raw_input_mode ≡ false) where
  backspace-Edits : (c == 8) ≡ true → Edits t k c (on_key_press t k s c)
  unfolding on_key_press
  backspace-Edits e =
      let storage = v.1 in
      let bound = v.2 in
      let len = length-typed t v in
      let shorter = take-take t.input_line t.input_len (length (typed t) - 1) (omega arith) in
      elim (Bool-cases (ltb 0 t.input_len)) [
        | inl p ↦ (
          with_line (backspace t) t.input_line (t.input_len - 1),
          k,
          s,
          rw (on_key_press, cooked, e, p) refl,
          rw (edit, e)
              (ap (λ (n : ℕ). take n t.input_line) {x = t.input_len - 1} {y = length (typed t) - 1}
                  (omega arith)
                ∙ sym shorter),
          rw (edit, e) refl,
          (
            with_line-IsValid (backspace t) t.input_line (t.input_len - 1)
                (backspace-IsValid t v.0),
            storage,
            omega arith,
          ),
          kv,
        )
        | inr p ↦
            let empty : t.input_len ≡ length (typed t) - 1 = ground arith in
            (
              t,
              k,
              s,
              simp (on_key_press, cooked, e, p) refl,
              rw (edit, e) (ap (λ (n : ℕ). take n t.input_line) empty ∙ sym shorter),
              rw (edit, e) refl,
              v,
              kv,
            )
      ]

  newline-Edits :
      (c == 8) ≡ false → (c == 10) ≡ true → t.input_len < 255 → Edits t k c (on_key_press t k s c)
  unfolding on_key_press on_newline
  newline-Edits e f room =
      let storage = v.1 in
      let ended = set t.input_line t.input_len 10 in
      let line = set ended (t.input_len + 1) 0 in
      let le = length-set t.input_line t.input_len 10 in
      let ll = length-set ended (t.input_len + 1) 0 in
      let fit : ltb t.input_len (length t.input_line) ≡ true = ground arith in
      let fit_end : ltb (t.input_len + 1) (length ended) ≡ true = ground arith in
      let all = enqueue_all_refines (take (t.input_len + 1) line) k kv in
      let whole : take (t.input_len + 1) line ≡ typed t ++ (10 ∷ []) =
        take-set_above ended (t.input_len + 1) (t.input_len + 1) 0 (omega arith)
        ∙ ap (λ (n : ℕ). take n ended) {x = t.input_len + 1} {y = suc t.input_len} (omega arith)
        ∙ take-set_last t.input_line t.input_len 10 (omega arith) in
      (
        with_line (put_char t 10) line 0,
        enqueue_all (take (t.input_len + 1) line) k,
        wake_waiters s,
        rw (on_key_press, cooked, e, f, on_newline, fit, fit_end) refl,
        rw (edit, e, f) refl,
        rw (edit, e, f) (all.1 ∙ ap (push_all (contents k)) whole),
        (
          with_line-IsValid (put_char t 10) line 0 (put_char-IsValid t 10 v.0),
          ll ∙ le ∙ storage,
          omega arith,
        ),
        all.0,
      )

  printable-Edits : (c == 8) ≡ false → (c == 10) ≡ false → Edits t k c (on_key_press t k s c)
  unfolding on_key_press on_printable
  printable-Edits e f =
      let storage = v.1 in
      let bound = v.2 in
      let same = ap (λ (n : ℕ). is_printable c && ltb n 255) (length-typed t v) in
      elim (Bool-cases (is_printable c && ltb t.input_len 255)) [
        | inr g ↦ (
          t,
          k,
          s,
          simp (on_key_press, cooked, e, f, g) refl,
          rw (edit, e, f, same, g) refl,
          rw (edit, e, f, same, g) refl,
          v,
          kv,
        )
        | inl g ↦
            let room : t.input_len < 255 = ground arith in
            let line = set t.input_line t.input_len c in
            let fit : ltb t.input_len (length t.input_line) ≡ true = ground arith in
            (
              with_line (put_char t c) line (t.input_len + 1),
              k,
              s,
              rw (on_key_press, cooked, e, f, g, on_printable, fit) refl,
              rw (edit, e, f, same, g)
                  (ap (λ (n : ℕ). take n line) {x = t.input_len + 1} {y = suc t.input_len}
                      (omega arith)
                    ∙ take-set_last t.input_line t.input_len c (omega arith)),
              rw (edit, e, f, same, g) refl,
              (
                with_line-IsValid (put_char t c) line (t.input_len + 1) (put_char-IsValid t c v.0),
                length-set t.input_line t.input_len c ∙ storage,
                omega arith,
              ),
              kv,
            )
      ]

-- In line mode every key acts as in the editor, but for a line break after 255 characters: a backspace
-- takes the last character off the line, a printable character goes to its end while there are fewer
-- than 255, and a line break hands the line on with the break at its end.
pub on_key_press-edit :
    (t : Terminal) (k : KeyboardBuffer) (s : Option Scheduler) (c : ℕ)
    → IsEditing t
    → IsRing k
    → t.raw_input_mode ≡ false
    → (c ≡ 10 → t.input_len < 255)
    → Edits t k c (on_key_press t k s c)
on_key_press-edit t k s c v kv cooked room = elim (Bool-cases (c == 8)) [
  | inl e ↦ backspace-Edits t k s c v kv cooked e
  | inr e ↦ elim (Bool-cases (c == 10)) [
    | inl f ↦ newline-Edits t k s c v kv cooked e f (room (ground arith))
    | inr f ↦ printable-Edits t k s c v kv cooked e f
  ]
]

-- A line break after 255 characters writes past the end of the line's storage.
pub on_newline_overflow :
    (t : Terminal) (k : KeyboardBuffer) (s : Option Scheduler)
    → IsEditing t
    → t.input_len ≡ 255
    → t.raw_input_mode ≡ false
    → on_key_press t k s 10 ≡ none
unfolding on_key_press on_newline
on_newline_overflow t k s v full cooked =
    let storage = v.1 in
    let ended = set t.input_line t.input_len 10 in
    let le = length-set t.input_line t.input_len 10 in
    let fit : ltb t.input_len (length t.input_line) ≡ true = ground arith in
    let past : ltb (t.input_len + 1) (length ended) ≡ false = ground arith in
    rw (cooked, on_newline, fit, past) refl
