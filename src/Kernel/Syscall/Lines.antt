-- ===== src/Kernel/Syscall/Lines.antt =====
-- src/kernel/syscall.cpp, `sys_read`: what it takes from the keyboard's ring.
use layla_os.Base.{
  ℕ, zero, suc, ◌≡◌, refl, sym, ap, ◌∙◌, ◌⊎◌, Bool-cases, inl, inr, Option, none, some, List, [],
  ◌∷◌, if◌then◌else◌, ◌==◌, length,
}
use layla_os.Kernel.KeyboardBuffer.{KeyboardBuffer, dequeue}
use layla_os.Kernel.KeyboardBuffer.Refine.{IsValid, contents, pop, dequeue_refines}
use layla_os.Kernel.Syscall.Waiting.{read_line, sys_read_finish}

-- The first line of a queue, with its line break, but at most `n` characters; and what follows it.
unfoldable pub first_line : ℕ → List ℕ → List ℕ × List ℕ
first_line zero q = ([], q)
first_line (suc n) [] = ([], [])
first_line (suc n) (c ∷ q) =
    let rest = first_line n q in if c == 10 then (c ∷ [], q) else (c ∷ rest.0, rest.1)

abbrev pub Reads : ℕ → KeyboardBuffer → List ℕ → KeyboardBuffer → Type 0
Reads n k line k' =
    IsValid k'
    × (line ≡ (first_line n (contents k)).0)
    × (contents k' ≡ (first_line n (contents k)).1)

-- A character is taken exactly if there is one.
queue-cases : (q : List ℕ) → (q ≡ []) ⊎ ((c : ℕ) × (more : List ℕ) × (q ≡ c ∷ more))
queue-cases [] = inl refl
queue-cases (c ∷ more) = inr (c, more, refl)

read_line-first_line :
    (n : ℕ) (k : KeyboardBuffer) → IsValid k → Reads n k (read_line n k).0 (read_line n k).1
unfolding read_line first_line
read_line-first_line zero k v = (v, refl, refl)
read_line-first_line (suc n) k v =
    let k' = (dequeue k).1 in
    let (valid, same) = dequeue_refines k v in
    let head = ap (λ (r : Option ℕ × List ℕ). r.0) same in
    let tail = ap (λ (r : Option ℕ × List ℕ). r.1) same in
    let (valid_rest, line_rest, left) = read_line-first_line n k' valid in
    elim (queue-cases (contents k)) [
      | inl e ↦
          let nothing : (dequeue k).0 ≡ none = head ∙ ap (λ (q : List ℕ). (pop q).0) e in
          rw (read_line, nothing)
            (
              valid,
              ap (λ (q : List ℕ). (first_line (suc n) q).0) (sym e),
              tail
                  ∙ ap (λ (q : List ℕ). (pop q).1) e
                  ∙ ap (λ (q : List ℕ). (first_line (suc n) q).1) (sym e),
            )
      | inr (c, more, e) ↦
          let got : (dequeue k).0 ≡ some c = head ∙ ap (λ (q : List ℕ). (pop q).0) e in
          let now : contents k' ≡ more = tail ∙ ap (λ (q : List ℕ). (pop q).1) e in
          elim (Bool-cases (c == 10)) [
            | inl ends ↦
                rw (read_line, got, ends)
                  (
                    valid,
                    sym (ap (λ (q : List ℕ). (first_line (suc n) q).0) e ∙ rw ends refl),
                    now ∙ sym (ap (λ (q : List ℕ). (first_line (suc n) q).1) e ∙ rw ends refl),
                  )
            | inr on ↦
                rw (read_line, got, on)
                  (
                    valid_rest,
                    ap (λ (l : List ℕ). c ∷ l)
                          (line_rest ∙ ap (λ (q : List ℕ). (first_line n q).0) now)
                        ∙ sym (ap (λ (q : List ℕ). (first_line (suc n) q).0) e ∙ rw on refl),
                    left
                        ∙ ap (λ (q : List ℕ). (first_line n q).1) now
                        ∙ sym (ap (λ (q : List ℕ). (first_line (suc n) q).1) e ∙ rw on refl),
                  )
          ]
    ]

-- sys_read, once it does not wait, takes from a valid ring the first line of the queue, with its line
-- break, but at most as many characters as asked for; it returns their number, stores them, and
-- leaves the others in their order.
pub sys_read_finish-first_line :
    (n : ℕ) (k : KeyboardBuffer)
    → IsValid k
    → let (result, line, k') = sys_read_finish n k in
      (line ≡ (first_line n (contents k)).0)
      × (result ≡ length line)
      × (contents k' ≡ (first_line n (contents k)).1)
      × IsValid k'
unfolding sys_read_finish
sys_read_finish-first_line n k v =
    let (valid, line, left) = read_line-first_line n k v in (line, refl, left, valid)
