-- ===== src/Ui/Desktop/Hits.antt =====
-- src/ui/gui.cpp, `Desktop::OnMouseDown`: which window a click goes to.
use layla_os.Base.{
  ℕ, zero, suc, ◌<◌, ◌≡◌, refl, ap, ◌∙◌, Option-cases, ℕ_discrete, Option, none, some, List, Bool,
  true, false, Bool-cases, inl, inr, get_elem?, length, arith,
}
use layla_os.Ui.Desktop.{Widget, Desktop, contains_point, window_at, desktop_on_mouse_down}

-- Whether the window at an index contains the point.
pub covers : List Widget → ℕ → ℕ → ℕ → Bool
covers windows px py i = elim (get_elem? windows i) [
  | none ↦ false
  | some v ↦ contains_point v px py
]

-- The topmost window below the index `n` that contains the point, if there is one.
pub IsTopmost : List Widget → ℕ → ℕ → ℕ → Option ℕ → Type 0
IsTopmost windows px py n none = (j : ℕ) → j < n → covers windows px py j ≡ false
IsTopmost windows px py n (some i) =
    (i < n)
    × (covers windows px py i ≡ true)
    × ((j : ℕ) → i < j → j < n → covers windows px py j ≡ false)

IsTopmost-above :
    (windows : List Widget) (px py n : ℕ) (found : Option ℕ)
    → covers windows px py n ≡ false
    → IsTopmost windows px py n found
    → IsTopmost windows px py (suc n) found
unfolding IsTopmost
IsTopmost-above windows px py n none miss t = λ j below. elim (ℕ_discrete j n) [
  | yes e ↦ ap (covers windows px py) e ∙ miss
  | no ne ↦ t j (omega arith)
]
IsTopmost-above windows px py n (some i) miss (inside, hit, above) = (
  omega arith,
  hit,
  λ j over below. elim (ℕ_discrete j n) [
    | yes e ↦ ap (covers windows px py) e ∙ miss
    | no ne ↦ above j over (omega arith)
  ],
)

window_at-IsTopmost :
    (windows : List Widget) (px py n : ℕ) → IsTopmost windows px py n (window_at n windows px py)
unfolding window_at IsTopmost covers
window_at-IsTopmost windows px py zero = λ j below. absurd (omega arith)
window_at-IsTopmost windows px py (suc n) =
    let rest = window_at-IsTopmost windows px py n in
    elim (Option-cases (get_elem? windows n)) [
      | inl e ↦ rw (window_at, e) (IsTopmost-above windows px py n _ (rw (covers, e) refl) rest)
      | inr (v, e) ↦ elim (Bool-cases (contains_point v px py)) [
        | inl hit ↦
            rw (window_at, e, hit)
              (omega arith, rw (covers, e, hit) refl, λ j over below. absurd (omega arith))
        | inr miss ↦
            rw (window_at, e, miss)
              (IsTopmost-above windows px py n _ (rw (covers, e, miss) refl) rest)
      ]
    ]

-- A click goes to the window added last among those that contain the point, and to none only if
-- none contains it.
pub desktop_on_mouse_down-IsTopmost :
    (d : Desktop) (px py : ℕ)
    → IsTopmost d.windows px py (length d.windows) (desktop_on_mouse_down d px py)
unfolding desktop_on_mouse_down
desktop_on_mouse_down-IsTopmost d px py = window_at-IsTopmost d.windows px py (length d.windows)
