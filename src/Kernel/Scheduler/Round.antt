-- ===== src/Kernel/Scheduler/Round.antt =====
-- The search of `Schedule`: the first ready process after the current one, round the table.
use layla_os.Base.{
  ℕ, zero, suc, ◌+◌, ◌-◌, ◌%◌, ◌≤◌, ◌<◌, ◌≡◌, subst, ◌∙◌, ap, true, false, Option, none, some, List,
  arith, Bool-cases, inl, inr, dec_lt,
}
use native.Mathlib.Nat.{mod-eq_of_lt, mod-eq-sub-mod}
use layla_os.Kernel.Process.{Process}
use layla_os.Kernel.Scheduler.{ready_at, scan_ready}

-- `r` is the first ready index among the `n` that follow `at`, round a table of `count`.
abbrev pub FirstReady : List Process → ℕ → ℕ → ℕ → Option ℕ → Type 0
FirstReady ps count at n none = (k : ℕ) → k < n → ready_at ps ((at + k) % count) ≡ false
FirstReady ps count at n (some j) =
    (k : ℕ) × (k < n)
    × (j ≡ (at + k) % count)
    × (ready_at ps j ≡ true)
    × ((m : ℕ) → m < k → ready_at ps ((at + m) % count) ≡ false)

earlier :
    (ps : List Process) (count at n : ℕ)
    → ready_at ps (at % count) ≡ false
    → ((k : ℕ) → k < n → ready_at ps ((at + 1 + k) % count) ≡ false)
    → (k : ℕ) → k < suc n
    → ready_at ps ((at + k) % count) ≡ false
earlier ps count at n h f zero l =
    subst (λ i. ready_at ps (i % count) ≡ false) {x = at} {y = at + 0} (omega arith) h
earlier ps count at n h f (suc k) l =
    subst (λ i. ready_at ps (i % count) ≡ false) {x = at + 1 + k} {y = at + suc k} (omega arith)
      (f k (omega arith))

FirstReady-next :
    (ps : List Process) (count at n : ℕ) (r : Option ℕ)
    → ready_at ps (at % count) ≡ false
    → FirstReady ps count (at + 1) n r
    → FirstReady ps count at (suc n) r
FirstReady-next ps count at n none h f = earlier ps count at n h f
FirstReady-next ps count at n (some j) h (k, l, e, t, f) =
    (suc k, omega arith, e ∙ ap (λ (i : ℕ). i % count) (omega arith), t, earlier ps count at k h f)

pub scan_ready-FirstReady :
    (ps : List Process) (count at n : ℕ) → FirstReady ps count at n (scan_ready ps count at n)
unfolding scan_ready
scan_ready-FirstReady ps count at zero = λ k l. absurd (omega arith)
scan_ready-FirstReady ps count at (suc n) = elim (Bool-cases (ready_at ps (at % count))) [
  | inl hit ↦
      rw hit (
        zero,
        omega arith,
        ap (λ (i : ℕ). i % count) (omega arith),
        hit,
        λ m l. absurd (omega arith),
      )
  | inr miss ↦ rw miss (
      FirstReady-next ps count at n (scan_ready ps count (at + 1) n) miss
        (scan_ready-FirstReady ps count (at + 1) n))
]

-- Every index of the table is one of the `count` that follow `at`, for `at` up to `count`.
pub around :
    (count at i : ℕ) → i < count → at ≤ count → (k : ℕ) × (k < count) × (i ≡ (at + k) % count)
around count at i h l = elim (dec_lt i at) [
  | yes p ↦ (
    i + count - at,
    omega arith,
    let wrap : at + (i + count - at) ≡ i + count = omega arith in
        rw wrap (
          grind
            (arith, mod-eq-sub-mod {n = i + count} {m = count}, mod-eq_of_lt {n = i} {m = count})),
  )
  | no p ↦ (
    i - at,
    omega arith,
    let e : at + (i - at) ≡ i = omega arith in
        rw e (grind (arith, mod-eq_of_lt {n = i} {m = count})),
  )
]

-- If the search finds nothing, no process of the table is ready.
pub none-FirstReady :
    (ps : List Process) (count at : ℕ)
    → at ≤ count
    → FirstReady ps count at count none
    → (i : ℕ) → i < count
    → ready_at ps i ≡ false
none-FirstReady ps count at l f i h = let (k, lt, e) = around count at i h l in rw e (f k lt)
