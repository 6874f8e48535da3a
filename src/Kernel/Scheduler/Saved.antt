-- ===== src/Kernel/Scheduler/Saved.antt =====
-- src/kernel/scheduler.cpp, the first block of `Schedule`: what is saved of the current process.
use layla_os.Base.{
  ℕ, ◌≡◌, refl, ◌∙◌, sym, ap, subst, Bool, true, false, Option, none, some, List, Bool-cases,
  Option-cases, inl, inr, length, length-set, get_elem?, set, get_elem?-set_ne, get_elem?-set_self,
  get_elem?-lt,
}
use layla_os.Kernel.Process.{Process, ready, is_running}
use layla_os.Kernel.Scheduler.{Scheduler, preempt}

-- The current process, if it is running.
abbrev pub IsCurrent : Scheduler → ℕ → Process → Type 0
IsCurrent s c cur =
    (s.current_index ≡ some c)
    × (get_elem? s.processes c ≡ some cur)
    × (is_running cur.state ≡ true)

-- The table `ps` is that of `s` with the current process, if it was running, made ready and its stack
-- pointer kept; every other entry is the same. `was` tells whether it was running.
pub record Saves (s : Scheduler) (esp : ℕ) (ps : List Process) (was : Bool) : Type 0 where
  pub size : length ps ≡ length s.processes
  pub saved :
      (c : ℕ) (cur : Process)
      → IsCurrent s c cur
      → (was ≡ true) × (get_elem? ps c ≡ some (record cur { state = ready; esp = esp }))
  pub others :
      (i : ℕ) → ((cur : Process) → ¬ IsCurrent s i cur) → get_elem? ps i ≡ get_elem? s.processes i
  pub quiet : ((c : ℕ) (cur : Process) → ¬ IsCurrent s c cur) → was ≡ false

some-injective {ℓ} : {A : Type ℓ} {a b : A} → some a ≡ some b → a ≡ b
some-injective e = cc

none_ne_some {ℓ} : {A : Type ℓ} {a : A} → ¬ (◌≡◌ {A = Option A} none (some a))
none_ne_some e = cc

true_ne_false : ¬ (◌≡◌ {A = Bool} true false)
true_ne_false e = cc

nothing-Saves :
    (s : Scheduler) (esp : ℕ)
    → ((c : ℕ) (cur : Process) → ¬ IsCurrent s c cur)
    → preempt s.processes s.current_index esp ≡ (false, s.processes)
    → Saves s esp
        (preempt s.processes s.current_index esp).1
        (preempt s.processes s.current_index esp).0
nothing-Saves s esp nobody eq =
    subst (λ (r : Bool × List Process). Saves s esp r.1 r.0) (sym eq)
      (record {
        size = refl;
        saved = λ c cur is. absurd (nobody c cur is);
        others = λ i h. refl;
        quiet = λ h. refl;
      })

running-Saves :
    (s : Scheduler) (esp c : ℕ) (cur : Process)
    → IsCurrent s c cur
    → preempt s.processes s.current_index esp
      ≡ (true, set s.processes c (record cur { state = ready; esp = esp }))
    → Saves s esp
        (preempt s.processes s.current_index esp).1
        (preempt s.processes s.current_index esp).0
running-Saves s esp c cur is eq =
    let entry : Process = record cur { state = ready; esp = esp } in
    subst (λ (r : Bool × List Process). Saves s esp r.1 r.0) (sym eq)
      (record {
        size = length-set s.processes c entry;
        saved = λ k p (at_k, has_p, busy).
            let same : c ≡ k = some-injective (sym is.0 ∙ at_k) in
            let p_cur : cur ≡ p =
              some-injective (sym is.1 ∙ ap (get_elem? s.processes) same ∙ has_p) in
            (
              refl,
              ap (get_elem? (set s.processes c entry)) (sym same)
                  ∙ get_elem?-set_self s.processes c entry (get_elem?-lt s.processes c cur is.1)
                  ∙ ap (λ (q : Process). some (record q { state = ready; esp = esp })) p_cur,
            );
        others = λ i h.
            get_elem?-set_ne s.processes c i entry
              (λ same. h cur (subst (λ k. IsCurrent s k cur) same is));
        quiet = λ h. absurd (h c cur is);
      })

-- The first block of `Schedule` saves the current process.
pub preempt-Saves :
    (s : Scheduler) (esp : ℕ)
    → Saves s esp
        (preempt s.processes s.current_index esp).1
        (preempt s.processes s.current_index esp).0
unfolding preempt
preempt-Saves s esp = elim (Option-cases s.current_index) [
  | inl e ↦ nothing-Saves s esp (λ c cur is. none_ne_some (sym e ∙ is.0)) (simp (preempt, e))
  | inr (c, e) ↦ elim (Option-cases (get_elem? s.processes c)) [
    | inl out ↦
        nothing-Saves s esp
          (λ k cur is.
            none_ne_some
              (sym out ∙ ap (get_elem? s.processes) (some-injective (sym e ∙ is.0)) ∙ is.1))
          (simp (preempt, e, out))
    | inr (cur, at) ↦ elim (Bool-cases (is_running cur.state)) [
      | inl busy ↦ running-Saves s esp c cur (e, at, busy) (simp (preempt, e, at, busy))
      | inr idle ↦
          nothing-Saves s esp
            (λ k p is.
              let same : c ≡ k = some-injective (sym e ∙ is.0) in
              let p_cur : cur ≡ p =
                some-injective (sym at ∙ ap (get_elem? s.processes) same ∙ is.1) in
              true_ne_false
                (sym is.2 ∙ ap (λ (q : Process). is_running q.state) (sym p_cur) ∙ idle))
            (simp (preempt, e, at, idle))
    ]
  ]
]
