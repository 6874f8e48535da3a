-- ===== src/Kernel/Scheduler/Fairness.antt =====
-- Round robin over many ticks: no ready process waits for more than a round. And what becomes of the
-- stack pointer that a tick brings.
use layla_os.Base.{
  ℕ, suc, ◌+◌, ◌-◌, ◌%◌, ◌≤◌, ◌<◌, ◌≡◌, ◌≢◌, refl, subst, ◌∙◌, sym, ap, Bool, true, false, Option,
  none, some, List, [], ◌∷◌, arith, Bool-cases, Option-cases, inl, inr, ◌⊎◌, ℕ_discrete, dec_lt,
  length, get_elem?, get_elem?-set_self, get_elem?-set_ne, get_elem?-lt, take,
}
use native.Mathlib.Nat.{mod-add-mod, mod-lt}
use layla_os.Kernel.Process.{Process, running, ready, is_running}
use layla_os.Kernel.Scheduler.{
  Scheduler, ready_at, preempt, dispatch, schedule, start, or_current, scan_ready,
}
use layla_os.Kernel.Scheduler.Round.{FirstReady, around}
use layla_os.Kernel.Scheduler.Invariant.{IsValid, running_at}
use layla_os.Kernel.Scheduler.Switch.{
  preempted, Switched, schedule-cases, schedule-IsValid, preempt-saved, false_ne_true,
  length-schedule, start-le,
}

-- A timer tick for every stack pointer of the list.
pub ticks : Scheduler → List ℕ → Scheduler
ticks s [] = s
ticks s (esp ∷ rest) = ticks (schedule s esp).1 rest

ready_at-preempt :
    (ps : List Process) (c : Option ℕ) (esp i : ℕ)
    → ready_at ps i ≡ true
    → ready_at (preempt ps c esp).1 i ≡ true
unfolding preempt ready_at
ready_at-preempt ps none esp i h = h
ready_at-preempt ps (some c) esp i h = elim (Option-cases (get_elem? ps c)) [
  | inl e ↦ rw (e, preempt) h
  | inr (cur, e) ↦ elim (Bool-cases (is_running cur.state)) [
    | inr r ↦ rw (e, preempt) (rw r h)
    | inl r ↦
        rw (e, preempt)
          (rw r (elim (ℕ_discrete c i) [
            | yes same ↦ rw (
              ← same,
              get_elem?-set_self ps c (record cur { state = ready; esp = esp })
                  (get_elem?-lt ps c cur e),
              ready_at,
            )
            | no ne ↦
                rw (get_elem?-set_ne ps c i (record cur { state = ready; esp = esp }) ne, ready_at)
                  h
          ]))
  ]
]

after_switch :
    (s : Scheduler) (esp i d j : ℕ) (next : Process)
    → IsValid s
    → ready_at s.processes i ≡ true
    → i ≡ (start s.current_index + d) % length s.processes
    → FirstReady
        (preempted s esp)
        (length s.processes)
        (start s.current_index)
        (length s.processes)
        (some j)
    → Switched s esp j next (schedule s esp)
    → i ≢ j
    → (e : ℕ) × (e < d)
      × (ready_at (schedule s esp).1.processes i ≡ true)
      × (i ≡ (j + 1 + e) % length s.processes)
unfolding ready_at
after_switch s esp i d j next v r at (k, l, je, jr, before) w ne =
    let still = ready_at-preempt s.processes s.current_index esp i r in
    elim (dec_lt k d) [
      | yes near ↦ (
        d - k - 1,
        omega arith,
        rw
            (
              w.table,
              get_elem?-set_ne (preempted s esp) j i (record next { state = running })
                  (λ e. ne (sym e)),
              ready_at,
            )
            still,
        at
            ∙ ap (λ (m : ℕ). m % length s.processes) {x = start s.current_index + d}
                {y = start s.current_index + k + (1 + (d - k - 1))} (omega arith)
            ∙ sym (mod-add-mod (start s.current_index + k) (length s.processes) (1 + (d - k - 1)))
            ∙ ap (λ (m : ℕ). m % length s.processes)
                {x = (start s.current_index + k) % length s.processes + (1 + (d - k - 1))}
                {y = j + 1 + (d - k - 1)} (omega (arith, je)),
      )
      | no far ↦ elim (ℕ_discrete k d) [
        | yes e ↦ absurd (
            ne (
              at
              ∙ ap (λ (m : ℕ). (start s.current_index + m) % length s.processes) (sym e)
              ∙ sym je))
        | no apart ↦ absurd (
            false_ne_true (
              sym (before d (omega arith))
              ∙ subst (λ m. ready_at (preempted s esp) m ≡ true) at still))
      ]
    ]

-- What one tick does for a ready process that is `d` places after the current one.
step_towards :
    (s : Scheduler) (esp i d : ℕ)
    → IsValid s
    → ready_at s.processes i ≡ true
    → d < length s.processes
    → i ≡ (start s.current_index + d) % length s.processes
    → ((schedule s esp).1.current_index ≡ some i)
      ⊎ ((e : ℕ) × (e < d)
          × (ready_at (schedule s esp).1.processes i ≡ true)
          × (i ≡ (start (schedule s esp).1.current_index + e) % length s.processes))
step_towards s esp i d v r l at = elim (schedule-cases s esp v) [
  | inl (_, idle) ↦
      let inside : i < length s.processes =
        rw at (mod-lt (start s.current_index + d) {m = length s.processes} (omega arith)) in
      absurd (false_ne_true (sym (idle i inside).0 ∙ r))
  | inr (j, (f, (next, w))) ↦ elim (ℕ_discrete i j) [
    | yes e ↦ inl (w.current ∙ ap some (sym e))
    | no ne ↦
        let (e, near, still, place) = after_switch s esp i d j next v r at f w ne in
        inr (
          e,
          near,
          still,
          place ∙ ap (λ (c : Option ℕ). (start c + e) % length s.processes) (sym w.current),
        )
  ]
]

-- Within the next `length es` ticks the process at `i` has become the current one.
abbrev pub Served : Scheduler → List ℕ → ℕ → Type 0
Served s es i = (m : ℕ) × (m ≤ length es) × ((ticks s (take m es)).current_index ≡ some i)

reached_in :
    (es : List ℕ) (s : Scheduler) (i d : ℕ)
    → IsValid s
    → ready_at s.processes i ≡ true
    → d < length s.processes
    → i ≡ (start s.current_index + d) % length s.processes
    → d < length es
    → Served s es i
unfolding ticks
reached_in [] s i d v r l at h = absurd (omega arith)
reached_in (esp ∷ es) s i d v r l at h = elim (step_towards s esp i d v r l at) [
  | inl now ↦ (1, omega arith, now)
  | inr q ↦
      let same = length-schedule s esp v in
      let (m, le, now) =
        reached_in es (schedule s esp).1 i q.0 (schedule-IsValid s esp v) q.2
          (omega (arith, same, q.1))
          (q.3 ∙ ap (λ (n : ℕ). (start (schedule s esp).1.current_index + q.0) % n) (sym same))
          (omega (arith, q.1)) in
      (suc m, omega arith, now)
]

-- Under a valid table a ready process becomes the current one within as many ticks as there are
-- processes, whatever the ticks' stack pointers are.
pub ticks_serve :
    (s : Scheduler) (es : List ℕ) (i : ℕ)
    → IsValid s
    → ready_at s.processes i ≡ true
    → i < length s.processes
    → length es ≡ length s.processes
    → Served s es i
ticks_serve s es i v r l n =
    let (d, ld, at) =
      around (length s.processes) (start s.current_index) i l
        (start-le s.current_index (length s.processes) v.current) in
    reached_in es s i d v r ld at (omega arith)

saved_entry :
    (s : Scheduler) (esp c : ℕ) (cur : Process) (j : ℕ) (next : Process) (r : ℕ × Scheduler)
    → Switched s esp j next r
    → get_elem? (preempted s esp) c ≡ some (record cur { state = ready; esp = esp })
    → (p : Process) × (get_elem? r.1.processes c ≡ some p) × (p.esp ≡ esp)
saved_entry s esp c cur j next r w h = elim (ℕ_discrete j c) [
  | yes e ↦ (
    record next { state = running },
    rw (
      w.table,
      ← e,
      get_elem?-set_self (preempted s esp) j (record next { state = running })
          (get_elem?-lt (preempted s esp) j next w.chosen),
    ),
    ground (arith, w.chosen, h, e),
  )
  | no ne ↦ (
    record cur { state = ready; esp = esp },
    rw (w.table, get_elem?-set_ne (preempted s esp) j c (record next { state = running }) ne) h,
    refl,
  )
]

-- A tick saves the stack pointer of the process that it interrupts: if the current process was
-- running, its entry holds `esp` afterwards, whichever process is run.
pub schedule_saves :
    (s : Scheduler) (esp c : ℕ) (cur : Process)
    → IsValid s
    → s.current_index ≡ some c
    → get_elem? s.processes c ≡ some cur
    → is_running cur.state ≡ true
    → (p : Process) × (get_elem? (schedule s esp).1.processes c ≡ some p) × (p.esp ≡ esp)
schedule_saves s esp c cur v ec e r = elim (schedule-cases s esp v) [
  | inl (_, idle) ↦
      absurd
        (false_ne_true (sym (idle c (get_elem?-lt s.processes c cur e)).1 ∙ rw (e, running_at) r))
  | inr (j, (f, (next, w))) ↦ saved_entry s esp c cur j next (schedule s esp) w (
      subst
        (λ k.
          get_elem? (preempt s.processes k esp).1 c
          ≡ some (record cur { state = ready; esp = esp }))
        (sym ec) (preempt-saved s.processes c esp cur e r).1)
]

preempt-not_running :
    (ps : List Process) (c : Option ℕ) (i esp : ℕ) (cur : Process)
    → c ≡ some i
    → get_elem? ps i ≡ some cur
    → is_running cur.state ≡ false
    → preempt ps c esp ≡ (false, ps)
unfolding preempt
preempt-not_running ps c i esp cur ec e r = rw ec (rw (e, preempt) (rw r))

dispatch-esp :
    (s : Scheduler) (ps : List Process) (w : Bool) (o : Option ℕ) (esp esp' : ℕ)
    → (dispatch s ps w o esp).1 ≡ (dispatch s ps w o esp').1
unfolding dispatch
dispatch-esp s ps w none esp esp' = refl
dispatch-esp s ps w (some j) esp esp' = ground arith

-- The stack pointer of a tick is lost if the current process is not running, as after it has
-- blocked itself in a system call: the new state of the scheduler is the same for any two pointers,
-- though another process may be run.
pub schedule_forgets :
    (s : Scheduler) (esp esp' c : ℕ) (cur : Process)
    → s.current_index ≡ some c
    → get_elem? s.processes c ≡ some cur
    → is_running cur.state ≡ false
    → (schedule s esp).1 ≡ (schedule s esp').1
unfolding schedule
schedule_forgets s esp esp' c cur ec e r =
    rw
      (
        preempt-not_running s.processes s.current_index c esp cur ec e r,
        preempt-not_running s.processes s.current_index c esp' cur ec e r,
      )
      (dispatch-esp s s.processes false
        (or_current
          (scan_ready s.processes (length s.processes) (start s.current_index) (length s.processes))
          s.current_index)
        esp esp')
