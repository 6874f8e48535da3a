-- ===== src/Kernel/Scheduler/Invariant.antt =====
-- The scheduler's invariant: the table fits, the current index lies in it, and no process but the
-- current one is running.
use layla_os.Base.{
  ℕ, ◌≤◌, ◌<◌, ◌≡◌, ◌≢◌, refl, ◌∙◌, Bool, true, false, Option, none, some, List, arith, Bool-cases,
  Option-cases, inl, inr, ℕ_discrete, length, length-set, get_elem?, set, get_elem?-set_self,
  get_elem?-set_ne, get_elem?-lt,
}
use layla_os.Kernel.Process.{Process, is_running}
use layla_os.Kernel.Scheduler.{Scheduler, max_processes, preempt}

-- Is there a running process at an index?
abbrev pub running_at : List Process → ℕ → Bool
running_at ps i = elim (get_elem? ps i) [ none ↦ false | some p ↦ is_running p.state ]

abbrev pub Within : Option ℕ → ℕ → Type 0
Within none n = Unit {0}
Within (some c) n = c < n

pub record IsValid (s : Scheduler) : Type 0 where
  pub count : length s.processes ≤ max_processes
  pub current : Within s.current_index (length s.processes)
  pub single : (i : ℕ) → running_at s.processes i ≡ true → s.current_index ≡ some i

pub length-preempt :
    (ps : List Process) (c : Option ℕ) (esp : ℕ) → length (preempt ps c esp).1 ≡ length ps
unfolding preempt
length-preempt ps none esp = refl
length-preempt ps (some c) esp = elim (Option-cases (get_elem? ps c)) [
  | inl e ↦ rw (e, preempt)
  | inr (cur, e) ↦ elim (Bool-cases (is_running cur.state)) [
    | inl r ↦ rw (e, preempt) (rw r (length-set ps c _))
    | inr r ↦ rw (e, preempt) (rw r)
  ]
]

pub running_at-set_self :
    (ps : List Process) (c : ℕ) (p : Process)
    → c < length ps
    → running_at (set ps c p) c ≡ is_running p.state
running_at-set_self ps c p h = rw (get_elem?-set_self ps c p h, running_at)

pub running_at-set_ne :
    (ps : List Process) (c i : ℕ) (p : Process)
    → c ≢ i
    → running_at (set ps c p) i ≡ running_at ps i
running_at-set_ne ps c i p h = rw (get_elem?-set_ne ps c i p h, running_at)

-- Where only index `c` may be running and is not, nothing is.
quiet_of :
    (ps : List Process) (c : Option ℕ)
    → ((i : ℕ) → running_at ps i ≡ true → c ≡ some i)
    → ((i : ℕ) → c ≡ some i → running_at ps i ≡ false)
    → (i : ℕ) → running_at ps i ≡ false
quiet_of ps c only not_it i = elim (Bool-cases (running_at ps i)) [
  | inl t ↦ not_it i (only i t)
  | inr f ↦ f
]

quiet_at :
    (ps : List Process) (c i : ℕ)
    → running_at ps c ≡ false
    → some c ≡ some i
    → running_at ps i ≡ false
quiet_at ps c i h e = let e' : c ≡ i = ground arith in rw (← e') h

preempt-quiet :
    (ps : List Process) (c : Option ℕ) (esp : ℕ)
    → ((i : ℕ) → running_at ps i ≡ true → c ≡ some i)
    → (i : ℕ) → running_at (preempt ps c esp).1 i ≡ false
unfolding preempt
preempt-quiet ps none esp only i = quiet_of ps none only (λ j e. absurd (cc)) i
preempt-quiet ps (some c) esp only i = elim (Option-cases (get_elem? ps c)) [
  | inl e ↦
      rw (e, preempt) (quiet_of ps (some c) only (λ j. quiet_at ps c j (rw (e, running_at))) i)
  | inr (cur, e) ↦ elim (Bool-cases (is_running cur.state)) [
    | inl r ↦
        rw (e, preempt)
          (rw r (elim (ℕ_discrete c i) [
            | yes same ↦ rw (← same) (running_at-set_self ps c _ (get_elem?-lt ps c cur e))
            | no ne ↦ running_at-set_ne ps c i _ ne ∙ elim (Bool-cases (running_at ps i)) [
              | inl t ↦ absurd (ne (ground (arith, only i t)))
              | inr f ↦ f
            ]
          ]))
    | inr r ↦
        rw (e, preempt)
          (rw r (quiet_of ps (some c) only (λ j. quiet_at ps c j (rw (e, running_at) r)) i))
  ]
]

-- After the first block of `Schedule` no process is running.
pub preempt_quiet :
    (s : Scheduler) (esp : ℕ)
    → IsValid s
    → (i : ℕ) → running_at (preempt s.processes s.current_index esp).1 i ≡ false
preempt_quiet s esp v = preempt-quiet s.processes s.current_index esp v.single
