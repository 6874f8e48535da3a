-- ===== src/Kernel/Scheduler/Switch.antt =====
-- `Schedule` as a whole: which process it runs, and what it returns.
use layla_os.Base.{
  ℕ, ◌≤◌, ◌<◌, ◌≡◌, ◌≢◌, refl, subst, ◌∙◌, sym, ap, Bool, true, false, ◌&&◌, not, Option, none,
  some, List, arith, Bool-cases, Option-cases, inl, inr, ◌⊎◌, ℕ_discrete, if◌then◌else◌, ◌!=◌,
  length, length-set, get_elem?, set, get_elem?-set_self, get_elem?-lt,
}
use layla_os.Kernel.Process.{Process, running, ready, is_ready, is_running}
use layla_os.Kernel.Scheduler.{
  Scheduler, ready_at, preempt, dispatch, schedule, scan_ready, start, or_current, is_index,
}
use layla_os.Kernel.Scheduler.Round.{FirstReady, scan_ready-FirstReady, none-FirstReady}
use layla_os.Kernel.Scheduler.Saved.{Saves, preempt-Saves}
use layla_os.Kernel.Scheduler.Invariant.{
  IsValid, Within, running_at, length-preempt, preempt_quiet, running_at-set_ne,
}

-- The table after the first block, and whether the current process was running.
abbrev pub preempted : Scheduler → ℕ → List Process
preempted s esp = (preempt s.processes s.current_index esp).1

abbrev pub was_running : Scheduler → ℕ → Bool
was_running s esp = (preempt s.processes s.current_index esp).0

-- A switch to the process `next` at index `j`.
pub record Switched (s : Scheduler) (esp j : ℕ) (next : Process) (r : ℕ × Scheduler) : Type 0 where
  pub chosen : get_elem? (preempted s esp) j ≡ some next
  pub table : r.1.processes ≡ set (preempted s esp) j (record next { state = running })
  pub current : r.1.current_index ≡ some j
  pub stack : r.1.kernel_stack ≡ next.stack_top
  pub directory : r.1.active_dir ≡ (if next.page_dir != 0 then next.page_dir else s.active_dir)
  pub pointer :
      r.0 ≡ (if not (was_running s esp) && is_index s.current_index j then esp else next.esp)

pub false_ne_true : ◌≢◌ {A = Bool} false true
false_ne_true h = cc

pub ready_process :
    (ps : List Process) (j : ℕ)
    → ready_at ps j ≡ true
    → (p : Process) × (get_elem? ps j ≡ some p) × (is_ready p.state ≡ true)
unfolding ready_at
ready_process ps j h = elim (Option-cases (get_elem? ps j)) [
  | inl e ↦ absurd (cc (rw (e, ready_at) at h))
  | inr (p, e) ↦ (p, e, rw (e, ready_at) at h)
]

dispatch-ready :
    (s : Scheduler) (esp j : ℕ) (p : Process)
    → get_elem? (preempted s esp) j ≡ some p
    → is_ready p.state ≡ true
    → Switched s esp j p (dispatch s (preempted s esp) (was_running s esp) (some j) esp)
unfolding dispatch
dispatch-ready s esp j p e t =
    rw (e, dispatch)
      (rw t (record {
        chosen = e;
        table = refl;
        current = refl;
        stack = refl;
        directory = refl;
        pointer = refl;
      }))

dispatch-idle :
    (s : Scheduler) (ps : List Process) (w : Bool) (c : Option ℕ) (esp : ℕ)
    → ((i : ℕ) → c ≡ some i → ready_at ps i ≡ false)
    → dispatch s ps w c esp ≡ (esp, record s { processes = ps })
unfolding dispatch ready_at
dispatch-idle s ps w none esp h = refl
dispatch-idle s ps w (some i) esp h = ground (arith, h i refl)

pub start-le : (c : Option ℕ) (n : ℕ) → Within c n → start c ≤ n
start-le none n h = omega arith
start-le (some c) n h = omega arith

-- The first block saves the stack pointer of a running process.
pub preempt-saved :
    (ps : List Process) (c esp : ℕ) (cur : Process)
    → get_elem? ps c ≡ some cur
    → is_running cur.state ≡ true
    → ((preempt ps (some c) esp).0 ≡ true)
      × (get_elem? (preempt ps (some c) esp).1 c ≡ some (record cur { state = ready; esp = esp }))
unfolding preempt
preempt-saved ps c esp cur e r =
    rw (e, preempt) (rw r (refl, get_elem?-set_self ps c _ (get_elem?-lt ps c cur e)))

index_in_table : (c : Option ℕ) (n i : ℕ) → Within c n → c ≡ some i → i < n
index_in_table none n i h e = absurd (cc)
index_in_table (some c) n i h e = let e' : c ≡ i = ground arith in omega arith

-- With no ready process left by the first block, there was no running one either.
preempt-idle :
    (ps : List Process) (c : Option ℕ) (esp : ℕ)
    → Within c (length ps)
    → ((i : ℕ) → i < length ps → ready_at (preempt ps c esp).1 i ≡ false)
    → (preempt ps c esp).1 ≡ ps
unfolding preempt ready_at
preempt-idle ps none esp w h = refl
preempt-idle ps (some c) esp w h = elim (Option-cases (get_elem? ps c)) [
  | inl e ↦ rw (e, preempt)
  | inr (cur, e) ↦ elim (Bool-cases (is_running cur.state)) [
    | inl r ↦
        let saved = preempt-saved ps c esp cur e r in
        let was_ready : ready_at (preempt ps (some c) esp).1 c ≡ true =
          rw (saved.1, ready_at) refl in
        absurd (false_ne_true (sym (h c w) ∙ was_ready))
    | inr r ↦ rw (e, preempt) (rw r)
  ]
]

-- What `Schedule` has done, for the result `o` of the search.
abbrev Outcome : Scheduler → ℕ → Option ℕ → Type 0
Outcome s esp none =
    (schedule s esp ≡ (esp, s))
    × ((i : ℕ)
        → i < length s.processes
        → (ready_at s.processes i ≡ false) × (running_at s.processes i ≡ false))
Outcome s esp (some j) =
    FirstReady (preempted s esp) (length s.processes) (start s.current_index) (length s.processes)
      (some j)
    × ((next : Process) × Switched s esp j next (schedule s esp))

schedule-Outcome :
    (s : Scheduler) (esp : ℕ) (o : Option ℕ)
    → IsValid s
    → schedule s esp
      ≡ dispatch s (preempted s esp) (was_running s esp) (or_current o s.current_index) esp
    → FirstReady
        (preempted s esp)
        (length s.processes)
        (start s.current_index)
        (length s.processes)
        o
    → Outcome s esp o
schedule-Outcome s esp none v e f =
    let n = length s.processes in
    let quiet =
      none-FirstReady (preempted s esp) n (start s.current_index)
        (start-le s.current_index n v.current) f in
    let same = preempt-idle s.processes s.current_index esp v.current quiet in
    (
      e
          ∙ dispatch-idle s (preempted s esp) (was_running s esp) s.current_index esp
              (λ i c. quiet i (index_in_table s.current_index n i v.current c))
          ∙ ap (λ (ps : List Process). (esp, record s { processes = ps })) same,
      λ i h.
          subst (λ ps. (ready_at ps i ≡ false) × (running_at ps i ≡ false)) same
            (quiet i h, preempt_quiet s esp v i),
    )
schedule-Outcome s esp (some j) v e f =
    let (p, at, t) = ready_process (preempted s esp) j f.3 in
    (f, (p, rw e (dispatch-ready s esp j p at t)))

pub found_index : Scheduler → ℕ → Option ℕ
found_index s esp =
    scan_ready (preempted s esp) (length s.processes) (start s.current_index) (length s.processes)

pub schedule-dispatch :
    (s : Scheduler) (esp : ℕ)
    → schedule s esp
      ≡ dispatch s
          (preempted s esp)
          (was_running s esp)
          (or_current (found_index s esp) s.current_index)
          esp
unfolding schedule found_index
schedule-dispatch s esp = rw (length-preempt s.processes s.current_index esp)

Outcome-cases :
    (s : Scheduler) (esp : ℕ) (o : Option ℕ)
    → Outcome s esp o
    → Outcome s esp none ⊎ ((j : ℕ) × Outcome s esp (some j))
Outcome-cases s esp none h = inl h
Outcome-cases s esp (some j) h = inr (j, h)

-- The outcomes, in terms of the table after the first block.
pub schedule-cases :
    (s : Scheduler) (esp : ℕ)
    → IsValid s
    → ((schedule s esp ≡ (esp, s))
        × ((i : ℕ)
            → i < length s.processes
            → (ready_at s.processes i ≡ false) × (running_at s.processes i ≡ false)))
      ⊎ ((j : ℕ) × (FirstReady
              (preempted s esp)
              (length s.processes)
              (start s.current_index)
              (length s.processes)
              (some j)
            × ((next : Process) × Switched s esp j next (schedule s esp))))
unfolding found_index
schedule-cases s esp v = Outcome-cases s esp (found_index s esp) (
    schedule-Outcome s esp (found_index s esp) v (schedule-dispatch s esp) (
      scan_ready-FirstReady (preempted s esp) (length s.processes) (start s.current_index)
        (length s.processes)))

-- `Schedule` on a valid table either runs the first process that is ready in the round after the
-- current one (the current one last), switching to its directory and kernel stack; the current
-- process, if it was running, is then ready with the interrupted stack pointer in its entry, and
-- no entry but that and the chosen one has changed. Or no process is ready or running, and
-- nothing changes.
pub schedule_lem :
    (s : Scheduler) (esp : ℕ)
    → IsValid s
    → ((schedule s esp ≡ (esp, s))
        × ((i : ℕ)
            → i < length s.processes
            → (ready_at s.processes i ≡ false) × (running_at s.processes i ≡ false)))
      ⊎ (Saves s esp (preempted s esp) (was_running s esp)
          × ((j : ℕ) × (FirstReady
                  (preempted s esp)
                  (length s.processes)
                  (start s.current_index)
                  (length s.processes)
                  (some j)
                × ((next : Process) × Switched s esp j next (schedule s esp)))))
schedule_lem s esp v = elim (schedule-cases s esp v) [
  | inl idle ↦ inl idle
  | inr switched ↦ inr (preempt-Saves s esp, switched)
]

-- After a switch the table is valid again.
Switched-IsValid :
    (s : Scheduler) (esp j : ℕ) (next : Process)
    → IsValid s
    → Switched s esp j next (schedule s esp)
    → IsValid (schedule s esp).1
Switched-IsValid s esp j next v w =
    let inside : j < length (preempted s esp) = get_elem?-lt (preempted s esp) j next w.chosen in
    let same : length (schedule s esp).1.processes ≡ length s.processes =
      ap length w.table
      ∙ length-set (preempted s esp) j (record next { state = running })
      ∙ length-preempt s.processes s.current_index esp in
    record {
      count = omega (arith, v.count, same);
      current =
          rw (w.current, Within)
            (omega (arith, same, inside, length-preempt s.processes s.current_index esp));
      single = λ i h. elim (ℕ_discrete j i) [
        | yes e ↦ w.current ∙ ap some e
        | no ne ↦ absurd (
            false_ne_true (
              sym (preempt_quiet s esp v i)
              ∙ sym (running_at-set_ne (preempted s esp) j i (record next { state = running }) ne)
              ∙ subst (λ ps. running_at ps i ≡ true) w.table h))
      ];
    }

length_after_switch :
    (s : Scheduler) (esp j : ℕ) (next : Process)
    → Switched s esp j next (schedule s esp)
    → length (schedule s esp).1.processes ≡ length s.processes
length_after_switch s esp j next w =
    ap length w.table
    ∙ length-set (preempted s esp) j (record next { state = running })
    ∙ length-preempt s.processes s.current_index esp

-- `Schedule` keeps the number of processes.
pub length-schedule :
    (s : Scheduler) (esp : ℕ) → IsValid s → length (schedule s esp).1.processes ≡ length s.processes
length-schedule s esp v = elim (schedule-cases s esp v) [
  | inl (e, _) ↦ rw e
  | inr (j, (f, (next, w))) ↦ length_after_switch s esp j next w
]

-- `Schedule` keeps the invariant: after it at most one process is running, the current one.
pub schedule-IsValid : (s : Scheduler) (esp : ℕ) → IsValid s → IsValid (schedule s esp).1
schedule-IsValid s esp v = elim (schedule-cases s esp v) [
  | inl (e, _) ↦ rw e v
  | inr (j, (f, (next, w))) ↦ Switched-IsValid s esp j next v w
]
