-- ===== src/Kernel/Syscall/Exits.antt =====
-- src/kernel/syscall.cpp: a process that exits, and the parent that waits for it in `sys_waitpid`.
use layla_os.Base.{
  ℕ, zero, suc, ◌≡◌, ◌≢◌, refl, sym, ap, ◌∙◌, Bool-cases, inl, inr, true, false, ◌&&◌, Option, none,
  some, List, [], ◌∷◌, ◌==◌, get_elem?, set, get_elem?-set_self, get_elem?-set_ne, get_elem?-lt,
  minus, arith,
}
use layla_os.Kernel.Process.{Process, ready, blocked, dead, is_blocked}
use layla_os.Kernel.Scheduler.{Scheduler, find_process, wake, wake_parent}
use layla_os.Kernel.Syscall.Waiting.{unblock, sys_waitpid_finish, end_process}

get_elem?-wake_parent :
    (ps : List Process) (pid i : ℕ) (p : Process)
    → get_elem? ps i ≡ some p
    → get_elem? (wake_parent ps pid) i ≡ some (wake pid p)
unfolding wake_parent
get_elem?-wake_parent [] pid i p h = absurd (cc)
get_elem?-wake_parent (q ∷ ps) pid zero p h =
    ap (λ (o : Option Process). elim o [ none ↦ none | some r ↦ some (wake pid r) ]) h
get_elem?-wake_parent (q ∷ ps) pid (suc i) p h = get_elem?-wake_parent ps pid i p h

-- The entry at an index is the first with its pid.
abbrev pub IsFirst : List Process → ℕ → ℕ → Type 0
IsFirst [] c pid = ⊥
IsFirst (q ∷ ps) zero pid = q.pid ≡ pid
IsFirst (q ∷ ps) (suc c) pid = ((q.pid == pid) ≡ false) × IsFirst ps c pid

find_process-IsFirst :
    (ps : List Process) (c pid : ℕ) → IsFirst ps c pid → find_process ps pid ≡ get_elem? ps c
unfolding find_process
find_process-IsFirst [] c pid h = absurd h
find_process-IsFirst (q ∷ ps) zero pid h =
    let same : (q.pid == pid) ≡ true = ground arith in rw same refl
find_process-IsFirst (q ∷ ps) (suc c) pid h = rw h.0 (find_process-IsFirst ps c pid h.1)

pid_of : Option Process → ℕ
pid_of none = 0
pid_of (some p) = p.pid

IsFirst-set :
    (ps : List Process) (c i pid : ℕ) (p : Process)
    → get_elem? ps i ≡ some p
    → (p' : Process) → p'.pid ≡ p.pid
    → IsFirst ps c pid
    → IsFirst (set ps i p') c pid
unfolding pid_of
IsFirst-set [] c i pid p at p' same h = h
IsFirst-set (q ∷ ps) zero zero pid p at p' same h = same ∙ sym (ap pid_of at) ∙ h
IsFirst-set (q ∷ ps) (suc c) zero pid p at p' same h =
    (ap (λ (k : ℕ). k == pid) (same ∙ sym (ap pid_of at)) ∙ h.0, h.1)
IsFirst-set (q ∷ ps) zero (suc i) pid p at p' same h = h
IsFirst-set (q ∷ ps) (suc c) (suc i) pid p at p' same h =
    (h.0, IsFirst-set ps c i pid p at p' same h.1)

pid-wake : (pid : ℕ) (p : Process) → (wake pid p).pid ≡ p.pid
unfolding wake
pid-wake pid p = elim (Bool-cases (is_blocked p.state && p.wait_pid == pid)) [
  | inl e ↦ rw e refl
  | inr e ↦ rw e refl
]

IsFirst-wake_parent :
    (ps : List Process) (c pid woken : ℕ) → IsFirst ps c pid → IsFirst (wake_parent ps woken) c pid
unfolding wake_parent
IsFirst-wake_parent [] c pid woken h = h
IsFirst-wake_parent (q ∷ ps) zero pid woken h = pid-wake woken q ∙ h
IsFirst-wake_parent (q ∷ ps) (suc c) pid woken h =
    (ap (λ (k : ℕ). k == pid) (pid-wake woken q) ∙ h.0, IsFirst-wake_parent ps c pid woken h.1)

wake_lem :
    (pid : ℕ) (p : Process)
    → p.state ≡ blocked
    → p.wait_pid ≡ pid
    → wake pid p ≡ record p { state = ready; wait_pid = minus 1 }
unfolding wake
wake_lem pid p waiting same =
    let woken : (is_blocked p.state && p.wait_pid == pid) ≡ true =
      ground (arith, ap is_blocked waiting) in
    simp (wake, woken)

finish_lem :
    (caller : Option ℕ) (pid : ℕ) (s : Scheduler) (target : Process)
    → find_process s.processes pid ≡ some target
    → target.state ≡ dead
    → sys_waitpid_finish caller pid s ≡ some (pid, target.exit_code, unblock caller s)
unfolding sys_waitpid_finish
finish_lem caller pid s target found over = simp (sys_waitpid_finish, found, over)

-- The exit of the running process leaves it dead with its exit code, and the parent that waits for it
-- ready and waiting for nothing. In that state the condition of sys_waitpid's loop is over, and the
-- code after the loop, run on it, returns the child's pid and that code. The child is the first
-- entry of the table with its pid. That the scheduler resumes the parent inside the wait is not
-- part of it.
pub sys_waitpid_finish-end_process :
    (code : ℕ) (s : Scheduler) (c p : ℕ) (child parent : Process)
    → s.current_index ≡ some c
    → get_elem? s.processes c ≡ some child
    → get_elem? s.processes p ≡ some parent
    → c ≢ p
    → IsFirst s.processes c child.pid
    → parent.state ≡ blocked
    → parent.wait_pid ≡ child.pid
    → let s' = end_process code s in
      (get_elem? s'.processes c ≡ some (record child { exit_code = code; state = dead }))
      × (get_elem? s'.processes p ≡ some (record parent { state = ready; wait_pid = minus 1 }))
      × (sys_waitpid_finish (some p) child.pid s' ≡ some (child.pid, code, unblock (some p) s'))
unfolding end_process wake
sys_waitpid_finish-end_process code s c p child parent cur at_c at_p apart first waiting pid =
    let gone : Process = record child { exit_code = code; state = dead } in
    let ended = set s.processes c gone in
    let s' : Scheduler = record s { processes = wake_parent ended child.pid } in
    let is_s' : end_process code s ≡ s' = simp (end_process, cur, at_c) in
    let child_in =
      get_elem?-wake_parent ended child.pid c gone
        (get_elem?-set_self s.processes c gone (get_elem?-lt s.processes c child at_c)) in
    let parent_in =
      get_elem?-wake_parent ended child.pid p parent
        (get_elem?-set_ne s.processes c p gone apart ∙ at_p) in
    let found = find_process-IsFirst s'.processes c child.pid (
      IsFirst-wake_parent ended c child.pid child.pid
        (IsFirst-set s.processes c c child.pid child at_c gone refl first)) in
    let woken : wake child.pid parent ≡ record parent { state = ready; wait_pid = minus 1 } =
      wake_lem child.pid parent waiting pid in
    (
      ap (λ (t : Scheduler). get_elem? t.processes c) is_s' ∙ child_in,
      ap (λ (t : Scheduler). get_elem? t.processes p) is_s'
          ∙ parent_in
          ∙ ap (λ (q : Process). some q) woken,
      ap (sys_waitpid_finish (some p) child.pid) is_s'
          ∙ finish_lem (some p) child.pid s' gone (found ∙ child_in) refl
          ∙ ap (λ (t : Scheduler). some (child.pid, code, unblock (some p) t)) (sym is_s'),
    )
