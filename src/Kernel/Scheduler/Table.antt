-- ===== src/Kernel/Scheduler/Table.antt =====
-- The table of processes: `AddProcess`, `FindProcess`, `NextPID` and `WakeParent`.
use layla_os.Base.{
  ℕ, zero, suc, ◌-◌, ◌^◌, ◌≤◌, ◌<◌, ◌≡◌, refl, subst, ◌∙◌, sym, ap, Bool, true, false, ◌&&◌, Option,
  none, some, List, [], ◌∷◌, ◌++◌, arith, Bool-cases, inl, inr, ◌⊎◌, ltb, ◌==◌, if◌then◌else◌,
  length, length-append, minus,
}
use layla_os.Kernel.Process.{Process, ready, is_running, is_blocked}
use layla_os.Kernel.Scheduler.{
  Scheduler, max_processes, add_process, find_process, wake, wake_parent, max_pid, next_pid, init,
  above,
}
use layla_os.Kernel.Scheduler.Invariant.{IsValid, Within, running_at}

-- Every entry of the table.
abbrev pub All : (Process → Type 0) → List Process → Type 0
All P [] = Unit {0}
All P (p ∷ ps) = P p × All P ps

-- A fresh scheduler is valid.
pub init-IsValid : (dir stack : ℕ) → IsValid (init dir stack)
unfolding init
init-IsValid dir stack = record { count = omega arith; current = tt; single = λ i h. absurd (cc) }

running_at-append :
    (ps : List Process) (p : Process) (i : ℕ)
    → is_running p.state ≡ false
    → running_at (ps ++ p ∷ []) i ≡ running_at ps i
running_at-append [] p zero h = h
running_at-append [] p (suc i) h = refl
running_at-append (q ∷ ps) p zero h = refl
running_at-append (q ∷ ps) p (suc i) h = running_at-append ps p i h

Within-mono : (c : Option ℕ) (m n : ℕ) → m ≤ n → Within c m → Within c n
Within-mono none m n h w = tt
Within-mono (some c) m n h w = omega arith

-- `AddProcess` keeps the invariant: it appends the process as ready while there is room for it.
pub add_process-IsValid : (s : Scheduler) (p : Process) → IsValid s → IsValid (add_process s p)
unfolding add_process
add_process-IsValid s p v = elim (Bool-cases (ltb (length s.processes) max_processes)) [
  | inr full ↦ rw full v
  | inl room ↦
      let more = length-append s.processes (record p { state = ready } ∷ []) in
      rw room (record {
        count = ground (arith, more);
        current =
            Within-mono s.current_index (length s.processes)
              (length (s.processes ++ record p { state = ready } ∷ [])) (omega (arith, more))
              v.current;
        single = λ i h.
            v.single i
              (sym (running_at-append s.processes (record p { state = ready }) i refl) ∙ h);
      })
]

-- Pids that leave room for one more, read as signed numbers.
abbrev pub Signed : Process → Type 0
Signed p = p.pid < 2 ^ 31 - 1

max_pid-ge :
    (ps : List Process) (m : ℕ)
    → All Signed ps
    → m < 2 ^ 31 - 1
    → (m ≤ max_pid ps m) × (max_pid ps m < 2 ^ 31 - 1)
unfolding max_pid
max_pid-ge [] m a h = (omega arith, h)
max_pid-ge (p ∷ ps) m a h = elim (Bool-cases (above p.pid m)) [
  | inl up ↦ rw up (let r = max_pid-ge ps p.pid a.1 a.0 in (ground (arith, r), r.1))
  | inr keep ↦ rw keep (max_pid-ge ps m a.1 h)
]

-- Every pid of the table is below the next one.
below_next :
    (ps : List Process) (m k : ℕ)
    → All Signed ps
    → m < 2 ^ 31 - 1
    → max_pid ps m < k
    → All (λ p. p.pid < k) ps
unfolding max_pid
below_next [] m k a h l = tt
below_next (p ∷ ps) m k a h l = elim (Bool-cases (above p.pid m)) [
  | inl up ↦
      let l' : max_pid ps p.pid < k = subst (λ b. max_pid ps (if b then p.pid else m) < k) up l in
      (omega (arith, max_pid-ge ps p.pid a.1 a.0), below_next ps p.pid k a.1 a.0 l')
  | inr keep ↦
      let l' : max_pid ps m < k = subst (λ b. max_pid ps (if b then p.pid else m) < k) keep l in
      (ground (arith, max_pid-ge ps m a.1 h), below_next ps m k a.1 h l')
]

find_process-above :
    (ps : List Process) (k : ℕ) → All (λ p. p.pid < k) ps → find_process ps k ≡ none
unfolding find_process
find_process-above [] k a = refl
find_process-above (p ∷ ps) k a = ground (arith, find_process-above ps k a.1)

find_process-append :
    (ps : List Process) (p : Process)
    → find_process ps p.pid ≡ none
    → find_process (ps ++ p ∷ []) p.pid ≡ some p
unfolding find_process
find_process-append [] p h = ground arith
find_process-append (q ∷ ps) p h = ground (arith, find_process-append ps p)

-- `NextPID` gives a pid that no process of the table has, so a process added under it is the one
-- that `FindProcess` returns for it, as long as the table has room and the pids in it are below the
-- largest `int`.
pub next_pid-fresh :
    (s : Scheduler) (p : Process)
    → All Signed s.processes
    → length s.processes < max_processes
    → p.pid ≡ next_pid s.processes
    → (find_process s.processes p.pid ≡ none)
      × (find_process (add_process s p).processes p.pid ≡ some (record p { state = ready }))
unfolding add_process next_pid
next_pid-fresh s p a room e =
    let bound = max_pid-ge s.processes 0 a (omega arith) in
    let fresh : find_process s.processes p.pid ≡ none =
      find_process-above s.processes p.pid
        (below_next s.processes 0 p.pid a (omega arith) (omega (arith, bound))) in
    let there : ltb (length s.processes) max_processes ≡ true = ground arith in
    (fresh, rw there (find_process-append s.processes (record p { state = ready }) fresh))

-- A process that waits for `k`, and one that does not.
abbrev pub waits_for : ℕ → Process → Bool
waits_for k p = is_blocked p.state && p.wait_pid == k

-- What `WakeParent` makes of each entry: one that waited for the child is ready and waits for
-- nothing; any other is as it was.
abbrev pub Woken : ℕ → List Process → List Process → Type 0
Woken k [] [] = Unit {0}
Woken k [] (q ∷ qs) = ⊥
Woken k (p ∷ ps) [] = ⊥
Woken k (p ∷ ps) (q ∷ qs) =
    ((waits_for k p ≡ true) × (q ≡ record p { state = ready; wait_pid = minus 1 })
      ⊎ (waits_for k p ≡ false) × (q ≡ p))
    × Woken k ps qs

wake_parent-Woken : (ps : List Process) (k : ℕ) → Woken k ps (wake_parent ps k)
unfolding wake_parent wake
wake_parent-Woken [] k = tt
wake_parent-Woken (p ∷ ps) k = elim (Bool-cases (waits_for k p)) [
  | inl w ↦ (inl (w, rw w), wake_parent-Woken ps k)
  | inr n ↦ (inr (n, rw n), wake_parent-Woken ps k)
]

length-wake_parent : (ps : List Process) (k : ℕ) → length (wake_parent ps k) ≡ length ps
unfolding wake_parent
length-wake_parent [] k = refl
length-wake_parent (p ∷ ps) k = ap suc (length-wake_parent ps k)

running_at-wake_parent :
    (ps : List Process) (k i : ℕ) → running_at (wake_parent ps k) i ≡ running_at ps i
unfolding wake_parent wake
running_at-wake_parent [] k i = refl
running_at-wake_parent (p ∷ ps) k zero = ground arith
running_at-wake_parent (p ∷ ps) k (suc i) = running_at-wake_parent ps k i

-- `WakeParent` readies exactly the processes that are blocked on the child, leaves the others as
-- they were, and keeps the invariant of the scheduler.
pub wake_parent_lem :
    (s : Scheduler) (k : ℕ)
    → IsValid s
    → let ps = wake_parent s.processes k in
      Woken k s.processes ps × IsValid (record s { processes = ps })
wake_parent_lem s k v = (
  wake_parent-Woken s.processes k,
  record {
    count = omega (arith, v.count, length-wake_parent s.processes k);
    current = subst (Within s.current_index) (sym (length-wake_parent s.processes k)) v.current;
    single = λ i h. v.single i (sym (running_at-wake_parent s.processes k i) ∙ h);
  },
)
