-- ===== src/Kernel/Scheduler.antt =====
-- src/kernel/scheduler.cpp: the table of processes and the round-robin choice at each timer tick.
-- The table's first `process_count` entries are the list `processes`; an entry is never null and
-- no process stands in it twice, so an index stands for the pointer. `current_index` is an index,
-- with `none` for -1. What `Schedule` does to the processor is kept in two fields: the directory
-- that CR3 points to and the kernel stack in the TSS.
pub mod Round
pub mod Invariant
pub mod Switch
pub mod Saved
pub mod Fairness
pub mod Table
mod Tests
use layla_os.Base.{
  ℕ, zero, suc, ◌+◌, ◌%◌, ◌^◌, ◌<◌, Bool, true, false, ◌&&◌, not, Option, none, some, List, [], ◌∷◌,
  ◌++◌, if◌then◌else◌, ltb, ◌==◌, ◌!=◌, length, get_elem?, set, add32, minus,
}
use layla_os.Kernel.Process.{
  Process, ProcessState, running, ready, blocked, dead, is_ready, is_running, is_blocked,
}

pub record Scheduler : Type 0 where
  pub processes : List Process
  pub current_index : Option ℕ
  pub active_dir : ℕ
  pub kernel_stack : ℕ

abbrev pub max_processes : ℕ
max_processes = 16

pub init : ℕ → ℕ → Scheduler
init dir stack = record {
  processes = [];
  current_index = none;
  active_dir = dir;
  kernel_stack = stack;
}

pub add_process : Scheduler → Process → Scheduler
add_process s p =
    if ltb (length s.processes) max_processes
    then record s { processes = s.processes ++ record p { state = ready } ∷ [] }
    else s

-- The first block of `Schedule`: was the current process running, and the table with it preempted.
pub preempt : List Process → Option ℕ → ℕ → Bool × List Process
preempt ps none esp = (false, ps)
preempt ps (some c) esp = elim (get_elem? ps c) [
  | none ↦ (false, ps)
  | some cur ↦
      if is_running cur.state
      then (true, set ps c (record cur { state = ready; esp = esp }))
      else (false, ps)
]

-- Is there a ready process at an index?
unfoldable pub ready_at : List Process → ℕ → Bool
ready_at ps i = elim (get_elem? ps i) [ none ↦ false | some p ↦ is_ready p.state ]

-- `current_index + 1`, where the search begins.
abbrev pub start : Option ℕ → ℕ
start none = 0
start (some c) = c + 1

-- `for (i = 1; i <= process_count; i++)`, at `idx = at % count`, with `n` rounds left.
pub scan_ready : List Process → ℕ → ℕ → ℕ → Option ℕ
scan_ready ps count at zero = none
scan_ready ps count at (suc n) =
    let rest = scan_ready ps count (at + 1) n in
    if ready_at ps (at % count) then some (at % count) else rest

-- `found` begins as `current_index`.
abbrev pub or_current : Option ℕ → Option ℕ → Option ℕ
or_current none current = current
or_current (some i) current = some i

abbrev pub is_index : Option ℕ → ℕ → Bool
is_index none i = false
is_index (some c) i = c == i

-- The last block: run the process at `found`, or return the stack pointer as it came.
pub dispatch : Scheduler → List Process → Bool → Option ℕ → ℕ → ℕ × Scheduler
dispatch s ps was_running none esp = (esp, record s { processes = ps })
dispatch s ps was_running (some found) esp = elim (get_elem? ps found) [
  | none ↦ (esp, record s { processes = ps })
  | some next ↦
      if is_ready next.state
      then (
        if not was_running && is_index s.current_index found then esp else next.esp,
        record {
          processes = set ps found (record next { state = running });
          current_index = some found;
          active_dir = if next.page_dir != 0 then next.page_dir else s.active_dir;
          kernel_stack = next.stack_top;
        },
      )
      else (esp, record s { processes = ps })
]

pub schedule : Scheduler → ℕ → ℕ × Scheduler
schedule s esp =
    let (was_running, ps) = preempt s.processes s.current_index esp in
    let found = scan_ready ps (length ps) (start s.current_index) (length ps) in
    dispatch s ps was_running (or_current found s.current_index) esp

-- `SchedulerTimer::HandleInterrupt`: `pit_ticks` and the scheduler.
pub timer : ℕ × Scheduler → ℕ → ℕ × (ℕ × Scheduler)
timer (ticks, s) esp = let (esp', s') = schedule s esp in (esp', (add32 ticks 1, s'))

pub get_active : Scheduler → Option Process
get_active s = elim s.current_index [ none ↦ none | some c ↦ get_elem? s.processes c ]

unfoldable pub find_process : List Process → ℕ → Option Process
find_process [] pid = none
find_process (p ∷ ps) pid = if p.pid == pid then some p else find_process ps pid

-- A process that waits for `child_pid` becomes ready.
unfoldable pub wake : ℕ → Process → Process
wake child_pid p =
    if is_blocked p.state && p.wait_pid == child_pid
    then record p { state = ready; wait_pid = minus 1 }
    else p

unfoldable pub wake_parent : List Process → ℕ → List Process
wake_parent [] child_pid = []
wake_parent (p ∷ ps) child_pid = wake child_pid p ∷ wake_parent ps child_pid

-- `(int)pid > max`, for `max` a nonnegative `int`.
abbrev pub above : ℕ → ℕ → Bool
above pid max = ltb pid (2 ^ 31) && ltb max pid

pub max_pid : List Process → ℕ → ℕ
max_pid [] max = max
max_pid (p ∷ ps) max = max_pid ps (if above p.pid max then p.pid else max)

pub next_pid : List Process → ℕ
next_pid ps = add32 (max_pid ps 0) 1
