-- ===== src/Kernel/Scheduler/Tests.antt =====
-- Runs of the scheduler on a table of three processes, and instances of its theorems there.
use layla_os.Base.{
  ℕ, zero, suc, ◌<◌, ◌≡◌, ◌⊎◌, refl, [], ◌∷◌, none, some, true, false, arith, minus,
}
use layla_os.Kernel.Process.{Process, running, ready, blocked}
use layla_os.Kernel.Scheduler.{
  Scheduler, schedule, preempt, dispatch, scan_ready, ready_at, next_pid, max_pid, find_process,
  add_process, wake_parent, wake,
}
use layla_os.Kernel.Scheduler.Round.{FirstReady}
use layla_os.Kernel.Scheduler.Invariant.{IsValid, running_at}
use layla_os.Kernel.Scheduler.Saved.{Saves}
use layla_os.Kernel.Scheduler.Switch.{
  Switched, preempted, was_running, schedule_lem, schedule-IsValid,
}
use layla_os.Kernel.Scheduler.Fairness.{Served, ticks_serve}
use layla_os.Kernel.Scheduler.Table.{next_pid-fresh}

abbrev shell : Process
shell = record {
  pid = 1;
  state = running;
  esp = 100;
  page_dir = 0;
  exit_code = 0;
  parent_pid = minus 1;
  wait_pid = minus 1;
  stack_top = 4096;
}

abbrev waiting : Process
waiting = record shell { pid = 2; state = blocked; wait_pid = 3; esp = 200 }

abbrev child : Process
child = record shell { pid = 3; state = ready; esp = 300; page_dir = 7 }

abbrev busy : Scheduler
busy = record {
  processes = shell ∷ waiting ∷ child ∷ [];
  current_index = some 0;
  active_dir = 5;
  kernel_stack = 4096;
}

-- The shell has blocked itself in a system call.
abbrev stuck : Scheduler
stuck = record busy { processes = record shell { state = blocked } ∷ waiting ∷ child ∷ [] }

busy_single : (i : ℕ) → running_at busy.processes i ≡ true → busy.current_index ≡ some i
busy_single zero h = refl
busy_single (suc zero) h = absurd (cc)
busy_single (suc (suc zero)) h = absurd (cc)
busy_single (suc (suc (suc i))) h = absurd (cc)

busy-IsValid : IsValid busy
busy-IsValid = record { count = omega arith; current = omega arith; single = busy_single }

switches_to_child : (schedule busy 111).0 ≡ 300
unfolding schedule preempt dispatch scan_ready ready_at
switches_to_child = refl

shell_resumes : (schedule (schedule busy 111).1 333).0 ≡ 111
unfolding schedule preempt dispatch scan_ready ready_at
shell_resumes = refl

-- Blocked at 111, then ready again: it resumes at the pointer of its last preemption.
shell_resumes_stale :
    (schedule
      (let s = (schedule stuck 111).1 in record s { processes = wake_parent s.processes (minus 1) })
      333).0
    ≡ 100
unfolding schedule preempt dispatch scan_ready ready_at wake_parent wake
shell_resumes_stale = refl

schedule_example :
    ((schedule busy 111 ≡ (111, busy))
      × ((i : ℕ)
          → i < 3
          → (ready_at busy.processes i ≡ false) × (running_at busy.processes i ≡ false)))
    ⊎ (Saves busy 111 (preempted busy 111) (was_running busy 111)
        × ((j : ℕ) × (FirstReady (preempted busy 111) 3 1 3 (some j)
              × ((next : Process) × Switched busy 111 j next (schedule busy 111)))))
schedule_example = schedule_lem busy 111 busy-IsValid

schedule-IsValid_example : IsValid (schedule busy 111).1
schedule-IsValid_example = schedule-IsValid busy 111 busy-IsValid

ticks_serve_example : Served busy (1 ∷ 2 ∷ 3 ∷ []) 2
unfolding ready_at
ticks_serve_example = ticks_serve busy (1 ∷ 2 ∷ 3 ∷ []) 2 busy-IsValid refl (omega arith) refl

next_pid_example :
    (find_process busy.processes 4 ≡ none)
    × (find_process (add_process busy (record child { pid = 4 })).processes 4
        ≡ some (record child { pid = 4 }))
unfolding next_pid max_pid
next_pid_example = next_pid-fresh busy (record child { pid = 4 }) (omega arith) (omega arith) refl
