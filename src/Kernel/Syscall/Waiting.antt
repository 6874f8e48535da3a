-- ===== src/Kernel/Syscall/Waiting.antt =====
-- src/kernel/syscall.cpp: the calls on processes and the keyboard. A call that waits is two parts,
-- before and after the `hlt` loop, between which interrupts change the scheduler and the buffers.
use layla_os.Base.{
  ℕ, zero, suc, Option, none, some, List, [], ◌∷◌, if◌then◌else◌, ◌==◌, ◌!=◌, minus, get_elem?, set,
  length,
}
use layla_os.Kernel.Process.{ProcessState, running, blocked, dead}
use layla_os.Kernel.Scheduler.{Scheduler, find_process, get_active, schedule, wake_parent}
use layla_os.Kernel.KeyboardBuffer.{KeyboardBuffer, dequeue, is_empty}

-- `p->state = state; p->wait_pid = wait_pid` for the process at an index, if there is one.
unfoldable pub set_wait : Scheduler → Option ℕ → ProcessState → ℕ → Scheduler
set_wait s none state wait_pid = s
set_wait s (some i) state wait_pid = elim (get_elem? s.processes i) [
  | none ↦ s
  | some p ↦ record s {
    processes = set s.processes i (record p { state = state; wait_pid = wait_pid });
  }
]

-- The active process before and after a wait.
abbrev pub block : Scheduler → ℕ → Scheduler
block s wait_pid = set_wait s s.current_index blocked wait_pid

abbrev pub unblock : Option ℕ → Scheduler → Scheduler
unblock caller s = set_wait s caller running (minus 1)

pub data Start : Type 0 where
  refused : Start
  waits : Scheduler → Start
  goes_on : Start

unfoldable pub sys_read_start : ℕ → Scheduler → KeyboardBuffer → Start
sys_read_start fd s k =
    if fd != 0 then refused else if is_empty k then waits (block s (minus 2)) else goes_on

-- The loop that reads up to the end of a line, for `n` more characters.
unfoldable pub read_line : ℕ → KeyboardBuffer → List ℕ × KeyboardBuffer
read_line zero k = ([], k)
read_line (suc n) k =
    let rest = read_line n (dequeue k).1 in
    elim (dequeue k).0 [
      | none ↦ ([], (dequeue k).1)
      | some c ↦ if c == 10 then (c ∷ [], (dequeue k).1) else (c ∷ rest.0, rest.1)
    ]

-- After the wait; the result, what is stored from the address on, and the buffer.
unfoldable pub sys_read_finish : ℕ → KeyboardBuffer → ℕ × List ℕ × KeyboardBuffer
sys_read_finish n k = let line = read_line n k in (length line.0, line.0, line.1)

unfoldable pub sys_getpid : Scheduler → ℕ
sys_getpid s = elim (get_active s) [ none ↦ 0 | some p ↦ p.pid ]

unfoldable pub sys_waitpid_start : ℕ → Scheduler → Start
sys_waitpid_start pid s = elim (find_process s.processes pid) [
  | none ↦ refused
  | some target ↦ waits (block s pid)
]

-- The loop goes on while the process lives; then the result, the status and the scheduler.
unfoldable pub sys_waitpid_finish : Option ℕ → ℕ → Scheduler → Option (ℕ × ℕ × Scheduler)
sys_waitpid_finish caller pid s = elim (find_process s.processes pid) [
  | none ↦ none
  | some target ↦ elim target.state [
    | dead ↦ some (pid, target.exit_code, unblock caller s)
    | _ ↦ none
  ]
]

-- The case 1 of `SyscallDispatch` before it schedules.
unfoldable pub end_process : ℕ → Scheduler → Scheduler
end_process code s = elim s.current_index [
  | none ↦ s
  | some c ↦ elim (get_elem? s.processes c) [
    | none ↦ s
    | some p ↦
        let ended = set s.processes c (record p { exit_code = code; state = dead }) in
        record s { processes = wake_parent ended p.pid }
  ]
]

unfoldable pub sys_exit : ℕ → Scheduler → ℕ → ℕ × Scheduler
sys_exit code s esp = schedule (end_process code s) esp
