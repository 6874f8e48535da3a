-- ===== src/Kernel/Syscall/Tests/Calls.antt =====
-- Calls on the keyboard, on processes and on the network at concrete values.
use layla_os.Base.{◌≡◌, refl, some, [], ◌∷◌, false, get_elem?, length, minus, replicate, arith}
use layla_os.Net.Wire.{read}
use layla_os.Kernel.Process.{Process, running, ready, blocked, dead}
use layla_os.Kernel.Scheduler.{Scheduler}
use layla_os.Kernel.KeyboardBuffer.{KeyboardBuffer}
use layla_os.Kernel.KeyboardBuffer.Refine.{IsValid, contents}
use layla_os.Kernel.Syscall.Waiting.{sys_read_finish, end_process, sys_waitpid_finish, unblock}
use layla_os.Kernel.Syscall.Lines.{first_line, sys_read_finish-first_line}
use layla_os.Kernel.Syscall.Exits.{sys_waitpid_finish-end_process}
use layla_os.Kernel.Syscall.Network.{NetShared, nothing_received, on_receive, recv_finish}
use layla_os.Kernel.Syscall.Mailbox.{kept, recv_finish-on_receive}

-- A line and the beginning of the next.
abbrev ring : KeyboardBuffer
ring = record { buffer = b'l' ∷ (b's' ∷ (10 ∷ (b'c' ∷ replicate 252 0))); head = 0; tail = 4 }

sys_read_finish-first_line_example :
    let (result, line, k) = sys_read_finish 80 ring in
    (line ≡ (first_line 80 (contents ring)).0)
    × (result ≡ length line)
    × (contents k ≡ (first_line 80 (contents ring)).1)
    × IsValid k
sys_read_finish-first_line_example =
    sys_read_finish-first_line 80 ring
      (record { storage = refl; head_in = omega arith; tail_in = omega arith })

abbrev child : Process
child = record {
  pid = 7;
  state = running;
  esp = 0;
  page_dir = 0;
  exit_code = 0;
  parent_pid = 3;
  wait_pid = minus 1;
  stack_top = 0;
}

abbrev parent : Process
parent = record child { pid = 3; state = blocked; parent_pid = 0; wait_pid = 7 }

abbrev table : Scheduler
table = record {
  processes = parent ∷ (child ∷ []);
  current_index = some 1;
  active_dir = 0;
  kernel_stack = 0;
}

sys_waitpid_finish-end_process_example :
    let s = end_process 42 table in
    (get_elem? s.processes 1 ≡ some (record child { exit_code = 42; state = dead }))
    × (get_elem? s.processes 0 ≡ some (record parent { state = ready; wait_pid = minus 1 }))
    × (sys_waitpid_finish (some 0) 7 s ≡ some (7, 42, unblock (some 0) s))
sys_waitpid_finish-end_process_example =
    sys_waitpid_finish-end_process 42 table 1 0 child parent refl refl refl (omega arith)
      (refl, refl) refl refl

abbrev page : NetShared
page = record { status = 1; data_len = 0; content = replicate 4088 0 }

recv_finish-on_receive_example :
    let (result, r, shared) = recv_finish (on_receive (1 ∷ (2 ∷ [])) 2 nothing_received) page in
    (result ≡ 0)
    × (shared.status ≡ 0)
    × (shared.data_len ≡ kept 2)
    × (read (kept 2) shared.content ≡ read (kept 2) (1 ∷ (2 ∷ [])))
    × (r.ready ≡ false)
    × ((recv_finish r shared).0 ≡ 1)
    × ((recv_finish r shared).2.data_len ≡ 0)
recv_finish-on_receive_example = recv_finish-on_receive (1 ∷ (2 ∷ [])) 2 nothing_received page
