-- ===== src/Kernel/Process.antt =====
-- src/kernel/process.h: a process, as the scheduler and the system calls see it.
use layla_os.Base.{ℕ, Bool, true, false}

-- `enum ProcessState`
pub data ProcessState : Type 0 where
  running ready blocked dead : ProcessState

-- Pointers are addresses, 0 for null. `esp` is `cpu_state.esp`, and `stack_top` the value of
-- `KernelStackTop()`, the end of the kernel stack inside the object.
pub record Process : Type 0 where
  pub pid : ℕ
  pub state : ProcessState
  pub esp : ℕ
  pub page_dir : ℕ
  pub exit_code : ℕ
  pub parent_pid : ℕ
  pub wait_pid : ℕ
  pub stack_top : ℕ

abbrev pub is_ready : ProcessState → Bool
is_ready ready = true
is_ready _ = false

abbrev pub is_running : ProcessState → Bool
is_running running = true
is_running _ = false

abbrev pub is_blocked : ProcessState → Bool
is_blocked blocked = true
is_blocked _ = false
