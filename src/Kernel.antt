-- ===== src/Kernel.antt =====
-- src/kernel: processes and their scheduler, the keyboard buffer, the system calls.
pub mod Process
pub mod Scheduler
pub mod KeyboardBuffer
pub mod Syscall
