-- ===== src/Kernel/KeyboardBuffer.antt =====
-- src/kernel/keyboard_buffer.cpp: the ring of typed characters between the keyboard interrupt and
-- `sys_read`. One slot stays empty, so it holds at most 255 characters.
pub mod Refine
mod Tests
use layla_os.Base.{
  ℕ, ◌+◌, ◌%◌, Bool, true, false, Option, none, some, List, if◌then◌else◌, ◌==◌, get_elem?, set,
  minus,
}
use layla_os.Kernel.Scheduler.{Scheduler, wake_parent}

abbrev pub buffer_size : ℕ
buffer_size = 256

pub record KeyboardBuffer : Type 0 where
  pub buffer : List ℕ
  pub head : ℕ
  pub tail : ℕ

pub init : KeyboardBuffer → KeyboardBuffer
init k = record k { head = 0; tail = 0 }

-- A character that does not fit is dropped.
unfoldable pub enqueue : KeyboardBuffer → ℕ → KeyboardBuffer
enqueue k c =
    let next = (k.tail + 1) % buffer_size in
    if next == k.head then k else record k { buffer = set k.buffer k.tail c; tail = next }

-- `none` for the code's `false`.
unfoldable pub dequeue : KeyboardBuffer → Option ℕ × KeyboardBuffer
dequeue k =
    if k.head == k.tail
    then (none, k)
    else (get_elem? k.buffer k.head, record k { head = (k.head + 1) % buffer_size })

unfoldable pub is_empty : KeyboardBuffer → Bool
is_empty k = k.head == k.tail

-- The reader of the keyboard waits for the pid -2; with no scheduler nothing happens.
unfoldable pub wake_waiters : Option Scheduler → Option Scheduler
wake_waiters none = none
wake_waiters (some s) = some (record s { processes = wake_parent s.processes (minus 2) })
