-- ===== src/Kernel/Syscall/Dispatch.antt =====
-- src/kernel/syscall.cpp, `SyscallDispatch`: the number in `eax` and the arguments in `ebx`, `ecx`
-- and `edx` choose the call.
use layla_os.Base.{ℕ, u16, if◌then◌else◌, ◌==◌}

pub data Call : Type 0 where
  call_exit : ℕ → Call
  call_read : ℕ → ℕ → ℕ → Call
  call_write : ℕ → ℕ → ℕ → Call
  call_open : ℕ → ℕ → Call
  call_unlink : ℕ → Call
  call_waitpid : ℕ → ℕ → Call
  call_exec : ℕ → Call
  call_getpid : Call
  call_mkdir : ℕ → Call
  call_ls : ℕ → Call
  call_isdir : ℕ → Call
  call_net_send_udp : ℕ → ℕ → ℕ → Call
  call_net_recv_udp : ℕ → Call
  call_net_tcp_connect : ℕ → ℕ → Call
  call_net_tcp_send : Call
  call_net_tcp_recv : ℕ → Call
  call_net_tcp_close : Call
  call_cp : ℕ → ℕ → Call
  call_mv : ℕ → ℕ → Call
  call_writefile : ℕ → ℕ → ℕ → Call
  call_readfile : ℕ → ℕ → ℕ → Call
  call_set_raw_input : ℕ → Call
  call_reset : Call
  call_unknown : Call

-- The `switch`.
unfoldable pub call_of : ℕ → ℕ → ℕ → ℕ → Call
call_of num ebx ecx edx =
    if num == 1
    then call_exit ebx
    else if num == 3
    then call_read ebx ecx edx
    else if num == 4
    then call_write ebx ecx edx
    else if num == 5
    then call_open ebx ecx
    else if num == 6
    then call_unlink ebx
    else if num == 7
    then call_waitpid ebx ecx
    else if num == 11
    then call_exec ebx
    else if num == 20
    then call_getpid
    else if num == 39
    then call_mkdir ebx
    else if num == 40
    then call_ls ebx
    else if num == 41
    then call_isdir ebx
    else if num == 50
    then call_net_send_udp ebx (u16 ecx) (u16 edx)
    else if num == 51
    then call_net_recv_udp ebx
    else if num == 52
    then call_net_tcp_connect ebx (u16 ecx)
    else if num == 53
    then call_net_tcp_send
    else if num == 54
    then call_net_tcp_recv ebx
    else if num == 55
    then call_net_tcp_close
    else if num == 90
    then call_cp ebx ecx
    else if num == 91
    then call_mv ebx ecx
    else if num == 92
    then call_writefile ebx ecx edx
    else if num == 93
    then call_readfile ebx ecx edx
    else if num == 94
    then call_set_raw_input ebx
    else if num == 88
    then call_reset
    else call_unknown
