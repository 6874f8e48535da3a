-- ===== src/Kernel/Syscall/Files.antt =====
-- src/kernel/syscall.cpp: the calls on files. An address comes with the characters it points to; the
-- file system is `none` before it is mounted. A buffer of `new` is given, `none` when there is none.
use layla_os.Base.{
  ℕ, Bool, false, ◌||◌, not, Option, none, some, List, [], ◌∷◌, if◌then◌else◌, ltb, leb, ◌==◌,
  minus,
}
use layla_os.Net.Wire.{read}
use layla_os.Fs.Disk.{Cmd, pure, ◌>>=◌}
use layla_os.Fs.Fat32.{Fat32}
use layla_os.Fs.Fat32.Path.{is_directory_path}
use layla_os.Fs.Fat32.File.{read_file, write_file, delete_file, create_file, make_dir}
use layla_os.Fs.Fat32.Listing.{list_directory}
use layla_os.Kernel.Process.{Process}
use layla_os.Kernel.Scheduler.{Scheduler, add_process, get_active, next_pid}
use layla_os.Kernel.Syscall.{is_ring3_range}

-- `addr < 0x00400000 || addr >= 0x00D00000`
abbrev pub outside_user : ℕ → Bool
outside_user addr = ltb addr 0x00400000 || leb 0x00D00000 addr

abbrev pub zero_or_error : Bool → ℕ
zero_or_error ok = if ok then 0 else minus 1

unfoldable pub sys_open : Option Fat32 → ℕ → List ℕ → ℕ → Cmd ℕ
sys_open none addr path flags = pure (minus 1)
sys_open (some fs) addr path flags =
    if outside_user addr
    then pure (minus 1)
    else if flags == 1
    then create_file fs path >>= (λ created. pure 3)
    else pure 3

unfoldable pub sys_unlink : Option Fat32 → ℕ → List ℕ → Cmd ℕ
sys_unlink none addr path = pure (minus 1)
sys_unlink (some fs) addr path =
    if outside_user addr
    then pure (minus 1)
    else delete_file fs path >>= λ ok. pure (zero_or_error ok)

unfoldable pub sys_mkdir : Option Fat32 → ℕ → List ℕ → Cmd ℕ
sys_mkdir none addr path = pure (minus 1)
sys_mkdir (some fs) addr path =
    if outside_user addr then pure (minus 1) else make_dir fs path >>= λ ok. pure (zero_or_error ok)

abbrev pub no_disk : List ℕ
no_disk = b'(' ∷ (b'n' ∷ (b'o' ∷ (b' ' ∷ (b'd' ∷ (b'i' ∷ (b's' ∷ (b'k' ∷ (b')' ∷ (10 ∷ [])))))))))

-- The result, and what appears on the screen.
unfoldable pub sys_ls : Option Fat32 → ℕ → List ℕ → Cmd (ℕ × List ℕ)
sys_ls fs addr path = if outside_user addr then pure (1, []) else elim fs [
  | none ↦ pure (1, no_disk)
  | some fs ↦
      list_directory fs path >>= λ r. elim r [ none ↦ pure (1, []) | some shown ↦ pure (0, shown) ]
]

unfoldable pub sys_isdir : Option Fat32 → ℕ → List ℕ → Cmd ℕ
sys_isdir none addr path = pure 0
sys_isdir (some fs) addr path =
    if outside_user addr
    then pure 0
    else is_directory_path fs path >>= λ d. pure (if d then 1 else 0)

-- The part that `sys_cp` and `sys_mv` share: `none` for -1.
unfoldable pub copy_file : Fat32 → List ℕ → List ℕ → Option (List ℕ) → Cmd Bool
copy_file fs src dst none = pure false
copy_file fs src dst (some buf) = read_file fs src buf >>= λ r. elim r [
  | none ↦ pure false
  | some (size, buf') ↦ write_file fs dst buf' size
]

unfoldable pub sys_cp : Option Fat32 → ℕ → List ℕ → ℕ → List ℕ → Option (List ℕ) → Cmd ℕ
sys_cp none src_addr src dst_addr dst buf = pure (minus 1)
sys_cp (some fs) src_addr src dst_addr dst buf =
    if outside_user src_addr
    then pure (minus 1)
    else if outside_user dst_addr
    then pure (minus 1)
    else copy_file fs src dst buf >>= λ ok. pure (zero_or_error ok)

unfoldable pub sys_mv : Option Fat32 → ℕ → List ℕ → ℕ → List ℕ → Option (List ℕ) → Cmd ℕ
sys_mv none src_addr src dst_addr dst buf = pure (minus 1)
sys_mv (some fs) src_addr src dst_addr dst buf =
    if outside_user src_addr
    then pure (minus 1)
    else if outside_user dst_addr
    then pure (minus 1)
    else copy_file fs src dst buf >>= λ ok.
        if ok then delete_file fs src >>= (λ gone. pure 0) else pure (minus 1)

unfoldable pub sys_writefile : Option Fat32 → ℕ → List ℕ → ℕ → List ℕ → ℕ → Cmd ℕ
sys_writefile none path_addr path addr content len = pure (minus 1)
sys_writefile (some fs) path_addr path addr content len =
    if not (is_ring3_range path_addr 1)
    then pure (minus 1)
    else if not (is_ring3_range addr len)
    then pure (minus 1)
    else write_file fs path content len >>= λ ok. pure (zero_or_error ok)

-- The result, and the bytes that are stored from the address `out` on.
unfoldable pub sys_readfile : Option Fat32 → ℕ → List ℕ → ℕ → ℕ → Option (List ℕ) → Cmd (ℕ × List ℕ)
sys_readfile none path_addr path out max_len tmp = pure (minus 1, [])
sys_readfile (some fs) path_addr path out max_len tmp =
    if ltb 65536 max_len
    then pure (minus 1, [])
    else if not (is_ring3_range path_addr 1)
    then pure (minus 1, [])
    else if not (is_ring3_range out max_len)
    then pure (minus 1, [])
    else elim tmp [
      | none ↦ pure (minus 1, [])
      | some tmp ↦ read_file fs path tmp >>= λ r. elim r [
        | none ↦ pure (minus 1, [])
        | some (size, bytes) ↦
            let copy = if ltb max_len size then max_len else size in pure (copy, read copy bytes)
      ]
    ]

-- The new process is what the constructor makes of its entry and pid; `load` is the memory at
-- 0x00400000. The result, that memory and the scheduler.
unfoldable pub sys_exec :
    (ℕ → ℕ → Process)
    → Option Fat32
    → ℕ
    → List ℕ
    → List ℕ
    → Scheduler
    → Cmd (ℕ × List ℕ × Scheduler)
sys_exec construct none addr path load s = pure (minus 1, load, s)
sys_exec construct (some fs) addr path load s =
    if outside_user addr
    then pure (minus 1, load, s)
    else read_file fs path load >>= λ r. elim r [
      | none ↦ pure (minus 1, load, s)
      | some (size, load') ↦
          let new_pid = next_pid s.processes in
          let child : Process = construct 0x00400000 new_pid in
          let adopted : Process = elim (get_active s) [
            | none ↦ child
            | some caller ↦ record child { parent_pid = caller.pid }
          ] in
          pure (new_pid, load', add_process s adopted)
    ]
