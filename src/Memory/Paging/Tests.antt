-- ===== src/Memory/Paging/Tests.antt =====
-- Two user directories over the kernel's tables, and the mapping that one makes for both.
use layla_os.Base.{ℕ, ◌≡◌, refl, [], if◌then◌else◌, ◌==◌, arith}
use layla_os.Memory.Paging.{Vm, PageDirectory, map_page, get_physical}
use layla_os.Memory.Paging.Map.{Shares, get_physical-map_page}

-- Entry 1 of every directory has the user and the present bit; the table for it is at 0x5000.
abbrev vm : Vm
vm = record {
  mem = λ a i. if i == 1 then 0x5007 else 0;
  pmm = record { bitmap = []; total_frames = 0; free_frames = 0 };
}

abbrev tables : ℕ → ℕ
tables j = if j == 1 then 0x5000 else 0

abbrev first_user : PageDirectory
first_user = record { phys_dir = 0x6000; page_tables = tables }

abbrev second_user : PageDirectory
second_user = record { phys_dir = 0x7000; page_tables = tables }

shared : Shares vm first_user second_user 0x00400000
shared = record {
  same_table = refl;
  own_frame = λ z. omega arith;
  no_directory = λ j z. ground arith;
  once = λ j z. ground arith;
  there = (refl, λ z. omega arith);
}

get_physical-map_page_example :
    get_physical (map_page vm first_user 0x00400000 0x00800000 7).0 second_user 0x00400123
    ≡ 0x00800123
get_physical-map_page_example =
    get_physical-map_page vm first_user second_user 0x00400000 0x00800000 7 0x00400123
      (refl, λ z. omega arith) shared (omega arith) refl
