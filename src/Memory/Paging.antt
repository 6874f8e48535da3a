-- ===== src/Memory/Paging.antt =====
-- src/memory/paging.h, src/memory/paging.cpp: page directories and their tables.
-- Memory is a function: word `i` of the frame at an address. A pointer is the address of its frame, as
-- the kernel maps addresses to themselves; 0 is the null pointer. Directories share tables by sharing
-- pointers.
pub mod Map
mod Tests
use layla_os.Base.{
  ℕ, zero, suc, ◌+◌, ◌*◌, ◌%◌, Bool, true, false, ◌&&◌, not, if◌then◌else◌, ◌==◌, ◌!=◌, bit_and,
  bit_or, ◌>>>◌, u32,
}
use layla_os.Memory.Pmm.{Pmm, alloc_frame}

abbrev pub page_present : ℕ
page_present = 1

abbrev pub page_write : ℕ
page_write = 2

abbrev pub page_user : ℕ
page_user = 4

abbrev pub page_kernel : ℕ
page_kernel = 3

-- The frames' contents and their manager.
pub record Vm : Type 0 where
  pub mem : ℕ → ℕ → ℕ
  pub pmm : Pmm

abbrev pub put : (ℕ → ℕ → ℕ) → ℕ → ℕ → ℕ → ℕ → ℕ → ℕ
put mem a i v b j = if b == a && j == i then v else mem b j

-- `memzero32` of the 1024 words of a frame.
abbrev pub memzero : (ℕ → ℕ → ℕ) → ℕ → ℕ → ℕ → ℕ
memzero mem a b j = if b == a then 0 else mem b j

pub record PageDirectory : Type 0 where
  pub phys_dir : ℕ
  pub page_tables : ℕ → ℕ

abbrev pub set_table : (ℕ → ℕ) → ℕ → ℕ → ℕ → ℕ
set_table tables i v j = if j == i then v else tables j

abbrev pub pd_index : ℕ → ℕ
pd_index virtual_addr = virtual_addr >>> 22

abbrev pub pt_index : ℕ → ℕ
pt_index virtual_addr = bit_and (virtual_addr >>> 12) 0x3FF

abbrev pub is_present : ℕ → Bool
is_present entry = bit_and entry page_present != 0

-- The constructor of a directory.
unfoldable pub new_directory : Vm → Vm × PageDirectory
new_directory vm =
    let (phys, pmm) = alloc_frame vm.pmm in
    (
      record { mem = memzero vm.mem phys; pmm = pmm },
      record { phys_dir = phys; page_tables = λ i. 0 },
    )

-- The table for `pd_index`, 0 if there is none and no frame for one.
unfoldable pub get_or_create_page_table : Vm → PageDirectory → ℕ → ℕ → Vm × PageDirectory × ℕ
get_or_create_page_table vm d i flags =
    let entry = vm.mem d.phys_dir i in
    let (phys, pmm) = alloc_frame vm.pmm in
    if is_present entry
    then if bit_and flags page_user != 0
      then (
        record { mem = put vm.mem d.phys_dir i (bit_or entry page_user); pmm = vm.pmm },
        d,
        d.page_tables i,
      )
      else (vm, d, d.page_tables i)
    else if phys == 0
    then (record { mem = vm.mem; pmm = pmm }, d, 0)
    else (
      record {
        mem =
            put (memzero vm.mem phys) d.phys_dir i
              (bit_or (bit_or (bit_or phys page_present) page_write) (bit_and flags page_user));
        pmm = pmm;
      },
      record { phys_dir = d.phys_dir; page_tables = set_table d.page_tables i phys },
      phys,
    )

unfoldable pub page_entry : ℕ → ℕ → ℕ
page_entry physical_addr flags = bit_or (bit_and physical_addr 0xFFFFF000) (bit_and flags 0xFFF)

unfoldable pub map_page : Vm → PageDirectory → ℕ → ℕ → ℕ → Vm × PageDirectory
map_page vm d virtual_addr physical_addr flags =
    let (vm', d', pt) = get_or_create_page_table vm d (pd_index virtual_addr) flags in
    if pt == 0 then (vm', d') else (
      record {
        mem = put vm'.mem pt (pt_index virtual_addr) (page_entry physical_addr flags);
        pmm = vm'.pmm;
      },
      d',
    )

-- Without the `invlpg`, which is the processor's.
unfoldable pub unmap_page : Vm → PageDirectory → ℕ → Vm
unmap_page vm d virtual_addr =
    let table = d.page_tables (pd_index virtual_addr) in
    if not (is_present (vm.mem d.phys_dir (pd_index virtual_addr)))
    then vm
    else if table == 0
    then vm
    else record { mem = put vm.mem table (pt_index virtual_addr) 0; pmm = vm.pmm }

unfoldable pub get_physical : Vm → PageDirectory → ℕ → ℕ
get_physical vm d virtual_addr =
    let table = d.page_tables (pd_index virtual_addr) in
    let pte = vm.mem table (pt_index virtual_addr) in
    if not (is_present (vm.mem d.phys_dir (pd_index virtual_addr)))
    then 0
    else if table == 0
    then 0
    else if not (is_present pte)
    then 0
    else bit_or (bit_and pte 0xFFFFF000) (bit_and virtual_addr 0xFFF)

unfoldable pub is_mapped : Vm → PageDirectory → ℕ → Bool
is_mapped vm d virtual_addr =
    let table = d.page_tables (pd_index virtual_addr) in
    if not (is_present (vm.mem d.phys_dir (pd_index virtual_addr)))
    then false
    else if table == 0
    then false
    else is_present (vm.mem table (pt_index virtual_addr))

-- The identity mapping of the first `n` pages from `addr` on.
unfoldable pub map_identity : ℕ → ℕ → Vm × PageDirectory → Vm × PageDirectory
map_identity zero addr (vm, d) = (vm, d)
map_identity (suc n) addr (vm, d) =
    map_identity n (u32 (addr + 0x1000)) (map_page vm d addr addr page_kernel)

-- 0x01000000 / 0x1000 pages.
unfoldable pub create_kernel : Vm → Vm × PageDirectory
create_kernel vm = map_identity 4096 0 (new_directory vm)

-- The loop that copies the first `n` entries of the kernel's directory, from the last on.
abbrev pub copy_entries : ℕ → (ℕ → ℕ → ℕ) → PageDirectory → ℕ → ℕ → ℕ → ℕ
copy_entries zero mem kernel phys b j = mem b j
copy_entries (suc n) mem kernel phys b j =
    if b == phys && j == n then mem kernel.phys_dir n else copy_entries n mem kernel phys b j

-- A user's directory: the kernel's entries and the kernel's table pointers.
unfoldable pub create_user : Vm → PageDirectory → Vm × PageDirectory
create_user vm kernel =
    let (vm', d) = new_directory vm in
    (
      record { mem = copy_entries 1024 vm'.mem kernel d.phys_dir; pmm = vm'.pmm },
      record { phys_dir = d.phys_dir; page_tables = kernel.page_tables },
    )
