-- ===== src/Memory/Paging/Map.antt =====
-- src/memory/paging.cpp: what a mapping changes in the directory that is mapped and in every other
-- directory that shares its table.
use layla_os.Base.{
  ℕ, ◌+◌, ◌*◌, ◌/◌, ◌%◌, ◌^◌, ◌<◌, ◌≢◌, ◌≡◌, refl, sym, ap, ap₂, ◌∙◌, Bool, true, false, ◌&&◌, not,
  if◌then◌else◌, ◌==◌, ◌!=◌, Bool-cases, inl, inr, bit, bit_and, bit_or, bit-bit_or, bit_and_mask,
  bit_and_high, bit_or_fields, arith, ℕ_discrete,
}
use layla_os.Memory.Paging.{
  page_user, Vm, put, PageDirectory, pd_index, pt_index, is_present, get_or_create_page_table,
  page_entry, map_page, get_physical,
}

page_entry_lem : (p flags : ℕ) → p < 2 ^ 32 → page_entry p flags ≡ p / 4096 * 4096 + flags % 4096
unfolding page_entry
page_entry_lem p flags h =
    let high = bit_and_high 12 p 0xFFFFF in
    let kept = bit_and_mask 20 (p / 2 ^ 12) in
    let low = bit_and_mask 12 flags in
    let top : bit_and p 0xFFFFF000 ≡ p / 4096 * 2 ^ 12 = omega arith in
    let bottom : bit_and flags 0xFFF ≡ flags % 4096 = omega arith in
    rw (top, bottom) (bit_or_fields 12 (p / 4096) (flags % 4096) (omega arith))

is_present_lem : (e : ℕ) → is_present e ≡ (e % 2 != 0)
is_present_lem e = ap (λ (k : ℕ). k != 0) (bit_and_mask 1 e)

-- The user bit leaves the present bit.
is_present-bit_or : (e : ℕ) → is_present (bit_or e page_user) ≡ is_present e
unfolding bit
is_present-bit_or e =
    is_present_lem (bit_or e page_user)
    ∙ ap (λ (k : ℕ). k != 0) {x = bit_or e page_user % 2} {y = e % 2}
        (omega (arith, bit-bit_or 0 e 4))
    ∙ sym (is_present_lem e)

put_other : (mem : ℕ → ℕ → ℕ) (a i v b j : ℕ) → b ≢ a → put mem a i v b j ≡ mem b j
put_other mem a i v b j ne = let no : (b == a) ≡ false = ground arith in rw no refl

put_user :
    (mem : ℕ → ℕ → ℕ) (a i b j : ℕ)
    → is_present (put mem a i (bit_or (mem a i) page_user) b j) ≡ is_present (mem b j)
put_user mem a i b j = elim (Bool-cases (b == a && j == i)) [
  | inr t ↦ rw t refl
  | inl t ↦
      let same_frame : b ≡ a = ground arith in
      let same_word : j ≡ i = ground arith in
      rw t (is_present-bit_or (mem a i) ∙ ap is_present (ap₂ mem (sym same_frame) (sym same_word)))
]

-- A page's number, which the two indices of its addresses make up.
abbrev pub page : ℕ → ℕ
page virtual_addr = virtual_addr / 4096

page_lem : (v : ℕ) → pd_index v * 1024 + pt_index v ≡ page v
page_lem v = let low = bit_and_mask 10 (v / 2 ^ 12) in omega arith

pt_index-lt : (v : ℕ) → pt_index v < 1024
pt_index-lt v = let low = bit_and_mask 10 (v / 2 ^ 12) in omega arith

-- Directory `e` has a table for an address, which is not itself a directory's frame.
abbrev pub HasTable : Vm → PageDirectory → ℕ → Type 0
HasTable vm e v =
    (is_present (vm.mem e.phys_dir (pd_index v)) ≡ true) × (e.page_tables (pd_index v) ≢ 0)

-- What `MapPage` does to memory where the table is there: a user bit in the directory, an entry in the
-- table.
record Written (vm vm' : Vm) (d : PageDirectory) (v entry : ℕ) : Type 0 where
  directory :
      (a i : ℕ)
      → a ≢ d.page_tables (pd_index v)
      → is_present (vm'.mem a i) ≡ is_present (vm.mem a i)
  table :
      (a i : ℕ)
      → a ≢ d.phys_dir
      → vm'.mem a i
        ≡ (if a == d.page_tables (pd_index v) && i == pt_index v then entry else vm.mem a i)

map_page-Written :
    (vm : Vm) (d : PageDirectory) (v p flags : ℕ)
    → HasTable vm d v
    → ((map_page vm d v p flags).1 ≡ d)
      × Written vm (map_page vm d v p flags).0 d v (page_entry p flags)
unfolding map_page get_or_create_page_table
map_page-Written vm d v p flags has =
    let some_table : (d.page_tables (pd_index v) == 0) ≡ false = ground (arith, has.1) in
    elim (Bool-cases (bit_and flags page_user != 0)) [
      | inl u ↦
          rw (map_page, get_or_create_page_table, has.0, u, some_table)
            (
              refl,
              record {
                directory = λ a i ne.
                    ap is_present (
                      put_other
                        (put vm.mem d.phys_dir (pd_index v)
                          (bit_or (vm.mem d.phys_dir (pd_index v)) page_user))
                        (d.page_tables (pd_index v)) (pt_index v) (page_entry p flags) a i ne)
                    ∙ put_user vm.mem d.phys_dir (pd_index v) a i;
                table = λ a i ne.
                    ap
                      (λ (t : ℕ).
                        if a == d.page_tables (pd_index v) && i == pt_index v
                        then page_entry p flags
                        else t)
                      (put_other vm.mem d.phys_dir (pd_index v)
                        (bit_or (vm.mem d.phys_dir (pd_index v)) page_user) a i ne);
              },
            )
      | inr u ↦
          rw (map_page, get_or_create_page_table, has.0, u, some_table)
            (
              refl,
              record {
                directory = λ a i ne. ap is_present (
                    put_other vm.mem (d.page_tables (pd_index v)) (pt_index v) (page_entry p flags)
                      a i ne);
                table = λ a i ne. refl;
              },
            )
    ]

-- The frames that a mapping for `v` in `d` writes are told apart by directory `e`, which has the same
-- table for `v`.
pub record Shares (vm : Vm) (d e : PageDirectory) (v : ℕ) : Type 0 where
  pub same_table : e.page_tables (pd_index v) ≡ d.page_tables (pd_index v)
  pub own_frame : e.phys_dir ≢ d.page_tables (pd_index v)
  pub no_directory : (j : ℕ) → e.page_tables j ≢ d.phys_dir
  pub once : (j : ℕ) → e.page_tables j ≡ d.page_tables (pd_index v) → j ≡ pd_index v
  pub there : HasTable vm e v

-- `GetPhysical` from what it reads: the directory's present bit, the table's pointer and the entry.
abbrev look : Bool → ℕ → ℕ → ℕ → ℕ
look present table pte w =
    if not present
    then 0
    else if table == 0
    then 0
    else if not (is_present pte)
    then 0
    else bit_or (bit_and pte 0xFFFFF000) (bit_and w 0xFFF)

get_physical-look :
    (vm : Vm) (e : PageDirectory) (w : ℕ)
    → get_physical vm e w
      ≡ look
          (is_present (vm.mem e.phys_dir (pd_index w)))
          (e.page_tables (pd_index w))
          (vm.mem (e.page_tables (pd_index w)) (pt_index w))
          w
unfolding get_physical
get_physical-look vm e w = refl

-- The address that a fresh entry leads to.
look_entry :
    (table p flags w : ℕ)
    → table ≢ 0
    → p < 2 ^ 32
    → flags % 2 ≡ 1
    → look true table (page_entry p flags) w ≡ p / 4096 * 4096 + w % 4096
unfolding page_entry
look_entry table p flags w ne small present =
    let entry = page_entry p flags in
    let e = page_entry_lem p flags small in
    let some_table : (table == 0) ≡ false = ground arith in
    let on : is_present entry ≡ true = is_present_lem entry ∙ ground arith in
    rw (some_table, on) (page_entry_lem entry w (omega (arith, e)) ∙ omega (arith, e))

-- A mapping is seen in every directory with the same table, the mapped one and any other: after
-- `MapPage(v, p, flags)` with the present flag, in a directory `d` that has a table for `v`,
-- `GetPhysical` in a directory `e` that shares that table gives the new frame for every address of the
-- page, and for every other address what it gave before.
pub get_physical-map_page :
    (vm : Vm) (d e : PageDirectory) (v p flags w : ℕ)
    → HasTable vm d v
    → Shares vm d e v
    → p < 2 ^ 32
    → flags % 2 ≡ 1
    → get_physical (map_page vm d v p flags).0 e w
      ≡ (if page w == page v then p / 4096 * 4096 + w % 4096 else get_physical vm e w)
unfolding get_physical
get_physical-map_page vm d e v p flags w has shares small present =
    let m = map_page-Written vm d v p flags has in
    let dir = m.1.directory e.phys_dir (pd_index w) shares.own_frame in
    let cell =
      m.1.table (e.page_tables (pd_index w)) (pt_index w) (shares.no_directory (pd_index w)) in
    let test =
      e.page_tables (pd_index w) == d.page_tables (pd_index v) && pt_index w == pt_index v in
    let pw = page_lem w in
    let pv = page_lem v in
    let iw = pt_index-lt w in
    let iv = pt_index-lt v in
    get_physical-look (map_page vm d v p flags).0 e w ∙ elim (ℕ_discrete (page w) (page v)) [
      | yes same ↦
          let same_index : pd_index w ≡ pd_index v = omega arith in
          let same_entry : pt_index w ≡ pt_index v = omega arith in
          let table : e.page_tables (pd_index w) ≡ d.page_tables (pd_index v) =
            ap e.page_tables same_index ∙ shares.same_table in
          let hit : test ≡ true = ground arith in
          let there : is_present (vm.mem e.phys_dir (pd_index w)) ≡ true =
            ap (λ (k : ℕ). is_present (vm.mem e.phys_dir k)) same_index ∙ shares.there.0 in
          let some_table : e.page_tables (pd_index w) ≢ 0 =
            λ z. shares.there.1 (ap e.page_tables (sym same_index) ∙ z) in
          let yes_page : (page w == page v) ≡ true = ground arith in
          rw yes_page (
            ap₂ (λ (b : Bool) (x : ℕ). look b (e.page_tables (pd_index w)) x w) (dir ∙ there)
              (cell
                ∙ ap
                    (λ (t : Bool).
                      if t
                      then page_entry p flags
                      else vm.mem (e.page_tables (pd_index w)) (pt_index w))
                    hit)
            ∙ look_entry (e.page_tables (pd_index w)) p flags w some_table small present)
      | no other ↦
          let no_page : (page w == page v) ≡ false = ground arith in
          let miss : test ≡ false = elim (Bool-cases test) [
            | inr t ↦ t
            | inl t ↦
                let table : e.page_tables (pd_index w) ≡ d.page_tables (pd_index v) =
                  ground arith in
                let same_index = shares.once (pd_index w) table in
                let same_entry : pt_index w ≡ pt_index v = ground arith in
                absurd (other (omega arith))
          ] in
          rw no_page (
            ap₂ (λ (b : Bool) (x : ℕ). look b (e.page_tables (pd_index w)) x w) dir
              (cell
                ∙ ap
                    (λ (t : Bool).
                      if t
                      then page_entry p flags
                      else vm.mem (e.page_tables (pd_index w)) (pt_index w))
                    miss)
            ∙ sym (get_physical-look vm e w))
    ]
