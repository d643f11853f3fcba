-- ===== src/Mappings.antt =====
-- The handlers around the kernel's do_mmap, do_mmap_handler_f and do_mmap_ret_handler_f of
-- libs/fprobes/fprober_mmap.c, and the handlers of libs/fprobes/fprober_new.c, which keep the kernel
-- from mapping the pages around the one of a fault.

use flow_scanner.Prelude.{
  ℕ, zero, suc, ◌+◌, ◌-◌, ◌*◌, ◌/◌, ◌%◌, ◌^◌, ◌≤◌, ◌<◌, ◌≡◌, ◌≢◌, ◌↔◌, refl, sym, ap, ◌∙◌, Bool,
  true, false, arith, tests, ltb, leb, ◌==◌, ◌⊎◌, if◌then◌else◌, Bool-cases, inl, inr, ◌&&◌, ◌||◌,
  not, ==_iff, Option, some, none, List, [], ◌∷◌, ◌++◌, some_eq, Option-cases,
}
use flow_scanner.Prelude.Int.{ℤ, pos, negsuc}
use flow_scanner.Paging.Walk.{PageTables}
use flow_scanner.Paging.Flip.{flip_bit}
use flow_scanner.Faults.{Process, exe_deny_bit, orig_exe_bit, check_deny_bit}
pub mod Pages
pub mod Denied

-- `struct mmap_info_f`, with PROT_EXEC of `prot` and MAP_ANONYMOUS of `flags`.
pub record MmapInfo (Name : Type 0) : Type 0 where
  pub name : Option Name
  pub addr : ℕ
  pub len : ℕ
  pub prot_exec : Bool
  pub anonymous : Bool

unfoldable pub do_mmap_handler :
    {Name : Type 0}
    → Process
    → MmapInfo Name
    → (file : Option Name) → (addr len : ℕ) → (prot_exec anonymous : Bool) → MmapInfo Name
do_mmap_handler process mmap_info file addr len prot_exec anonymous =
    if process.hooked
    then record {
      name = file;
      addr = addr;
      len = len;
      prot_exec = prot_exec;
      anonymous = anonymous;
    }
    else record mmap_info { name = none }

unfoldable pub is_no_map : ℤ → Bool
is_no_map (pos n) = false
is_no_map (negsuc n) = n == 13

-- One page of the loop, behind get_user_pages.
unfoldable pub deny_page : Process → (page_addr : ℕ) → PageTables → PageTables
deny_page process page_addr tables =
    let flipped = flip_bit tables process.cr3 page_addr exe_deny_bit true in
    let marked = (flip_bit flipped.0 process.cr3 page_addr orig_exe_bit true).0 in
    let unchecked = (flip_bit marked process.cr3 page_addr check_deny_bit false).0 in
    if is_no_map flipped.1 then flipped.0 else unchecked

-- The loop. `materialise` is the kernel's get_user_pages, on one page.
unfoldable pub deny_pages :
    (materialise : (page_addr : ℕ) → PageTables → PageTables)
    → Process
    → (pages page_addr : ℕ) → PageTables
    → PageTables
deny_pages materialise process zero page_addr tables = tables
deny_pages materialise process (suc pages) page_addr tables =
    deny_pages materialise process pages (page_addr + 4096)
      (deny_page process page_addr (materialise page_addr tables))

-- The kernel's PAGE_ALIGN, on 64 bits.
unfoldable pub page_align : ℕ → ℕ
page_align len = (len + 4095) % 2 ^ 64 / 4096 * 4096

-- The addresses from `addr` up to `addr + len`, a sum of 64 bits.
unfoldable pub page_count : (addr len : ℕ) → ℕ
page_count addr len = ((addr + len) % 2 ^ 64 - addr + 4095) / 4096

-- The file has a name, or the mapping is anonymous; otherwise strstr gets NULL. The answer `none`
-- stands for that.
unfoldable pub skips : {Name : Type 0} → (names_library : Name → Bool) → MmapInfo Name → Option Bool
skips names_library info = elim info.name [
  | none ↦ if info.anonymous then some false else none
  | some name ↦ some (names_library name)
]

-- `addr` is what do_mmap returned, as an unsigned number: the test `addr < 0` never holds.
unfoldable pub do_mmap_ret_handler :
    {Name : Type 0}
    → (names_library : Name → Bool) → (materialise : (page_addr : ℕ) → PageTables → PageTables)
    → Process
    → MmapInfo Name
    → (addr : ℕ) → PageTables
    → Option PageTables
do_mmap_ret_handler names_library materialise process info addr tables =
    let pages = page_count addr (page_align info.len) in
    let denied = deny_pages materialise process pages addr tables in
    let handled : Option PageTables = elim (skips names_library info) [
      | none ↦ none
      | some skip ↦ some (if skip then tables else (if info.prot_exec then denied else tables))
    ] in
    if process.hooked then handled else some tables

-- `regs->ax` behind should_fault_around_handler_f.
unfoldable pub should_fault_around_handler : Process → (ax : ℕ) → ℕ
should_fault_around_handler process ax = if process.hooked then 0 else ax

-- `start_pgoff` and `end_pgoff` behind filemap_handler.
unfoldable pub filemap_handler : Process → (pgoff start_pgoff end_pgoff : ℕ) → ℕ × ℕ
filemap_handler process pgoff start_pgoff end_pgoff =
    if process.hooked then (pgoff, pgoff) else (start_pgoff, end_pgoff)
