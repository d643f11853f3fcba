-- ===== src/Faults.antt =====
-- The handlers around the kernel's handle_mm_fault: do_fault_handler_f and do_fault_ret_handler_f of
-- libs/fprobes/fprober_handle_mm.c, in a build with ZONE_KERNEL_SYNC_CHECK and SHARED_DEFENCE.
use flow_scanner.Prelude.{
  ℕ, zero, suc, ◌+◌, ◌-◌, ◌*◌, ◌/◌, ◌%◌, ◌^◌, ◌≤◌, ◌<◌, ◌≡◌, ◌≢◌, ◌↔◌, refl, sym, ap, ◌∙◌, Bool,
  true, false, arith, tests, ltb, leb, ◌==◌, ◌⊎◌, if◌then◌else◌, Bool-cases, inl, inr, ◌&&◌, ◌||◌,
  not, ==_iff, Option, some, none, List, [], ◌∷◌, ◌++◌, some_eq, Option-cases,
}
use flow_scanner.Paging.Bits.{test_bit}
use flow_scanner.Paging.Walk.{PageTables, get_page_table_entry}
use flow_scanner.Paging.Flip.{VmArea, flip_bit, shared_flip_bit}
use flow_scanner.PageRegistry.{Registry, page_mask}
use flow_scanner.PageRegistry.Removal.{restore_page, restore_sh_page}
pub mod Steps
pub mod Executable
pub mod PageFault
pub mod WriteOnly

-- `EXE_DENY_BIT`, `CHECK_DENY_BIT`, `ORIG_EXE_BIT`, `ORIG_WRITE_BIT` and `WRITE_BIT`.
abbrev pub exe_deny_bit : ℕ
exe_deny_bit = 63

abbrev pub check_deny_bit : ℕ
check_deny_bit = 10

abbrev pub orig_exe_bit : ℕ
orig_exe_bit = 56

abbrev pub orig_write_bit : ℕ
orig_write_bit = 57

abbrev pub write_bit : ℕ
write_bit = 1

-- The parts of `flags` and of the value of handle_mm_fault that the handlers read:
-- FAULT_FLAG_WRITE, VM_FAULT_ERROR, VM_FAULT_RETRY and VM_FAULT_NOPAGE.
pub record FaultResult : Type 0 where
  pub fault_error : Bool
  pub fault_retry : Bool
  pub fault_nopage : Bool

-- `struct addr_info_f`: what the first handler leaves for the second.
pub record AddrInfo : Type 0 where
  pub vma : VmArea
  pub flags_write : Bool
  pub addr : ℕ
  pub pte : ℕ

-- The process in which the fault happens: `cr3` holds its page tables, `hooked` is the answer of
-- the search in hooked_pids.
pub record Process : Type 0 where
  pub tgid : ℕ
  pub cr3 : ℕ
  pub hooked : Bool

-- `names_library` is strstr with ".so", on the name of the file that is mapped.
unfoldable pub is_excluded : {Name : Type 0} → (names_library : Name → Bool) → Option Name → Bool
is_excluded names_library none = false
is_excluded names_library (some name) = names_library name

-- Whether the fault may change the page that the second handler looks at.
unfoldable pub is_watched : VmArea → (flags_write : Bool) → (pte : ℕ) → Bool
is_watched vma flags_write pte =
    vma.vm_exec || (vma.vm_write && flags_write && test_bit pte orig_write_bit)

unfoldable pub do_fault_handler :
    {Name : Type 0}
    → (names_library : Name → Bool) → PageTables
    → Process
    → AddrInfo
    → (vma : Option VmArea) → (vm_file : Option Name) → (address : ℕ) → (flags_write : Bool)
    → AddrInfo
do_fault_handler names_library tables process addr_info none vm_file address flags_write =
    record addr_info { addr = 0 }
do_fault_handler names_library tables process addr_info (some vma) vm_file address flags_write =
    let reset : AddrInfo = record addr_info { addr = 0 } in
    let pte = get_page_table_entry tables process.cr3 (page_mask address) in
    if process.tgid == 1
    then reset
    else (if not process.hooked
        then reset
        else (if is_excluded names_library vm_file
            then reset
            else (if is_watched vma flags_write pte
                then record { vma = vma; flags_write = flags_write; addr = address; pte = pte }
                else record reset { pte = pte })))

-- The page tables and the registered pages.
pub record FaultState : Type 0 where
  pub tables : PageTables
  pub registry : Registry

-- What the handler finds outside: the bucket of a pid, whether restoring a page can write it, the
-- page tables in the nodes of shared_map_hash for the vm area, and the ones of the vm area.
pub record Surroundings : Type 0 where
  pub bucket_of : ℕ → ℕ
  pub written : Bool
  pub pgds : List ℕ
  pub own : ℕ

unfoldable pub flip : Process → (addr bit_position : ℕ) → (set : Bool) → PageTables → PageTables
flip process addr bit_position set tables =
    (flip_bit tables process.cr3 (page_mask addr) bit_position set).0

unfoldable pub shared_flip :
    Surroundings → (addr bit_position : ℕ) → (set : Bool) → PageTables → PageTables
shared_flip around addr bit_position set tables =
    shared_flip_bit tables around.pgds around.own (page_mask addr) bit_position set

-- The page is restored before it is written: by this process, or as a page that another process
-- has checked. The handler goes on whatever the result is.
unfoldable pub restore_written : Surroundings → Process → AddrInfo → Registry → Registry
restore_written around process info r =
    if test_bit info.pte check_deny_bit
    then (restore_page around.bucket_of r around.written process.tgid info.addr).0
    else (if info.vma.vm_shared then (restore_sh_page r around.written info.addr).0 else r)

unfoldable pub allow_write : Surroundings → Process → (addr : ℕ) → PageTables → PageTables
allow_write around process addr tables =
    shared_flip around addr write_bit true (flip process addr write_bit true tables)

-- `orig_write_bit` of the handler, once it has been read.
unfoldable pub was_writable : (pte : ℕ) → Bool
was_writable pte = not (pte == 0) && test_bit pte orig_write_bit

unfoldable pub write_page : Surroundings → Process → AddrInfo → FaultState → FaultState
write_page around process info s = record {
  tables = allow_write around process info.addr s.tables;
  registry = restore_written around process info s.registry;
}

-- The vm area is writable and executable.
unfoldable pub deny_wx : Surroundings → Process → (addr : ℕ) → PageTables → PageTables
deny_wx around process addr tables = flip process addr check_deny_bit false (
    shared_flip around addr exe_deny_bit true
      (flip process addr exe_deny_bit true (flip process addr orig_exe_bit true tables)))

unfoldable pub handle_wx : Surroundings → Process → AddrInfo → FaultState → FaultState
handle_wx around process info s =
    let restored =
      if info.flags_write && was_writable info.pte then write_page around process info s else s in
    record restored { tables = deny_wx around process info.addr restored.tables }

-- The vm area is executable only.
unfoldable pub deny_x : Surroundings → Process → (addr : ℕ) → PageTables → PageTables
deny_x around process addr tables = shared_flip around addr exe_deny_bit true (
    flip process addr check_deny_bit false
      (flip process addr exe_deny_bit true (flip process addr orig_exe_bit true tables)))

-- The vm area was executable and is writable now.
unfoldable pub handle_w : Surroundings → Process → AddrInfo → FaultState → FaultState
handle_w around process info s =
    let restored = write_page around process info s in
    if was_writable info.pte
    then record restored { tables = flip process info.addr check_deny_bit false restored.tables }
    else s

-- The branches of the handler behind its returns. The last one tests `orig_write_bit` in front of
-- the read, as it was initialised.
abbrev pub initial_orig_write_bit : Bool
initial_orig_write_bit = false

unfoldable pub handle_page : Surroundings → Process → AddrInfo → FaultState → FaultState
handle_page around process info s =
    if info.vma.vm_exec && info.vma.vm_write
    then handle_wx around process info s
    else (if info.vma.vm_exec
        then record s { tables = deny_x around process info.addr s.tables }
        else (if info.vma.vm_write && info.flags_write && initial_orig_write_bit
            then handle_w around process info s
            else s))

-- The fault is a materialisation or a write, and the kernel has handled it.
unfoldable pub is_handled : AddrInfo → FaultResult → Bool
is_handled info result =
    not (info.addr == 0)
    && not result.fault_error
    && not result.fault_retry
    && (info.flags_write || result.fault_nopage)

unfoldable pub do_fault_ret_handler :
    Surroundings → Process → AddrInfo → FaultResult → FaultState → FaultState
do_fault_ret_handler around process info result s =
    if is_handled info result then handle_page around process info s else s

-- A page fault: the first handler, handle_mm_fault as the function `kernel`, the second handler.
unfoldable pub page_fault :
    {Name : Type 0}
    → (names_library : Name → Bool) → (kernel : FaultState → FaultState × FaultResult)
    → Surroundings
    → Process
    → AddrInfo
    → (vma : Option VmArea) → (vm_file : Option Name) → (address : ℕ) → (flags_write : Bool)
    → FaultState
    → FaultState
page_fault names_library kernel around process addr_info vma vm_file address flags_write s =
    let info =
      do_fault_handler names_library s.tables process addr_info vma vm_file address flags_write in
    let done = kernel s in do_fault_ret_handler around process info done.1 done.0
