-- ===== src/InvalidOp/Handler.antt =====
-- invalid_op_handler of libs/fprobes/fprober_invalid_op.c, in a build with ZONE_KERNEL_SYNC_CHECK,
-- SYNC_CHECK and SHARED_DEFENCE, with ONE_OPEN_ZONE 0. Its locks and the flush of the TLB are left
-- out.

use flow_scanner.Prelude.{
  ℕ, ◌+◌, ◌-◌, ◌*◌, ◌/◌, ◌%◌, Bool, true, false, ltb, ◌==◌, if◌then◌else◌, ◌&&◌, not, Option, some,
  none, sub64,
}
use flow_scanner.Prelude.Int.{ℤ, pos, negsuc}
use flow_scanner.Disassemble.{Stats}
use flow_scanner.Checks.Registry.{run_kernel_check}
use flow_scanner.Paging.Walk.{PageTables}
use flow_scanner.Paging.Flip.{VmArea}
use flow_scanner.Writers.{Data, Pages}
use flow_scanner.Writers.Fill.{restore_zone_bytes}
use flow_scanner.PageRegistry.{page_mask, is_altered_at}
use flow_scanner.PageRegistry.Removal.{
  RestoreResult, page_found, page_not_found, write_error, restore_page,
}
use flow_scanner.UserLimits.{check_bytes_limit}
use flow_scanner.CrossPages.{register_page_cross_pages_integrity}
use flow_scanner.ZoneTable.{create_zone}
use flow_scanner.Faults.{flip, shared_flip, exe_deny_bit, write_bit, orig_write_bit, check_deny_bit}
use flow_scanner.InvalidOp.{OpState, Environment}
use flow_scanner.InvalidOp.Search.{
  ZonePage, Search, gives_up, no_code, zone_ends, endless_search, search_zone,
}

-- How the handler returns: by a guard, by the label error_exit, or by the label exit. `opened` is
-- the zone that the process may run now.
pub data Outcome : Type 0 where
  not_concerned : Outcome
  error_exit : Outcome
  opened : (start end : ℕ) → Outcome
  page_opened : (start : ℕ) → Outcome
  no_outcome : Outcome

-- The bytes of the zone in contiguous memory.
unfoldable pub zone_data :
    (first_page : ZonePage) → (second_page : Option ZonePage) → (start_offset : ℕ) → Data
zone_data first_page none start_offset o = first_page.bytes (start_offset + o)
zone_data first_page (some second_page) start_offset o =
    let off = 4096 - start_offset in
    if ltb o off then first_page.bytes (start_offset + o) else second_page.bytes (o - off)

unfoldable pub is_writable : Option VmArea → Bool
is_writable none = false
is_writable (some area) = area.vm_write

unfoldable pub make_executable : Environment → (addr : ℕ) → PageTables → PageTables
make_executable env addr tables =
    shared_flip env.around addr exe_deny_bit false (flip env.process addr exe_deny_bit false tables)

unfoldable pub make_read_only : Environment → (addr : ℕ) → PageTables → PageTables
make_read_only env addr tables =
    shared_flip env.around addr write_bit false
      (flip env.process addr orig_write_bit true (flip env.process addr write_bit false tables))

-- The label `exit`, for one page that had not been fetched.
unfoldable pub allow_execution :
    Environment → (vma : Option VmArea) → (addr : ℕ) → PageTables → PageTables
allow_execution env vma addr tables =
    let executable = make_executable env addr tables in
    flip env.process addr check_deny_bit true
      (if is_writable vma then make_read_only env addr executable else executable)

unfoldable pub allow_page : Environment → (vma : Option VmArea) → ZonePage → PageTables → PageTables
allow_page env vma page tables =
    if page.not_fetched then allow_execution env vma page.address tables else tables

unfoldable pub allow_pages :
    Environment
    → (vma : Option VmArea) → (first_page : ZonePage) → (second_page : Option ZonePage) → PageTables
    → PageTables
allow_pages env vma first_page none tables = allow_page env vma first_page tables
allow_pages env vma first_page (some second_page) tables =
    allow_page env vma second_page (allow_page env vma first_page tables)

unfoldable pub leave :
    Environment
    → (vma : Option VmArea) → (first_page : ZonePage) → (second_page : Option ZonePage) → OpState
    → OpState
leave env vma first_page second_page s = record s {
  tables = allow_pages env vma first_page second_page s.tables;
}

unfoldable pub passes_check : Environment → Data → (start end : ℕ) → Bool
passes_check env bytes start end =
    not (run_kernel_check env.mode (env.results bytes start end) env.check_functions == 0)

-- check_bytes_limit, which charges the user; then create_zone, whose failure is only printed.
unfoldable pub charged : Environment → OpState → (size : ℕ) → OpState × ℕ
charged env s size =
    let answer = check_bytes_limit env.kmalloc s.users env.task.uid size in
    (record s { users = answer.0 }, answer.1)

unfoldable pub recorded :
    Environment
    → OpState
    → Data
    → (start end num_pages : ℕ) → (is_zone : Bool) → Option Stats
    → OpState
recorded env s bytes start end num_pages is_zone stats = record s {
  zones =
      (create_zone env.bucket_of s.zones env.task env.allocations (some bytes) start end num_pages
        is_zone stats).0;
}

unfoldable pub is_found : RestoreResult → Bool
is_found page_found = true
is_found page_not_found = false
is_found write_error = false

-- Behind the checks of the label restore_page.
unfoldable pub put_page_back :
    Environment
    → (vma : Option VmArea) → (first_page : ZonePage) → (second_page : Option ZonePage) → OpState
    → OpState × Outcome
put_page_back env vma first_page second_page s =
    let start = first_page.address in
    let answer = restore_page env.bucket_of s.registry env.written env.process.tgid start in
    let restored : OpState = record s {
      registry = answer.0;
      memory = env.restored start first_page.bytes s.memory;
      cross = (register_page_cross_pages_integrity env.kmalloc s.cross env.process.tgid start 3).0;
    } in
    if is_found answer.1
    then (leave env vma first_page second_page restored, page_opened start)
    else (record s { registry = answer.0 }, error_exit)

-- The label restore_page: the whole first page is opened.
unfoldable pub restore_whole_page :
    Environment
    → (vma : Option VmArea) → (first_page : ZonePage) → (second_page : Option ZonePage)
    → (start_offset : ℕ) → OpState
    → OpState × Outcome
restore_whole_page env vma first_page second_page start_offset s =
    let start = first_page.address in
    let end = first_page.address + 4096 in
    let (paid, answer) = charged env s 4096 in
    if is_altered_at first_page.bytes start_offset
    then (s, error_exit)
    else (if not (passes_check env first_page.bytes start end)
        then (s, error_exit)
        else (if not (answer == 0)
            then (paid, error_exit)
            else put_page_back env vma first_page second_page
                (recorded env paid first_page.bytes start end 1 false none)))

-- Behind restore_zone_bytes.
unfoldable pub zone_restored :
    Environment
    → (vma : Option VmArea) → (first_page : ZonePage) → (second_page : Option ZonePage)
    → (start end : ℕ) → OpState
    → Pages × ℤ
    → OpState × Outcome
zone_restored env vma first_page second_page start end s (memory, pos n) =
    (leave env vma first_page second_page (record s { memory = memory }), opened start end)
zone_restored env vma first_page second_page start end s (memory, negsuc n) =
    let tried : OpState = record s { memory = memory } in
    if n == 1
    then (tried, error_exit)
    else restore_whole_page env vma first_page second_page (start % 4096) tried

-- `PAGE_ALIGN_UP` of the end of a zone without bytes. Addresses of a process lie far below 2 ^ 64.
unfoldable pub zone_end : (start end : ℕ) → ℕ
zone_end start end = if end == start then (end + 4095) / 4096 * 4096 else end

-- A zone whose end is known. The size is the one before an empty zone is extended to the end of its
-- page.
unfoldable pub open_zone :
    Environment
    → (vma : Option VmArea) → (first_page : ZonePage) → (second_page : Option ZonePage)
    → (start end num_pages : ℕ) → Stats
    → OpState
    → OpState × Outcome
open_zone env vma first_page second_page start end num_pages stats s =
    let zone_size = sub64 end start in
    let extended = zone_end start end in
    let bytes = zone_data first_page second_page (start % 4096) in
    let (paid, answer) = charged env s zone_size in
    let made = recorded env paid bytes start extended num_pages true (some stats) in
    if ltb end start
    then (s, error_exit)
    else (if not (num_pages == 1) && not env.kmalloc
        then (s, error_exit)
        else (if not (passes_check env bytes start extended)
            then (s, error_exit)
            else (if not (answer == 0)
                then (paid, error_exit)
                else zone_restored env vma first_page second_page start extended made (
                    restore_zone_bytes env.writer made.memory (some bytes) start extended
                      num_pages))))

unfoldable pub open_found : Environment → (address : ℕ) → OpState × Search → OpState × Outcome
open_found env address (s, gives_up) = (s, error_exit)
open_found env address (s, endless_search) = (s, no_outcome)
open_found env address (s, no_code first_page second_page start_offset vma) =
    restore_whole_page env vma first_page second_page start_offset s
open_found env address (s, zone_ends first_page none end_offset vma stats) =
    open_zone env vma first_page none address (page_mask address + end_offset) 1 stats s
open_found env address (s, zone_ends first_page (some second_page) end_offset vma stats) =
    open_zone env vma first_page (some second_page) address (page_mask address + 4096 + end_offset)
      2 stats s

-- X86_TRAP_UD and SIGILL.
unfoldable pub invalid_op_handler :
    Environment → OpState → (trapnr address signr : ℕ) → OpState × Outcome
invalid_op_handler env s trapnr address signr =
    if address == 0
    then (s, not_concerned)
    else (if not (trapnr == 6) && not (signr == 4)
        then (s, not_concerned)
        else (if not env.process.hooked
            then (s, not_concerned)
            else open_found env address (search_zone env s address)))
