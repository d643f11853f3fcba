-- ===== src/InvalidOp/Search.antt =====
-- The loop of invalid_op_handler of libs/fprobes/fprober_invalid_op.c that looks for the end of the
-- zone: its one or two pages.

use flow_scanner.Prelude.{ℕ, ◌+◌, ◌%◌, Bool, true, false, if◌then◌else◌, Option, some, none}
use flow_scanner.Disassemble.{Stats}
use flow_scanner.Paging.Flip.{VmArea}
use flow_scanner.Writers.{Data}
use flow_scanner.CrossPages.{register_page_cross_pages_integrity}
use flow_scanner.InvalidOp.{OpState, Environment, handle_cross_page}
use flow_scanner.InvalidOp.Fetch.{
  info_bytes, Lookup, unmapped_page, missing_page, page_at, lookup_page,
}
use flow_scanner.PageRegistry.{page_mask}
use flow_scanner.InvalidOp.Blocks.{PageEnd, not_code, ends_at, goes_on, endless, search_page}

-- A page of the zone: its bytes, its address, and whether it was not fetched.
pub record ZonePage : Type 0 where
  pub bytes : Data
  pub address : ℕ
  pub not_fetched : Bool

-- What the search comes to: the handler gives up, the disassembler fails at the block at
-- `start_offset` of its page, or the zone ends in the
-- last page of a list. `vma` is the local variable, the vm area of the last page that was looked up.
pub data Search : Type 0 where
  gives_up : Search
  no_code :
      (first_page : ZonePage)
      → (second_page : Option ZonePage) → (start_offset : ℕ) → (vma : Option VmArea) → Search
  zone_ends :
      (first_page : ZonePage)
      → (second_page : Option ZonePage) → (end_offset : ℕ) → (vma : Option VmArea) → Stats
      → Search
  endless_search : Search

unfoldable pub is_some {ℓ} : {A : Type ℓ} → Option A → Bool
is_some none = false
is_some (some x) = true

unfoldable pub zone_page : OpState → (info page_addr : ℕ) → (not_fetched : Option VmArea) → ZonePage
zone_page s info page_addr not_fetched = record {
  bytes = info_bytes (s.registry.page_infos info);
  address = page_addr;
  not_fetched = is_some not_fetched;
}

-- Both pages that an instruction crosses are marked. The result of the registration is not read.
unfoldable pub mark_cross : Environment → OpState → (page_addr : ℕ) → (cut : Bool) → OpState
mark_cross env s page_addr cut =
    let ends =
      (register_page_cross_pages_integrity env.kmalloc s.cross env.process.tgid page_addr 2).0 in
    let both =
      (register_page_cross_pages_integrity env.kmalloc ends env.process.tgid (page_addr + 4096)
        1).0 in
    if cut then record s { cross = both } else s

-- The local variable `vma` behind the lookup of a page.
unfoldable pub vma_after : (vma not_fetched : Option VmArea) → Option VmArea
vma_after vma none = vma
vma_after vma (some looked_up) = some looked_up

-- What the search in the second page comes to. It is the last one.
unfoldable pub after_second :
    Environment
    → OpState
    → (first_page second_page : ZonePage) → (vma : Option VmArea) → PageEnd
    → OpState × Search
after_second env s first_page second_page vma (not_code start_offset stats) =
    (s, no_code first_page (some second_page) start_offset vma)
after_second env s first_page second_page vma (ends_at end_offset cut stats) = (
  mark_cross env s second_page.address cut,
  zone_ends first_page (some second_page) end_offset vma stats,
)
after_second env s first_page second_page vma (goes_on end_offset cut blocks stats) =
    (s, endless_search)
after_second env s first_page second_page vma endless = (s, endless_search)

-- The second page, once it was found. The option is where the instructions behind the crossing one
-- start, and the counters are those behind handle_cross_page.
unfoldable pub search_behind :
    Environment
    → OpState
    → (first_page second_page : ZonePage) → (info end_offset num_of_blocks : ℕ)
    → (vma : Option VmArea) → Option ℕ × Stats
    → OpState × Search
search_behind env s first_page second_page info end_offset num_of_blocks vma (none, stats) =
    (s, zone_ends first_page none end_offset vma stats)
search_behind env s first_page second_page info end_offset num_of_blocks vma (some offset, stats) =
    after_second env s first_page second_page vma
      (search_page env info second_page.bytes true second_page.address offset num_of_blocks stats)

unfoldable pub search_second :
    Environment
    → (first_page : ZonePage) → (end_offset num_of_blocks : ℕ) → (vma : Option VmArea) → Stats
    → OpState × Lookup
    → OpState × Search
search_second env first_page end_offset num_of_blocks vma stats (s, unmapped_page) = (s, gives_up)
search_second env first_page end_offset num_of_blocks vma stats (s, missing_page looked_up) =
    (s, zone_ends first_page none end_offset (vma_after vma looked_up) stats)
search_second env first_page end_offset num_of_blocks vma stats (s, page_at info not_fetched) =
    let second_page = zone_page s info (first_page.address + 4096) not_fetched in
    search_behind env s first_page second_page info end_offset num_of_blocks
      (vma_after vma not_fetched)
      (handle_cross_page env.buff second_page.bytes first_page.bytes end_offset stats)

abbrev pub no_stats : Stats
no_stats = record {
  num_of_control_instructions = 0;
  num_of_arithmetic_instructions = 0;
  num_of_logical_instructions = 0;
  num_of_data_transfer_instructions = 0;
  num_of_system_instructions = 0;
  num_of_miscellaneous_instructions = 0;
  num_of_vex_or_evex_instructions = 0;
}

-- The first page, and what the search in it comes to.
unfoldable pub after_first :
    Environment
    → OpState
    → (first_page : ZonePage) → (vma : Option VmArea) → PageEnd
    → OpState × Search
after_first env s first_page vma (not_code start_offset stats) =
    (s, no_code first_page none start_offset vma)
after_first env s first_page vma (ends_at end_offset cut stats) =
    (mark_cross env s first_page.address cut, zone_ends first_page none end_offset vma stats)
after_first env s first_page vma (goes_on end_offset cut num_of_blocks stats) =
    let marked = mark_cross env s first_page.address cut in
    search_second env first_page end_offset num_of_blocks vma stats
      (lookup_page env marked (first_page.address + 4096))
after_first env s first_page vma endless = (s, endless_search)

unfoldable pub search_first : Environment → (address : ℕ) → OpState × Lookup → OpState × Search
search_first env address (s, unmapped_page) = (s, gives_up)
search_first env address (s, missing_page vma) = (s, gives_up)
search_first env address (s, page_at info not_fetched) =
    let first_page = zone_page s info (page_mask address) not_fetched in
    after_first env s first_page not_fetched
      (search_page env info first_page.bytes false first_page.address (address % 4096) 0 no_stats)

unfoldable pub search_zone : Environment → OpState → (address : ℕ) → OpState × Search
search_zone env s address = search_first env address (lookup_page env s (page_mask address))
