-- ===== src/InvalidOp/Ends.antt =====
-- The search of invalid_op_handler of libs/fprobes/fprober_invalid_op.c through the pages of a zone
-- ends.

use flow_scanner.Prelude.{
  ℕ, ◌+◌, ◌%◌, ◌≡◌, refl, Bool, true, false, arith, Option, some, none, IsU64,
}
use flow_scanner.PageRegistry.{page_mask}
use flow_scanner.InvalidOp.Search.{
  after_second, zone_page, vma_after, mark_cross, no_stats, ZonePage, Search, gives_up, no_code,
  zone_ends, endless_search, search_behind, search_second, search_first, search_zone, after_first,
}
use flow_scanner.Paging.Flip.{VmArea}
use flow_scanner.InvalidOp.{handle_cross_page, OpState, Environment, find_first_invalid_opcode_byte}
use flow_scanner.InvalidOp.Blocks.{
  enough_blocks, PageEnd, not_code, ends_at, goes_on, endless, search_page,
}
use flow_scanner.InvalidOp.Fetch.{Lookup, unmapped_page, missing_page, page_at, lookup_page}
use flow_scanner.Disassemble.{Stats}
use flow_scanner.Writers.{Data}
use flow_scanner.InvalidOp.Settled.{is_settled, search_blocks_settled, limit_short}

-- The bytes of each page_info lie below 2 ^ 64.
abbrev pub AreInMemory : Environment → Type 0
AreInMemory env = (info : ℕ) → IsU64 (env.data_address info + 4096)

unfoldable pub is_ended : Search → Bool
is_ended gives_up = true
is_ended (no_code first_page second_page start_offset vma) = true
is_ended (zone_ends first_page second_page end_offset vma stats) = true
is_ended endless_search = false

module _ (env : Environment) (addresses : AreInMemory env) where
  search_page_settled :
      (info : ℕ) (bytes : Data) (last_page : Bool) (page_addr start_offset num_of_blocks : ℕ)
      (stats : Stats)
      → is_settled last_page
          (search_page env info bytes last_page page_addr start_offset num_of_blocks stats)
        ≡ true
  unfolding search_page
  search_page_settled info bytes last_page page_addr start_offset num_of_blocks stats =
      let start = page_addr + start_offset in
      let next_zone = find_first_invalid_opcode_byte (env.user_bytes start) start in
      let short = limit_short (env.user_bytes start) start in
      let all = addresses info in
      search_blocks_settled (env.data_address info) bytes next_zone last_page
        env.num_of_contiguous_block (omega arith) short enough_blocks start_offset num_of_blocks
        stats (omega arith) (omega arith)

  after_second_ends :
      (s : OpState) (first_page second_page : ZonePage) (vma : Option VmArea) (e : PageEnd)
      → is_settled true e ≡ true
      → is_ended (after_second env s first_page second_page vma e).1 ≡ true
  unfolding after_second is_settled is_ended
  after_second_ends s first_page second_page vma (not_code start_offset stats) h = refl
  after_second_ends s first_page second_page vma (ends_at e cut stats) h = refl
  after_second_ends s first_page second_page vma (goes_on e cut blocks stats) h = cc
  after_second_ends s first_page second_page vma endless h = cc

  search_behind_ends :
      (s : OpState) (first_page second_page : ZonePage) (info end_offset num_of_blocks : ℕ)
      (vma : Option VmArea) (crossed : Option ℕ × Stats)
      → is_ended
          (search_behind env s first_page second_page info end_offset num_of_blocks vma crossed).1
        ≡ true
  unfolding search_behind is_ended
  search_behind_ends s first_page second_page info end_offset num_of_blocks vma (none, stats) = refl
  search_behind_ends s first_page second_page info end_offset num_of_blocks vma (some o, stats) =
      after_second_ends s first_page second_page vma
        (search_page env info second_page.bytes true second_page.address o num_of_blocks stats)
        (search_page_settled info second_page.bytes true second_page.address o num_of_blocks stats)

  search_second_ends :
      (first_page : ZonePage) (end_offset num_of_blocks : ℕ) (vma : Option VmArea) (stats : Stats)
      (found : OpState × Lookup)
      → is_ended (search_second env first_page end_offset num_of_blocks vma stats found).1 ≡ true
  unfolding search_second is_ended
  search_second_ends first_page end_offset num_of_blocks vma stats (s, unmapped_page) = refl
  search_second_ends first_page end_offset num_of_blocks vma stats (s, missing_page looked_up) =
      refl
  search_second_ends first_page end_offset num_of_blocks vma stats (s, page_at info not_fetched) =
      let second_page = zone_page s info (first_page.address + 4096) not_fetched in
      search_behind_ends s first_page second_page info end_offset num_of_blocks
        (vma_after vma not_fetched)
        (handle_cross_page env.buff second_page.bytes first_page.bytes end_offset stats)

  after_first_ends :
      (s : OpState) (first_page : ZonePage) (vma : Option VmArea) (e : PageEnd)
      → is_settled false e ≡ true
      → is_ended (after_first env s first_page vma e).1 ≡ true
  unfolding after_first is_settled is_ended
  after_first_ends s first_page vma (not_code start_offset stats) h = refl
  after_first_ends s first_page vma (ends_at e cut stats) h = refl
  after_first_ends s first_page vma (goes_on e cut blocks stats) h =
      search_second_ends first_page e blocks vma stats
        (lookup_page env (mark_cross env s first_page.address cut) (first_page.address + 4096))
  after_first_ends s first_page vma endless h = cc

  search_first_ends :
      (address : ℕ) (found : OpState × Lookup) → is_ended (search_first env address found).1 ≡ true
  unfolding search_first is_ended
  search_first_ends address (s, unmapped_page) = refl
  search_first_ends address (s, missing_page vma) = refl
  search_first_ends address (s, page_at info not_fetched) =
      let first_page = zone_page s info (page_mask address) not_fetched in
      after_first_ends s first_page not_fetched
        (search_page env info first_page.bytes false first_page.address (address % 4096) 0 no_stats)
        (search_page_settled info first_page.bytes false first_page.address (address % 4096) 0
          no_stats)

  -- If the bytes of each page_info lie below 2 ^ 64, the search for the end of a zone ends with one
  -- of the outcomes of the source, whatever the state and the address are: 4097 blocks in a page and
  -- two pages are enough.
  pub search_zone-ends : (s : OpState) (address : ℕ) → is_ended (search_zone env s address).1 ≡ true
  unfolding search_zone
  search_zone-ends s address = search_first_ends address (lookup_page env s (page_mask address))
