-- ===== src/InvalidOp/Blocks.antt =====
-- The loop of invalid_op_handler of libs/fprobes/fprober_invalid_op.c that looks for the end of the
-- zone: the blocks of a page.
use flow_scanner.Prelude.{
  ℕ, zero, suc, ◌+◌, ◌-◌, ◌%◌, Bool, false, ◌==◌, if◌then◌else◌, not, Option, some, none,
}
use flow_scanner.Prelude.Int.{ℤ, pos, negsuc}
use flow_scanner.Disassemble.{Stats, Disassembly, disassemble_code}
use flow_scanner.Writers.{Data}
use flow_scanner.InvalidOp.{
  Environment, memory_at, answer_of, is_error, find_first_invalid_opcode_byte,
}

-- How the search in a page ends: the disassembler fails at the block at `start_offset`; the zone ends in the page; it goes on in
-- the next page, with the number of blocks so far. `cut` is whether an instruction crosses the end
-- of the page. `endless` is no outcome of the source: the model's loop ran out of fuel.
pub data PageEnd : Type 0 where
  not_code : (start_offset : ℕ) → Stats → PageEnd
  ends_at : (end_offset : ℕ) → (cut : Bool) → Stats → PageEnd
  goes_on : (end_offset : ℕ) → (cut : Bool) → (num_of_blocks : ℕ) → Stats → PageEnd
  endless : PageEnd

unfoldable pub is_zero : ℤ → Bool
is_zero (pos n) = n == 0
is_zero (negsuc n) = false

-- What is done with an answer of the disassembler; `again` is the jump to find_another_block.
unfoldable pub no_exit :
    (next_zone : Option ℕ) → (last_page : Bool) → (end_offset num_of_blocks : ℕ) → Stats → PageEnd
no_exit (some next_zone) last_page end_offset num_of_blocks stats = ends_at next_zone false stats
no_exit none last_page end_offset num_of_blocks stats =
    let cut = not (end_offset % 4096 == 0) in
    if last_page then ends_at end_offset cut stats else goes_on end_offset cut num_of_blocks stats

unfoldable pub joins : (next_zone : Option ℕ) → (end_offset : ℕ) → Bool
joins none end_offset = false
joins (some next_zone) end_offset = next_zone == end_offset

unfoldable pub found_exit :
    (next_zone : Option ℕ)
    → (last_page : Bool) → (limit end_offset num_of_blocks : ℕ) → Stats
    → (again : PageEnd) → PageEnd
found_exit next_zone last_page limit end_offset num_of_blocks stats again =
    if last_page
    then ends_at end_offset false stats
    else (if num_of_blocks == limit
        then ends_at end_offset false stats
        else (if end_offset == 4096
            then goes_on end_offset false num_of_blocks stats
            else (if joins next_zone end_offset then ends_at end_offset false stats else again)))

-- `limit` is num_of_contiguous_block.
unfoldable pub after_block :
    (next_zone : Option ℕ)
    → (last_page : Bool) → (limit base start_offset num_of_blocks : ℕ) → Disassembly
    → (again : PageEnd) → PageEnd
after_block next_zone last_page limit base start_offset num_of_blocks d again =
    if is_error d.value
    then not_code start_offset d.stats
    else (if is_zero d.value
        then no_exit next_zone last_page (d.end - base) num_of_blocks d.stats
        else found_exit next_zone last_page limit (d.end - base) (num_of_blocks + 1) d.stats again)

unfoldable pub limit_of : (next_zone : Option ℕ) → ℕ
limit_of none = 4096
limit_of (some next_zone) = next_zone

-- `base` is the address of the bytes of the page.
unfoldable pub search_blocks :
    (fuel base : ℕ)
    → Data
    → (next_zone : Option ℕ) → (last_page : Bool) → (limit start_offset num_of_blocks : ℕ) → Stats
    → PageEnd
search_blocks zero base bytes next_zone last_page limit start_offset num_of_blocks stats = endless
search_blocks (suc fuel) base bytes next_zone last_page limit start_offset num_of_blocks stats =
    let start = base + start_offset in
    let end = base + limit_of next_zone in
    let d = answer_of (disassemble_code (memory_at base bytes) start end stats) end stats in
    let again =
      search_blocks fuel base bytes next_zone last_page limit (d.end - base) (num_of_blocks + 1)
        d.stats in
    after_block next_zone last_page limit base start_offset num_of_blocks d again

-- A block has a byte at least.
abbrev pub enough_blocks : ℕ
enough_blocks = 4097

unfoldable pub search_page :
    Environment
    → (info : ℕ) → Data
    → (last_page : Bool) → (page_addr start_offset num_of_blocks : ℕ) → Stats
    → PageEnd
search_page env info bytes last_page page_addr start_offset num_of_blocks stats =
    let start = page_addr + start_offset in
    search_blocks enough_blocks (env.data_address info) bytes
      (find_first_invalid_opcode_byte (env.user_bytes start) start) last_page
      env.num_of_contiguous_block start_offset num_of_blocks stats
