-- ===== src/InvalidOp/Opens.antt =====
-- invalid_op_handler of libs/fprobes/fprober_invalid_op.c at a page that is registered: the block
-- behind the trap becomes the bytes of the master copy.

use flow_scanner.Prelude.{
  ℕ, ◌+◌, ◌-◌, ◌*◌, ◌/◌, ◌%◌, ◌≤◌, ◌<◌, ◌≡◌, refl, ap, ◌∙◌, true, false, arith, ltb, leb, ◌==◌,
  if◌then◌else◌, Bool-cases, inl, inr, ◌&&◌, not, Option, some, none, sub64,
}
use flow_scanner.Prelude.Int.{pos}
use flow_scanner.Writers.Copies.{zone_byte, Spans}
use flow_scanner.Disassemble.{Stats}
use flow_scanner.Writers.{Data, copy_zone}
use flow_scanner.InvalidOp.{OpState, Environment}
use flow_scanner.PageRegistry.{page_mask}
use flow_scanner.Writers.Zone.{copied_at}
use flow_scanner.Writers.Close.{restored}
use flow_scanner.InvalidOp.Search.{zone_page, mark_cross, is_some}
use flow_scanner.InvalidOp.Settled.{limit_short}
use flow_scanner.InvalidOp.Handler.{
  opened, zone_data, zone_end, charged, recorded, leave, open_zone, open_found, zone_restored,
  invalid_op_handler, allow_pages, allow_page,
}
use flow_scanner.Writers.Fill.{restore_zone_bytes}
use flow_scanner.InvalidOp.Opening.{
  master_copy, zone_bytes, user_end, Opening, end_between, opening_search,
}

-- The bytes from the offset of the address on, in the page.
master_byte :
    (bytes : Data) (address end i before : ℕ)
    → zone_byte (λ k. bytes (address % 4096 + k)) address end 0 i before ≡ (
        if leb address (page_mask address + i) && ltb (page_mask address + i) end
        then bytes i
        else before)
master_byte bytes address end i before =
    let place : address / 4096 * 4096 + 0 * 4096 + i ≡ page_mask address + i = omega arith in
    rw place
      (elim (Bool-cases (leb address (page_mask address + i) && ltb (page_mask address + i) end)) [
        | inl e ↦
            let from : address ≤ page_mask address + i = ground arith in
            let same : address % 4096 + (page_mask address + i - address) ≡ i = omega arith in
            rw (e, same) refl
        | inr e ↦ rw e refl
      ])

module _ (env : Environment) (s : OpState) (address info v e : ℕ) (stats : Stats)
    (pages : ℕ → Option ℕ) (frame : ℕ → ℕ)
    (o : Opening env s address info v e stats pages frame) where
  zone_start : address < user_end env address info e
  zone_start =
      let (more, most) = end_between env s address info v e stats pages frame o in omega arith

  zone_Spans : Spans address (user_end env address info e) 1
  zone_Spans =
      let (more, most) = end_between env s address info v e stats pages frame o in
      let start = page_mask address + address % 4096 in
      let low = limit_short (env.user_bytes start) start in
      record { nonempty = zone_start; last = omega arith; at_most_two = omega arith }

  zone_restore :
      restore_zone_bytes env.writer s.memory
        (some (zone_bytes s address info))
        address
        (user_end env address info e)
        1
      ≡ (
        record {
          frames =
              copy_zone s.memory.frames pages
                (zone_bytes s address info)
                address
                (user_end env address info e)
                1;
          pins = s.memory.pins;
        },
        pos 0,
      )
  zone_restore =
      let same : address % 4096 + 0 ≡ address % 4096 = omega arith in
      restored env.writer s.memory (zone_bytes s address info) address (user_end env address info e)
        1 pages frame o.writable zone_Spans o.nonzero s.memory (rw same o.opcode)

  -- The state behind: the zone is recorded, the user charged, the page written.
  opening_state : OpState
  opening_state =
      let paid = (charged env s (user_end env address info e - address)).0 in
      let made =
        recorded env paid (zone_bytes s address info) address (user_end env address info e) 1 true
          (some stats) in
      record made {
        memory = record {
          frames =
              copy_zone s.memory.frames pages (zone_bytes s address info) address
                (user_end env address info e) 1;
          pins = s.memory.pins;
        };
      }

  opening_zone :
      open_zone env none
        (zone_page s info (page_mask address) none)
        none
        address
        (user_end env address info e)
        1
        stats
        s
      ≡ (opening_state, opened address (user_end env address info e))
  unfolding open_zone zone_end charged recorded zone_restored leave allow_pages allow_page zone_page
      zone_data is_some opening_state
  opening_zone =
      let start_before = zone_start in
      let (more, most) = end_between env s address info v e stats pages frame o in
      let low =
        limit_short (env.user_bytes (page_mask address + address % 4096))
          (page_mask address + address % 4096) in
      let size : sub64 (user_end env address info e) address
          ≡ user_end env address info e - address =
        omega arith in
      let forward : ltb (user_end env address info e) address ≡ false = ground arith in
      let some_bytes : (user_end env address info e == address) ≡ false = ground arith in
      rw (size, forward, some_bytes, o.accepted, o.within, zone_restore) refl

  opening_outcome :
      invalid_op_handler env s 6 address 4
      ≡ (opening_state, opened address (user_end env address info e))
  unfolding invalid_op_handler open_found mark_cross
  opening_outcome =
      let start = o.nonzero in
      let not_zero : (address == 0) ≡ false = ground arith in
      let found = opening_search env s address info v e stats pages frame o in
      rw (not_zero, ap not o.hooked, found, invalid_op_handler) opening_zone

  -- If a hooked process traps at an address in a registered page whose master copy leads, from there,
  -- through a block of instructions to a transfer of control that ends in front of the next opened
  -- byte and of the end of the page, a zone has one block, the checks accept the bytes, the user stays
  -- within the limit, the kernel has the page, and the first byte is not 0E, then invalid_op_handler
  -- opens the zone from the address up to the end of that instruction: the bytes of the page in the
  -- zone become those of the master copy, each other byte and the page tables stay as they are.
  pub invalid_op_handler-opens :
      (i : ℕ)
      → i < 4096
      → ((invalid_op_handler env s 6 address 4).1 ≡ opened address (user_end env address info e))
        × ((invalid_op_handler env s 6 address 4).0.tables ≡ s.tables)
        × ((invalid_op_handler env s 6 address 4).0.memory.frames (frame 0) i ≡ (
            if leb address (page_mask address + i)
              && ltb (page_mask address + i) (user_end env address info e)
            then master_copy s info i
            else s.memory.frames (frame 0) i))
  unfolding opening_state recorded charged
  invalid_op_handler-opens i inside =
      let done = opening_outcome in
      let bytes =
        copied_at o.writable.mapped s.memory.frames (zone_bytes s address info) address
          (user_end env address info e) 0 i zone_Spans (omega arith) inside in
      rw done (
        refl,
        refl,
        bytes
            ∙ master_byte (master_copy s info) address (user_end env address info e) i
                (s.memory.frames (frame 0) i),
      )
