-- ===== src/InvalidOp.antt =====
-- The handler of an invalid opcode, invalid_op_handler of libs/fprobes/fprober_invalid_op.c, which
-- opens the zone behind the address of the trap. This file has what it works on and the two
-- functions that read bytes: handle_cross_page and find_first_invalid_opcode_byte.
use flow_scanner.Prelude.{
  sub64, ℕ, zero, suc, ◌+◌, ◌-◌, ◌*◌, ◌/◌, ◌%◌, ◌^◌, ◌≤◌, ◌<◌, ◌≡◌, ◌≢◌, ◌↔◌, refl, sym, ap, ◌∙◌,
  Bool, true, false, arith, tests, ltb, leb, ◌==◌, ◌⊎◌, if◌then◌else◌, Bool-cases, inl, inr, ◌&&◌,
  ◌||◌, not, ==_iff, Option, some, none, List, [], ◌∷◌, ◌++◌, some_eq, Option-cases,
}
use flow_scanner.Prelude.Int.{ℤ, pos, negsuc}
use flow_scanner.Instruction.{max_instruction_size}
use flow_scanner.Decoder.Prefix.{Memory}
use flow_scanner.Disassemble.{Stats, Disassembly, disassembly, disassemble_error, disassemble_code}
use flow_scanner.Checks.Registry.{CheckFunctionNode, CheckMode}
use flow_scanner.Paging.Walk.{PageTables}
use flow_scanner.Paging.Flip.{VmArea}
use flow_scanner.Writers.{Data, Pages, Kernel, invalid_one_byte_opcode}
use flow_scanner.PageRegistry.{Registry}
use flow_scanner.UserLimits.{UserHashNode}
use flow_scanner.CrossPages.{CrossNode}
use flow_scanner.ZoneTable.{ZoneTable, Task, Allocations}
use flow_scanner.Faults.{Process, Surroundings}
pub mod Fetch
pub mod Blocks
pub mod Search
pub mod Handler
pub mod Settled
pub mod Ends
pub mod Checked
pub mod Opening
pub mod Opens
pub mod Allowed

-- What the handler changes.
pub record OpState : Type 0 where
  pub registry : Registry
  pub tables : PageTables
  pub memory : Pages
  pub cross : List CrossNode
  pub zones : ZoneTable
  pub users : List UserHashNode

-- What it finds outside: the process and the kernel's answers. `data_address` is where the bytes of
-- a page_info lie, `buff` the address that kmalloc gives for an instruction, `user_page` and
-- `user_bytes` what copy_from_user reads, `restored` what
-- the copy of restore_page does to the page, `results` what the check functions answer for a zone.
pub record Environment : Type 0 where
  pub task : Task
  pub process : Process
  pub bucket_of : ℕ → ℕ
  pub allocations : Allocations
  pub shared_allocated : Bool
  pub uninitialised : ℕ
  pub data_address : ℕ → ℕ
  pub buff : Option ℕ
  pub kmalloc : Bool
  pub materialise : (page_addr : ℕ) → PageTables → PageTables
  pub user_page : (page_addr : ℕ) → Option Data
  pub user_bytes : (address : ℕ) → Option Data
  pub find_vma : (page_addr : ℕ) → Option VmArea
  pub is_cow_mapping : VmArea → Bool
  pub writer : Kernel
  pub written : Bool
  pub restored : (page_addr : ℕ) → Data → Pages → Pages
  pub around : Surroundings
  pub mode : CheckMode
  pub check_functions : List CheckFunctionNode
  pub results : Data → (start end : ℕ) → ℕ → ℕ
  pub num_of_contiguous_block : ℕ

-- Bytes at an address.
unfoldable pub memory_at : (base : ℕ) → Data → Memory
memory_at base bytes address = bytes (address - base)

-- The disassembler's answer. It always has one: the case `none` of the model never happens.
unfoldable pub answer_of : Option Disassembly → (end : ℕ) → Stats → Disassembly
answer_of (some d) end stats = d
answer_of none end stats = disassembly disassemble_error end stats

-- The end of the previous page and the start of the next one, in one buffer.
unfoldable pub cross_bytes : (next_page prev_page : Data) → (start_instr_byte_offset : ℕ) → Data
cross_bytes next_page prev_page start_instr_byte_offset o =
    let bytes_to_copy = 4096 - start_instr_byte_offset in
    if ltb o bytes_to_copy
    then prev_page (start_instr_byte_offset + o)
    else next_page (o - bytes_to_copy)

unfoldable pub is_error : ℤ → Bool
is_error (pos n) = false
is_error (negsuc n) = true

-- The offset in the next page behind the instructions of the buffer, none for a failure.
unfoldable pub cross_offset : (buff bytes_to_copy : ℕ) → Disassembly → Option ℕ
cross_offset buff bytes_to_copy d =
    if is_error d.value || leb d.end buff
    then none
    else some (sub64 (sub64 d.end buff) bytes_to_copy)

unfoldable pub handle_cross_page :
    (buff : Option ℕ)
    → (next_page prev_page : Data) → (start_instr_byte_offset : ℕ) → Stats
    → Option ℕ × Stats
handle_cross_page none next_page prev_page start_instr_byte_offset stats = (none, stats)
handle_cross_page (some buff) next_page prev_page start_instr_byte_offset stats =
    let end = buff + max_instruction_size in
    let bytes = cross_bytes next_page prev_page start_instr_byte_offset in
    let d = answer_of (disassemble_code (memory_at buff bytes) buff end stats) end stats in
    if ltb 4096 start_instr_byte_offset
    then (none, stats)
    else (cross_offset buff (4096 - start_instr_byte_offset) d, d.stats)

-- The first of the `length` offsets from `i` on with another byte than 0E.
unfoldable pub first_opened : (length i : ℕ) → Data → Option ℕ
first_opened zero i bytes = none
first_opened (suc length) i bytes =
    let rest = first_opened length (i + 1) bytes in
    if bytes i == invalid_one_byte_opcode then rest else some i

-- An offset from the start on, as an offset in the page. A zone that starts at an opened byte is not
-- looked at.
unfoldable pub in_page : (start_offset : ℕ) → Option ℕ → Option ℕ
in_page start_offset none = none
in_page start_offset (some i) = if i == 0 then none else some (start_offset + i)

-- `copied` is what copy_from_user reads from `start` on, none if it or kmalloc fails. The answer
-- none is PAGE_END.
unfoldable pub find_first_invalid_opcode_byte : (copied : Option Data) → (start : ℕ) → Option ℕ
find_first_invalid_opcode_byte none start = none
find_first_invalid_opcode_byte (some bytes) start =
    in_page (start % 4096) (first_opened (4096 - start % 4096) 0 bytes)
