-- ===== src/Disassemble.antt =====
-- `disassemble_code` of libs/zone.c: the loop over the instructions of a zone, and its counters.
pub mod Block
pub mod Bounds
pub mod Locality
pub mod Counters
use flow_scanner.Prelude.{
  ℕ, zero, suc, ◌+◌, ◌%◌, Bool, ◌||◌, leb, ltb, ◌==◌, if◌then◌else◌, Option, none, some, add64,
  sub64, Flow, ok, cross_page, error, stuck,
}
use flow_scanner.Prelude.Int.{ℤ, pos, negsuc}
use flow_scanner.Instruction.{
  InstructionType, no_type, arithmetic, jcc, jmp, ret, call, control, not_valid, ud, logical,
  memory, system, other, evex, vex,
}
use flow_scanner.Decoder.Prefix.{Memory}
use flow_scanner.Decoder.Insn.{Insn, decode_insn}

-- struct stats of libs/zone.h; every counter is a `uint8_t`.
pub record Stats : Type 0 where
  pub num_of_control_instructions : ℕ
  pub num_of_arithmetic_instructions : ℕ
  pub num_of_logical_instructions : ℕ
  pub num_of_data_transfer_instructions : ℕ
  pub num_of_system_instructions : ℕ
  pub num_of_miscellaneous_instructions : ℕ
  pub num_of_vex_or_evex_instructions : ℕ

-- `++` on a `uint8_t`.
abbrev pub inc8 : ℕ → ℕ
inc8 n = (n + 1) % 256

-- The counter of an instruction that does not end the zone, by its type and by whether it has a VEX or an EVEX prefix.
unfoldable pub count_insn : InstructionType → Bool → Stats → Stats
count_insn arithmetic vector s = record s {
  num_of_arithmetic_instructions = inc8 s.num_of_arithmetic_instructions;
}
count_insn control vector s = record s {
  num_of_control_instructions = inc8 s.num_of_control_instructions;
}
count_insn logical vector s = record s {
  num_of_logical_instructions = inc8 s.num_of_logical_instructions;
}
count_insn memory vector s = record s {
  num_of_data_transfer_instructions = inc8 s.num_of_data_transfer_instructions;
}
count_insn system vector s = record s {
  num_of_system_instructions = inc8 s.num_of_system_instructions;
}
count_insn other vector s = record s {
  num_of_miscellaneous_instructions = inc8 s.num_of_miscellaneous_instructions;
}
count_insn _ vector s =
    if vector
    then record s { num_of_vex_or_evex_instructions = inc8 s.num_of_vex_or_evex_instructions }
    else s

-- The counter of the instruction that ends the zone, under the label `found_exit`.
unfoldable pub count_found : Stats → Stats
count_found s = record s { num_of_control_instructions = inc8 s.num_of_control_instructions }

-- Whether the type makes the loop leave for `found_exit`, and the value returned there:
-- DISASSEMBLE_SUCCESS (1) with JCC_SUCCESS (16), JMP_SUCCESS (4), CALL_SUCCESS (2) or RET_SUCCESS (8).
unfoldable pub found_value : InstructionType → Option ℕ
found_value jcc = some 17
found_value jmp = some 5
found_value call = some 3
found_value ret = some 9
found_value _ = none

-- What the function returns, the value that it leaves in `*end`, and the counters.
pub record Disassembly : Type 0 where
  pub value : ℤ
  pub end : ℕ
  pub stats : Stats

abbrev pub disassembly : ℤ → ℕ → Stats → Disassembly
disassembly v e s = record { value = v; end = e; stats = s }

abbrev pub disassemble_error : ℤ
disassemble_error = negsuc 0

abbrev pub disassemble_continue : ℤ
disassemble_continue = pos 0

-- What a round of the loop comes to: it leaves the function, or it goes on behind the instruction.
-- `lost` is no outcome of the source: the model's scan of the prefixes ran out of fuel.
pub data Round : Type 0 where
  leave : Disassembly → Round
  again : ℕ → Stats → Round
  lost : Round

-- An instruction that ends exactly at the limit ends the zone too.
unfoldable pub after_insn : ℕ → Insn → Stats → Option ℕ → Round
after_insn limit i s (some v) = leave (disassembly (pos v) i.cur (count_found s))
after_insn limit i s none =
    let s' = count_insn i.instruction_type i.vector s in
    if i.cur == limit then leave (disassembly disassemble_continue i.cur s') else again i.cur s'

unfoldable pub round_of : ℕ → ℕ → ℕ → Stats → Flow Insn → Round
unfolding after_insn
round_of end limit cur s (ok i) = after_insn limit i s (found_value i.instruction_type)
round_of end limit cur s cross_page = leave (disassembly disassemble_continue cur s)
round_of end limit cur s error = leave (disassembly disassemble_error end s)
round_of end limit cur s stuck = lost

abbrev pub resume : (ℕ → Stats → Option Disassembly) → Round → Option Disassembly
resume rest (leave d) = some d
resume rest (again cur s) = rest cur s
resume rest lost = none

-- `cur` is where the round starts; it is also `aux`, the byte behind the latest instruction.
-- `none` is no outcome of the source: the model's loop ran out of fuel.
unfoldable pub disassemble_loop : ℕ → Memory → ℕ → ℕ → ℕ → Stats → Option Disassembly
disassemble_loop zero mem end limit cur s = none
disassemble_loop (suc fuel) mem end limit cur s =
    let rest = disassemble_loop fuel mem end limit in
    if ltb cur limit
    then resume rest (round_of end limit cur s (decode_insn mem limit cur))
    else some (disassembly disassemble_continue cur s)

-- The whole function. A round takes a byte at least, so `size` rounds and one test are enough.
unfoldable pub disassemble_code : Memory → ℕ → ℕ → Stats → Option Disassembly
disassemble_code mem start end s =
    if start == 0 || end == 0
    then some (disassembly disassemble_error end s)
    else if leb end start
    then some (disassembly disassemble_error end s)
    else let size = sub64 end start in
      disassemble_loop (suc size) mem end (add64 start size) start s
