-- ===== src/Tests/Zones.antt =====
-- Some zones of machine code.
use flow_scanner.Prelude.{◌+◌, ltb, true, ◌==◌, if◌then◌else◌, false, ℕ, ◌-◌, List, [], ◌∷◌, get_or}
use flow_scanner.Prelude.Int.{pos}
use flow_scanner.Writers.{Data}
use flow_scanner.Checks.Registry.{CheckFunctionNode}
use flow_scanner.Decoder.Insn.{Insn}
use flow_scanner.Instruction.{other, ret}
use flow_scanner.Decoder.Prefix.{Memory}
use flow_scanner.Disassemble.{Stats, Disassembly, disassembly}

-- The bytes `bytes` from the address 100 on.
abbrev pub at_100 : List ℕ → Memory
at_100 bytes a = get_or bytes (a - 100) 0

abbrev pub no_stats : Stats
no_stats = record {
  num_of_control_instructions = 0;
  num_of_arithmetic_instructions = 0;
  num_of_logical_instructions = 0;
  num_of_data_transfer_instructions = 0;
  num_of_system_instructions = 0;
  num_of_miscellaneous_instructions = 0;
  num_of_vex_or_evex_instructions = 0;
}

-- mov %rsp,%rbp; mov 0x8(%rsp),%rax; je
abbrev pub branch : Memory
branch =
    at_100
      (0x48 ∷ 0x89 ∷ 0xe5 ∷ 0x48 ∷ 0x8b ∷ 0x44 ∷ 0x24 ∷ 0x08 ∷ 0x0f ∷ 0x84 ∷ 1 ∷ 2 ∷ 3 ∷ 4 ∷ [])

abbrev pub branch_found : Disassembly
branch_found =
    disassembly (pos 17) 114
      (record no_stats { num_of_control_instructions = 1; num_of_data_transfer_instructions = 2 })

-- The same code from the offset 8 of a page on, and what copy_from_user reads of the page behind it,
-- when the bytes behind the branch are open.
abbrev pub page : Data
page o = branch (92 + o)

abbrev pub closed_code : Data
closed_code o = if ltb o 14 then 14 else 0

-- movabs 0xc3,%eax
abbrev pub moffs : Memory
moffs = at_100 (0xa1 ∷ 0xc3 ∷ 0 ∷ 0 ∷ 0 ∷ 0 ∷ 0 ∷ 0 ∷ 0 ∷ [])

-- nop; repz ret
abbrev pub function : Memory
function = at_100 (0x90 ∷ 0xf3 ∷ 0xc3 ∷ [])

abbrev pub nop_insn : Insn
nop_insn = record {
  cur = 101;
  first_op = 100;
  num_prefixes = 0;
  vector = false;
  instruction_type = other;
}

abbrev pub ret_insn : Insn
ret_insn = record {
  cur = 103;
  first_op = 102;
  num_prefixes = 1;
  vector = false;
  instruction_type = ret;
}

-- nop, then the signature that is looked for, then two bytes more
abbrev pub infected : Memory
infected = at_100 (
    0x90 ∷ 0x57 ∷ 0x6a ∷ 0x23 ∷ 0x58 ∷ 0x6a ∷ 0x00 ∷ 0x6a ∷ 0x05 ∷ 0x48 ∷ 0x89 ∷ 0xe7 ∷ 0x90 ∷ 0x90
    ∷ [])

-- A check function that finds something, at address 7, and one that does not.
abbrev pub results : ℕ → ℕ
results check = if check == 7 then 0 else 1

abbrev pub two_checks : List CheckFunctionNode
two_checks = record { check = 7; active = true } ∷ record { check = 8; active = true } ∷ []
