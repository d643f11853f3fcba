-- ===== src/Tests/Witnesses.antt =====
-- The theorems at concrete zones.

use flow_scanner.Prelude.{
  ◌+◌, Post, if◌then◌else◌, ltb, ◌==◌, arith, false, ℕ, Bool-cases, inl, inr, ◌%◌, ◌<◌, ◌≡◌, ◌↔◌,
  refl, ◌⊎◌, some, IsU64, ok, lt→ltb,
}
use flow_scanner.Instruction.{memory}
use flow_scanner.Decoder.Prefix.{Memory, byte}
use flow_scanner.FindRet.{find_ret}
use flow_scanner.FindRet.Decode.{decode_insn_unchecked}
use flow_scanner.FindRet.Alike.{SameInsn, decode_insn_unchecked-Follows}
use flow_scanner.FindRet.Opcode.{Follows}
use flow_scanner.FindRet.Path.{ReturnAt, find_ret-ReturnAt}
use flow_scanner.FindRet.Total.{ShortRuns, one_byte_prefix}
use flow_scanner.Tests.Zones.{function, nop_insn, ret_insn, branch, branch_found, no_stats, moffs}
use flow_scanner.Tables.Prefix.{check_prefix}
use flow_scanner.Tables.Tests.{check_rex}
use flow_scanner.Decoder.Classify.{two_byte_type}
use flow_scanner.Decoder.Insn.{Insn, decode_insn}
use flow_scanner.Decoder.Bounds.{Fits, decode_insn-Fits}
use flow_scanner.Decoder.Moffs.{moffs_not_consumed}
use flow_scanner.Decoder.Branches.{transfer_opcode_0f, refined_type, transfer, transfer_opcodes}
use flow_scanner.Disassemble.{
  Disassembly, disassembly, disassemble_error, found_value, disassemble_code,
}
use flow_scanner.Disassemble.Block.{Block, disassemble_code-Block, disassemble_code_total}
use flow_scanner.Disassemble.Bounds.{Answer, disassemble_code_bounds}
use flow_scanner.Disassemble.Locality.{disassemble_code_local}
use flow_scanner.Disassemble.Counters.{total, instructions, disassemble_code_counts}
use flow_scanner.Decoder.SameBytes.{Agree}
use flow_scanner.Tests.Runs.{runs}

-- `branch` with other bytes behind the zone
abbrev branch_nops : Memory
branch_nops a = if ltb a 114 then branch a else 0x90

branch_nops-Agree : Agree 100 114 branch branch_nops
branch_nops-Agree a h k = rw (lt→ltb a 114 k) refl

small : IsU64 114
small = omega arith

disassemble_code-Block_example :
    (disassemble_code branch 100 114 no_stats ≡ some branch_found)
    ↔ Block branch 114 114 100 no_stats branch_found
disassemble_code-Block_example =
    disassemble_code-Block branch 100 114 no_stats branch_found (omega arith) (omega arith) small

disassemble_code_total_example :
    (d : Disassembly) × (disassemble_code branch 100 114 no_stats ≡ some d)
disassemble_code_total_example = disassemble_code_total branch 100 114 no_stats small

disassemble_code_bounds_example :
    (branch_found ≡ disassembly disassemble_error 114 no_stats)
    ⊎ ((0 < 100) × (100 < 114) × Answer 100 114 114 branch_found)
disassemble_code_bounds_example =
    disassemble_code_bounds branch 100 114 no_stats branch_found small runs.branch_run

disassemble_code_local_example :
    disassemble_code branch 100 114 no_stats ≡ disassemble_code branch_nops 100 114 no_stats
disassemble_code_local_example =
    disassemble_code_local branch branch_nops 100 114 no_stats small branch_nops-Agree

disassemble_code_counts_example :
    total branch_found.stats % 256
    ≡ (total no_stats
        + instructions (
            (disassemble_code-Block branch 100 114 no_stats branch_found
                (omega arith)
                (omega arith)
                small).0
              runs.branch_run))
      % 256
disassemble_code_counts_example =
    disassemble_code_counts branch 100 114 no_stats branch_found (omega arith) (omega arith) small
      runs.branch_run

-- CALL through a register
transfer_opcodes_example :
    (found_value (refined_type 0xff 2) ≡ transfer 0xff 2)
    × (found_value (two_byte_type 0xff) ≡ transfer_opcode_0f 0xff)
transfer_opcodes_example = transfer_opcodes 0xff 2 (omega arith) (omega arith)

decode_insn-Fits_example : Post (Fits 100 114) (decode_insn branch 114 100)
decode_insn-Fits_example = decode_insn-Fits branch 114 100 (omega arith)

moffs_not_consumed_example :
    (i : Insn) × (decode_insn moffs 110 100 ≡ ok i) × (i.cur ≡ 101) × (i.instruction_type ≡ memory)
moffs_not_consumed_example =
    moffs_not_consumed moffs 110 100 (omega arith) (inl (unfold byte in refl))

decode_insn_unchecked-Follows_example :
    Follows SameInsn (decode_insn branch 114 100) (decode_insn_unchecked 14 branch 100)
decode_insn_unchecked-Follows_example =
    decode_insn_unchecked-Follows branch 114 14 100 (omega arith) (omega arith)

function-ReturnAt : ReturnAt function 110 100 1 101
function-ReturnAt =
    ReturnAt.step 100 nop_insn (omega arith) runs.nop_run refl
      (ReturnAt.found 101 ret_insn (omega arith) runs.ret_run refl)

find_ret-ReturnAt_example : find_ret 10 function 100 ≡ some (if ltb 1 1000 then 101 else 0)
find_ret-ReturnAt_example =
    find_ret-ReturnAt function 110 10 100 1 101 (omega arith) (omega arith) function-ReturnAt

-- nop everywhere, but for two prefixes at 100 and a return at 102
abbrev prefixed : Memory
prefixed a = if a == 100 then 0x48 else if a == 101 then 0x66 else if a == 102 then 0xc3 else 0x90

no_prefix_at :
    (a : ℕ) → (a == 100) ≡ false → (a == 101) ≡ false → one_byte_prefix (byte prefixed a) ≡ false
unfolding byte check_prefix check_rex
no_prefix_at a h k = elim (Bool-cases (a == 102)) [
  | inl e ↦ rw (h, k, e) refl
  | inr e ↦ rw (h, k, e) refl
]

prefixed-ShortRuns : ShortRuns 3 prefixed
prefixed-ShortRuns a = elim (Bool-cases (a == 100)) [
  | inl e ↦ (2, omega arith, no_prefix_at (a + 2) (ground arith) (ground arith))
  | inr e ↦ elim (Bool-cases (a == 101)) [
    | inl f ↦ (1, omega arith, no_prefix_at (a + 1) (ground arith) (ground arith))
    | inr f ↦ (0, omega arith, no_prefix_at (a + 0) (ground arith) (ground arith))
  ]
]
