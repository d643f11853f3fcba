-- ===== src/Tests/Runs.antt =====
-- Runs of `disassemble_code` and `find_ret` on short stretches of code.
use flow_scanner.Prelude.{ℕ, ◌≡◌, refl, Option, some, none, ok}
use flow_scanner.Prelude.Int.{ℤ, pos}
use flow_scanner.InvalidOp.{memory_at}
use flow_scanner.Tests.Zones.{
  page, branch, branch_found, no_stats, moffs, function, nop_insn, ret_insn,
}
use flow_scanner.Disassemble.{
  Disassembly, count_insn, count_found, found_value, after_insn, round_of, disassemble_loop,
  disassemble_code,
}
use flow_scanner.Decoder.Classify.{
  one_byte_type, two_byte_type, three_byte_38_type, three_byte_3a_type, one_byte_dsize,
  one_byte_msize, two_byte_dsize, test_dsize, ext_80_81_83, ext_f6_f7, ext_ff, ext_type,
}
use flow_scanner.Decoder.Insn.{insn_of, check_insn, decode_insn}
use flow_scanner.Decoder.Opcode.{
  check_cross_page, two_byte_opcode, op_38, op_3a, three_byte_38, three_byte_3a, second_byte,
  multibyte_opcode, test_operand, one_byte_opcode, opcode, decode_opcode,
}
use flow_scanner.Decoder.Operand.{
  sib_disp, sib_byte, addressing, mod_rm, mod_rm_byte, rex_w_sizes, decode_operands,
}
use flow_scanner.Decoder.Prefix.{
  byte, no_prefixes, evex_prefix, vex_prefix, prefix_test, prefix_step, skip_prefix, scan_round,
  scan_prefixes,
}
use flow_scanner.Decoder.Vex.{
  vex_2_opcode, vex_0f38_opcode, vex_0f3a_opcode, vex_0f_opcode, vex_opcode, evex_0f38_opcode,
  evex_0f_opcode, evex_0f3a_opcode, evex_opcode,
}
use flow_scanner.FindRet.{ret_round, find_ret_loop, find_ret}
use flow_scanner.FindRet.Decode.{
  scan_round_unchecked, scan_prefixes_unchecked, one_byte_function_type, two_byte_function_type,
  two_byte_opcode_unchecked, second_byte_unchecked, one_byte_opcode_unchecked, opcode_unchecked,
  sib_byte_unchecked, addressing_unchecked, mod_rm_unchecked, mod_rm_byte_unchecked,
  decode_operands_unchecked, decode_insn_unchecked,
}
use flow_scanner.Instruction.{modrm_mod, modrm_reg_opcode, modrm_r_m, sib_base}
use flow_scanner.Tables.Evex.{
  evex_0f3a_t, evex_0f38_t, evex_0f_t, op_code_ext_t, check_evex_0f3a, check_evex_0f38,
  check_evex_0f, check_op_code_ext,
}
use flow_scanner.Tables.Mask.{check_table}
use flow_scanner.Tables.OneByte.{
  modrm_t, data1_t, data2_t, data66_t, one_byte_ud_t, check_modrm, check_data1, check_data2,
  check_data66, check_one_byte_ud,
}
use flow_scanner.Tables.OneByteType.{
  one_byte_arith_t, one_byte_jcc_t, one_byte_jmp_t, one_byte_ret_t, one_byte_call_t,
  one_byte_control_t, one_byte_logical_t, one_byte_memory_t, one_byte_system_t,
  check_one_byte_arith, check_one_byte_jcc, check_one_byte_jmp, check_one_byte_ret,
  check_one_byte_call, check_one_byte_control, check_one_byte_logical, check_one_byte_memory,
  check_one_byte_system,
}
use flow_scanner.Tables.Prefix.{prefix_t, check_prefix}
use flow_scanner.Tables.Tests.{
  check_vex_2, check_vex_3, check_evex, check_rex, check_rexw, check_prefix_66, check_prefix_67,
  check_0f, check_38, check_3a, check_imm64, check_off64, check_test, check_mem67, check_data66_2,
  check_vex_0f3a_no_imm8, check_vex_0f38_imm8, check_vex_0f_imm8, check_m_mmmm_field,
  check_evex_0f_imm8, check_mm_field, vex_no_modrm, check_80_81_83, check_f6_f7, check_ff,
}
use flow_scanner.Tables.ThreeByte.{
  modrm38_t, three_byte_038_ud_t, three_byte_038_arithmetic_t, three_byte_038_memory_t,
  three_byte_038_control_t, modrm3a_t, three_byte_03a_ud_t, three_byte_03a_arithmetic_t,
  three_byte_03a_memory_t, check_modrm38, check_three_byte_038_ud, check_three_byte_038_arithmetic,
  check_three_byte_038_memory, check_three_byte_038_control, check_modrm3a, check_three_byte_03a_ud,
  check_three_byte_03a_arithmetic, check_three_byte_03a_memory,
}
use flow_scanner.Tables.TwoByte.{
  modrm2_t, data1_2, two_byte_ud_t, check_modrm2, check_data1_2, check_two_byte_ud,
}
use flow_scanner.Tables.TwoByteType.{
  two_byte_arithmetic_t, two_byte_jcc_t, two_byte_control_t, two_byte_logical_t, two_byte_memory_t,
  two_byte_system_t, check_two_byte_arithmetic, check_two_byte_jcc, check_two_byte_control,
  check_two_byte_logical, check_two_byte_memory, check_two_byte_system,
}
use flow_scanner.Tables.Vex.{
  vex_0f3a_t, vex_0f38_t, vex_0f_t, check_vex_0f3a, check_vex_0f38, check_vex_0f,
}

-- What is returned, and what `*end` is.
abbrev pub answer : Option Disassembly → Option (ℤ × ℕ)
answer (some d) = some (d.value, d.end)
answer none = none

pub record Runs : Type 0 where
  pub branch_run : disassemble_code branch 100 114 no_stats ≡ some branch_found
  -- the same zone, cut in the middle of the last instruction
  pub cut_run : answer (disassemble_code branch 100 111 no_stats) ≡ some (pos 0, 108)
  -- exactly two instructions
  pub full_run : answer (disassemble_code branch 100 108 no_stats) ≡ some (pos 0, 108)
  -- RET, found in the address of the move before it
  pub moffs_run : answer (disassemble_code moffs 100 110 no_stats) ≡ some (pos 9, 102)
  pub page_run : disassemble_code (memory_at 92 page) 100 114 no_stats ≡ some branch_found
  pub nop_run : decode_insn function 110 100 ≡ ok nop_insn
  pub ret_run : decode_insn function 110 101 ≡ ok ret_insn
  pub function_run : find_ret 10 function 100 ≡ some 101
  -- the zeros behind the branch are additions
  pub no_return_run : find_ret 10 branch 108 ≡ some 0

pub runs : Runs
unfolding memory_at one_byte_type two_byte_type three_byte_38_type three_byte_3a_type one_byte_dsize
    one_byte_msize two_byte_dsize test_dsize ext_80_81_83 ext_f6_f7 ext_ff ext_type insn_of
    check_insn decode_insn check_cross_page two_byte_opcode op_38 op_3a three_byte_38 three_byte_3a
    second_byte multibyte_opcode test_operand one_byte_opcode opcode decode_opcode sib_disp sib_byte
    addressing mod_rm mod_rm_byte rex_w_sizes decode_operands byte no_prefixes evex_prefix
    vex_prefix prefix_test prefix_step skip_prefix scan_round scan_prefixes vex_2_opcode
    vex_0f38_opcode vex_0f3a_opcode vex_0f_opcode vex_opcode evex_0f38_opcode evex_0f_opcode
    evex_0f3a_opcode evex_opcode count_insn count_found found_value after_insn round_of
    disassemble_loop disassemble_code ret_round find_ret_loop find_ret scan_round_unchecked
    scan_prefixes_unchecked one_byte_function_type two_byte_function_type two_byte_opcode_unchecked
    second_byte_unchecked one_byte_opcode_unchecked opcode_unchecked sib_byte_unchecked
    addressing_unchecked mod_rm_unchecked mod_rm_byte_unchecked decode_operands_unchecked
    decode_insn_unchecked modrm_mod modrm_reg_opcode modrm_r_m sib_base evex_0f3a_t evex_0f38_t
    evex_0f_t op_code_ext_t check_evex_0f3a check_evex_0f38 check_evex_0f check_op_code_ext
    check_table modrm_t data1_t data2_t data66_t one_byte_ud_t check_modrm check_data1 check_data2
    check_data66 check_one_byte_ud one_byte_arith_t one_byte_jcc_t one_byte_jmp_t one_byte_ret_t
    one_byte_call_t one_byte_control_t one_byte_logical_t one_byte_memory_t one_byte_system_t
    check_one_byte_arith check_one_byte_jcc check_one_byte_jmp check_one_byte_ret
    check_one_byte_call check_one_byte_control check_one_byte_logical check_one_byte_memory
    check_one_byte_system prefix_t check_prefix check_vex_2 check_vex_3 check_evex check_rex
    check_rexw check_prefix_66 check_prefix_67 check_0f check_38 check_3a check_imm64 check_off64
    check_test check_mem67 check_data66_2 check_vex_0f3a_no_imm8 check_vex_0f38_imm8
    check_vex_0f_imm8 check_m_mmmm_field check_evex_0f_imm8 check_mm_field vex_no_modrm
    check_80_81_83 check_f6_f7 check_ff modrm38_t three_byte_038_ud_t three_byte_038_arithmetic_t
    three_byte_038_memory_t three_byte_038_control_t modrm3a_t three_byte_03a_ud_t
    three_byte_03a_arithmetic_t three_byte_03a_memory_t check_modrm38 check_three_byte_038_ud
    check_three_byte_038_arithmetic check_three_byte_038_memory check_three_byte_038_control
    check_modrm3a check_three_byte_03a_ud check_three_byte_03a_arithmetic
    check_three_byte_03a_memory modrm2_t data1_2 two_byte_ud_t check_modrm2 check_data1_2
    check_two_byte_ud two_byte_arithmetic_t two_byte_jcc_t two_byte_control_t two_byte_logical_t
    two_byte_memory_t two_byte_system_t check_two_byte_arithmetic check_two_byte_jcc
    check_two_byte_control check_two_byte_logical check_two_byte_memory check_two_byte_system
    vex_0f3a_t vex_0f38_t vex_0f_t check_vex_0f3a check_vex_0f38 check_vex_0f
runs = record {
  branch_run = refl;
  cut_run = refl;
  full_run = refl;
  moffs_run = refl;
  page_run = refl;
  nop_run = refl;
  ret_run = refl;
  function_run = refl;
  no_return_run = refl;
}
