-- ===== src/Decoder/Classify.antt =====
-- The chains of tests in `disassemble_code` of libs/zone.c that give an opcode its type and the size
-- of its immediate operand.
use flow_scanner.Prelude.{ℕ, ◌+◌, ◌%◌, ◌==◌, ◌||◌, if◌then◌else◌}
use flow_scanner.Tables.OneByte.{check_data1, check_data2, check_data66}
use flow_scanner.Tables.OneByteType.{
  check_one_byte_arith, check_one_byte_jcc, check_one_byte_jmp, check_one_byte_ret,
  check_one_byte_call, check_one_byte_control, check_one_byte_logical, check_one_byte_memory,
  check_one_byte_system,
}
use flow_scanner.Tables.TwoByte.{check_data1_2}
use flow_scanner.Tables.TwoByteType.{
  check_two_byte_arithmetic, check_two_byte_jcc, check_two_byte_control, check_two_byte_logical,
  check_two_byte_memory, check_two_byte_system,
}
use flow_scanner.Tables.ThreeByte.{
  check_three_byte_038_arithmetic, check_three_byte_038_memory, check_three_byte_038_control,
  check_three_byte_03a_arithmetic, check_three_byte_03a_memory,
}
use flow_scanner.Tables.Tests.{check_data66_2, check_mem67, check_80_81_83, check_f6_f7, check_ff}
use flow_scanner.Instruction.{
  InstructionType, arithmetic, jcc, jmp, ret, call, control, logical, memory, system, other,
  modrm_reg_opcode,
}

unfoldable pub one_byte_type : ℕ → InstructionType
one_byte_type op =
    if check_one_byte_arith op
    then arithmetic
    else if check_one_byte_control op
    then control
    else if check_one_byte_logical op
    then logical
    else if check_one_byte_memory op
    then memory
    else if check_one_byte_system op
    then system
    else if check_one_byte_jcc op
    then jcc
    else if check_one_byte_jmp op
    then jmp
    else if check_one_byte_call op
    then call
    else if check_one_byte_ret op
    then ret
    else other

unfoldable pub two_byte_type : ℕ → InstructionType
two_byte_type op =
    if check_two_byte_arithmetic op
    then arithmetic
    else if check_two_byte_control op
    then control
    else if check_two_byte_logical op
    then logical
    else if check_two_byte_memory op
    then memory
    else if check_two_byte_system op
    then system
    else if check_two_byte_jcc op
    then jcc
    else other

unfoldable pub three_byte_38_type : ℕ → InstructionType
three_byte_38_type op =
    if check_three_byte_038_arithmetic op
    then arithmetic
    else if check_three_byte_038_memory op
    then memory
    else if check_three_byte_038_control op
    then control
    else other

unfoldable pub three_byte_3a_type : ℕ → InstructionType
three_byte_3a_type op =
    if check_three_byte_03a_arithmetic op
    then arithmetic
    else if check_three_byte_03a_memory op
    then memory
    else other

-- The four additions to `dsize` and `msize` of a one-byte opcode.
unfoldable pub one_byte_dsize : ℕ → ℕ → ℕ
one_byte_dsize ddef op =
    (if check_data1 op then 1 else 0)
    + (if check_data2 op then 2 else 0)
    + (if check_data66 op then ddef else 0)

unfoldable pub one_byte_msize : ℕ → ℕ → ℕ
one_byte_msize mdef op = if check_mem67 op then mdef else 0

unfoldable pub two_byte_dsize : ℕ → ℕ → ℕ
two_byte_dsize ddef op =
    (if check_data1_2 op then 1 else 0) + (if check_data66_2 op then ddef else 0)

-- What `TEST` adds to `dsize`: `(op & 1) ? ddef : 1` under opcode extension 0.
unfoldable pub test_dsize : ℕ → ℕ → ℕ → ℕ
test_dsize ddef op modrm_byte =
    if modrm_reg_opcode modrm_byte == 0 then (if op % 2 == 1 then ddef else 1) else 0

-- The types that the opcode extension `r` refines; `t` is the type of the opcode alone.
unfoldable pub ext_80_81_83 : ℕ → InstructionType → InstructionType
ext_80_81_83 r t = if r == 1 || r == 4 || r == 6 then logical else if r == 7 then control else t

unfoldable pub ext_f6_f7 : ℕ → InstructionType → InstructionType
ext_f6_f7 r t =
    if r == 2 || r == 3
    then logical
    else if r == 4 || r == 5 || r == 6 || r == 7
    then arithmetic
    else t

unfoldable pub ext_ff : ℕ → InstructionType → InstructionType
ext_ff r t =
    if r == 2 || r == 3
    then call
    else if r == 4 || r == 5
    then jmp
    else if r == 6
    then memory
    else t

unfoldable pub ext_type : ℕ → ℕ → InstructionType → InstructionType
unfolding ext_80_81_83 ext_f6_f7 ext_ff
ext_type op r t =
    if check_80_81_83 op
    then ext_80_81_83 r t
    else if check_f6_f7 op
    then ext_f6_f7 r t
    else if check_ff op
    then ext_ff r t
    else t
