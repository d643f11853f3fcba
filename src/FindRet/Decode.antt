-- ===== src/FindRet/Decode.antt =====
-- The decoder of one instruction in `find_ret` of libs/utils.c, lines 469 to 1023. It is the decoder
-- of `disassemble_code` without a limit: no byte is checked before it is read. It shares the tests
-- of single bytes and of tables, which the two functions write out alike.
use flow_scanner.Prelude.{
  ℕ, zero, suc, ◌+◌, Bool, true, false, ◌&&◌, ltb, ◌==◌, if◌then◌else◌, Flow, ok, error, stuck,
  ◌>>=◌,
}
use flow_scanner.Tables.OneByte.{check_modrm, check_one_byte_ud}
use flow_scanner.Tables.OneByteType.{
  check_one_byte_arith, check_one_byte_jcc, check_one_byte_jmp, check_one_byte_ret,
  check_one_byte_call, check_one_byte_control, check_one_byte_logical, check_one_byte_memory,
  check_one_byte_system,
}
use flow_scanner.Tables.TwoByte.{check_modrm2, check_two_byte_ud}
use flow_scanner.Tables.TwoByteType.{
  check_two_byte_arithmetic, check_two_byte_control, check_two_byte_logical, check_two_byte_memory,
  check_two_byte_system,
}
use flow_scanner.Tables.Tests.{check_0f, check_38, check_3a, check_test}
use flow_scanner.Instruction.{
  InstructionType, arithmetic, control, logical, memory, system, jcc, jmp, call, ret, other,
  byte_size, modrm_mod, modrm_reg_opcode, modrm_r_m, indirect, indirect_disp8, indirect_disp32,
  register, eip_disp32, sib,
}
use flow_scanner.Decoder.Prefix.{
  Memory, byte, Prefixes, PrefixStep, cont, skip_byte, prefix_step, skip_prefix, no_prefixes,
}
use flow_scanner.Decoder.Classify.{
  one_byte_dsize, one_byte_msize, two_byte_dsize, test_dsize, ext_type,
}
use flow_scanner.Decoder.Vex.{
  Operands, Route, route_of, vex_opcode, evex_opcode, check_mod_rm_byte, no_modrm_byte, next,
}
use flow_scanner.Decoder.Opcode.{op_38, op_3a}
use flow_scanner.Decoder.Operand.{disp32, has_extension, sib_disp, rex_w_sizes}
use flow_scanner.Decoder.Insn.{Insn, insn_of}

unfoldable pub scan_round_unchecked : (Prefixes → Flow Prefixes) → PrefixStep → Flow Prefixes
scan_round_unchecked rest (cont q) = ok q
scan_round_unchecked rest (skip_byte q) = rest (skip_prefix q)

-- The loop between the labels `found_prefixes` and `cont`. Nothing in the source bounds it.
unfoldable pub scan_prefixes_unchecked : ℕ → Memory → Prefixes → Flow Prefixes
scan_prefixes_unchecked zero mem p = stuck
scan_prefixes_unchecked (suc fuel) mem p =
    scan_round_unchecked (scan_prefixes_unchecked fuel mem) (prefix_step mem p)

-- The types are tested in another order than in `disassemble_code`, and no two-byte opcode is JCC.
unfoldable pub one_byte_function_type : ℕ → InstructionType
one_byte_function_type op =
    if check_one_byte_arith op
    then arithmetic
    else if check_one_byte_control op
    then control
    else if check_one_byte_logical op
    then logical
    else if check_one_byte_memory op
    then memory
    else if check_one_byte_system op
    then system
    else if check_one_byte_jcc op
    then jcc
    else if check_one_byte_jmp op
    then jmp
    else if check_one_byte_call op
    then call
    else if check_one_byte_ret op
    then ret
    else other

unfoldable pub two_byte_function_type : ℕ → InstructionType
two_byte_function_type op =
    if check_two_byte_arithmetic op
    then arithmetic
    else if check_two_byte_control op
    then control
    else if check_two_byte_logical op
    then logical
    else if check_two_byte_memory op
    then memory
    else if check_two_byte_system op
    then system
    else other

unfoldable pub two_byte_opcode_unchecked : ℕ → ℕ → ℕ → Flow (Route × Operands)
two_byte_opcode_unchecked ddef cur op =
    if check_two_byte_ud op
    then error
    else ok (
      route_of (check_modrm2 op),
      record {
        cur = cur;
        op = op;
        multibyte = true;
        dsize = two_byte_dsize ddef op;
        msize = 0;
        instruction_type = two_byte_function_type op;
      },
    )

-- `op` is the byte at `cur`, behind 0F.
unfoldable pub second_byte_unchecked : Memory → ℕ → ℕ → ℕ → Flow (Route × Operands)
second_byte_unchecked mem ddef cur op =
    if check_38 op
    then op_38 (cur + 1) (byte mem (cur + 1))
    else if check_3a op
    then op_3a (cur + 1) (byte mem (cur + 1))
    else two_byte_opcode_unchecked ddef cur op

abbrev pub test_operand_unchecked : Memory → ℕ → ℕ → ℕ → ℕ
test_operand_unchecked mem ddef cur op =
    if check_test op then test_dsize ddef op (byte mem (cur + 1)) else 0

unfoldable pub one_byte_opcode_unchecked : Memory → Prefixes → ℕ → Flow (Route × Operands)
one_byte_opcode_unchecked mem p op =
    if check_one_byte_ud op
    then error
    else ok (
      route_of (check_modrm op),
      record {
        cur = p.cur;
        op = op;
        multibyte = false;
        dsize = test_operand_unchecked mem p.ddef p.cur op + one_byte_dsize p.ddef op;
        msize = one_byte_msize p.mdef op;
        instruction_type = one_byte_function_type op;
      },
    )

-- The opcode byte `op` at `p.cur`.
unfoldable pub opcode_unchecked : Memory → Prefixes → ℕ → Flow (Route × Operands)
opcode_unchecked mem p op =
    if p.vex_pref_found
    then vex_opcode p op
    else if p.evex_pref_found
    then evex_opcode p op
    else if check_0f op
    then second_byte_unchecked mem p.ddef (p.cur + 1) (byte mem (p.cur + 1))
    else one_byte_opcode_unchecked mem p op

unfoldable pub sib_byte_unchecked : Memory → ℕ → ℕ → Operands → Operands
sib_byte_unchecked mem mdef m o =
    if modrm_r_m m == sib
    then sib_disp mdef m (record o { cur = o.cur + 1 }) (byte mem (o.cur + 1))
    else o

-- The addressing form of the ModR/M byte `m`, which `o.cur` points at.
unfoldable pub addressing_unchecked : Memory → ℕ → ℕ → Operands → Flow Operands
addressing_unchecked mem mdef m o =
    if modrm_mod m == register
    then ok o
    else if modrm_mod m == indirect
    then ok (
        sib_byte_unchecked mem mdef m
          (record o { msize = o.msize + (if modrm_r_m m == eip_disp32 then disp32 mdef else 0) }))
    else if modrm_mod m == indirect_disp8
    then ok (sib_byte_unchecked mem mdef m (record o { msize = o.msize + byte_size }))
    else if modrm_mod m == indirect_disp32
    then ok (sib_byte_unchecked mem mdef m (record o { msize = o.msize + disp32 mdef }))
    else error

unfoldable pub mod_rm_unchecked : Memory → ℕ → ℕ → Operands → Flow Operands
mod_rm_unchecked mem mdef m o =
    if has_extension o && ltb 7 (modrm_reg_opcode m)
    then error
    else addressing_unchecked mem mdef m (record o {
      instruction_type =
          if has_extension o
          then ext_type o.op (modrm_reg_opcode m) o.instruction_type
          else o.instruction_type;
    })

unfoldable pub mod_rm_byte_unchecked : Memory → ℕ → Operands → Flow Operands
mod_rm_byte_unchecked mem mdef o =
    mod_rm_unchecked mem mdef (byte mem (o.cur + 1)) (record o { cur = o.cur + 1 })

-- From the end of the opcode to the label `next`.
unfoldable pub decode_operands_unchecked : Memory → ℕ → Bool → Route → Operands → Flow Operands
decode_operands_unchecked mem mdef rex_w_found check_mod_rm_byte o = do
  o' ← mod_rm_byte_unchecked mem mdef o
  ok (rex_w_sizes rex_w_found o')
decode_operands_unchecked mem mdef rex_w_found no_modrm_byte o = ok (rex_w_sizes rex_w_found o)
decode_operands_unchecked mem mdef rex_w_found next o = ok o

-- One round up to line 1023; `fuel` is the longest run of prefixes that the model follows.
unfoldable pub decode_insn_unchecked : ℕ → Memory → ℕ → Flow Insn
decode_insn_unchecked fuel mem cur = do
  p ← scan_prefixes_unchecked fuel mem (no_prefixes cur)
  (route, o) ← opcode_unchecked mem p (byte mem p.cur)
  o' ← decode_operands_unchecked mem p.mdef p.rex_w_found route o
  ok (insn_of p o')
