-- ===== src/Decoder/Vex.antt =====
-- The VEX and EVEX branches of `disassemble_code` in libs/zone.c, lines 316 to 493.
use flow_scanner.Prelude.{ℕ, Bool, false, ◌==◌, if◌then◌else◌, Flow, ok, error}
use flow_scanner.Tables.Vex.{check_vex_0f3a, check_vex_0f38, check_vex_0f}
use flow_scanner.Tables.Evex.{check_evex_0f3a, check_evex_0f38, check_evex_0f}
use flow_scanner.Tables.Tests.{
  check_vex_2, check_vex_0f3a_no_imm8, check_vex_0f38_imm8, check_vex_0f_imm8, check_m_mmmm_field,
  check_evex_0f_imm8, check_mm_field, vex_no_modrm,
}
use flow_scanner.Instruction.{InstructionType, no_type}
use flow_scanner.Decoder.Prefix.{Prefixes}

-- The locals that the opcode sets.
pub record Operands : Type 0 where
  pub cur : ℕ
  pub op : ℕ
  pub multibyte : Bool
  pub dsize : ℕ
  pub msize : ℕ
  pub instruction_type : InstructionType

-- Where the decoder goes behind the opcode: the label `check_mod_rm_byte` (or the body of `if (has_modrm)`,
-- where it stands), the `else` of that test, or the label `next`.
pub data Route : Type 0 where
  check_mod_rm_byte no_modrm_byte next : Route

abbrev pub route_of : Bool → Route
route_of has_modrm = if has_modrm then check_mod_rm_byte else no_modrm_byte

-- A one-byte opcode behind a VEX or EVEX prefix, with an immediate of `dsize` bytes.
abbrev pub vector_op : ℕ → ℕ → ℕ → Operands
vector_op cur op dsize = record {
  cur = cur;
  op = op;
  multibyte = false;
  dsize = dsize;
  msize = 0;
  instruction_type = no_type;
}

abbrev pub imm8_if : Bool → ℕ
imm8_if b = if b then 1 else 0

unfoldable pub vex_2_opcode : ℕ → ℕ → Flow (Route × Operands)
vex_2_opcode cur op =
    if vex_no_modrm op
    then ok (next, vector_op cur op 0)
    else ok (check_mod_rm_byte, vector_op cur op (imm8_if (check_vex_0f_imm8 op)))

unfoldable pub vex_0f38_opcode : ℕ → ℕ → Flow (Route × Operands)
vex_0f38_opcode cur op =
    if check_vex_0f38 op
    then ok (check_mod_rm_byte, vector_op cur op (imm8_if (check_vex_0f38_imm8 op)))
    else error

unfoldable pub vex_0f3a_opcode : ℕ → ℕ → Flow (Route × Operands)
vex_0f3a_opcode cur op =
    if check_vex_0f3a op
    then ok (check_mod_rm_byte, vector_op cur op (if check_vex_0f3a_no_imm8 op then 0 else 1))
    else error

unfoldable pub vex_0f_opcode : ℕ → ℕ → Flow (Route × Operands)
vex_0f_opcode cur op =
    if check_vex_0f op
    then if vex_no_modrm op
      then ok (next, vector_op cur op 0)
      else ok (check_mod_rm_byte, vector_op cur op (imm8_if (check_vex_0f_imm8 op)))
    else error

-- The opcode maps 0F, 0F38 and 0F3A are numbered 1, 2 and 3.
unfoldable pub vex_opcode : Prefixes → ℕ → Flow (Route × Operands)
unfolding vex_2_opcode vex_0f38_opcode vex_0f3a_opcode vex_0f_opcode
vex_opcode p op =
    if check_vex_2 p.prefix_byte
    then vex_2_opcode p.cur op
    else if check_m_mmmm_field p.m_mmmm_byte == 2
    then vex_0f38_opcode p.cur op
    else if check_m_mmmm_field p.m_mmmm_byte == 3
    then vex_0f3a_opcode p.cur op
    else if check_m_mmmm_field p.m_mmmm_byte == 1
    then vex_0f_opcode p.cur op
    else error

unfoldable pub evex_0f38_opcode : ℕ → ℕ → Flow (Route × Operands)
evex_0f38_opcode cur op =
    if check_evex_0f38 op then ok (check_mod_rm_byte, vector_op cur op 0) else error

unfoldable pub evex_0f_opcode : ℕ → ℕ → Flow (Route × Operands)
evex_0f_opcode cur op =
    if check_evex_0f op
    then ok (check_mod_rm_byte, vector_op cur op (imm8_if (check_evex_0f_imm8 op)))
    else error

unfoldable pub evex_0f3a_opcode : ℕ → ℕ → Flow (Route × Operands)
evex_0f3a_opcode cur op =
    if check_evex_0f3a op then ok (check_mod_rm_byte, vector_op cur op 1) else error

unfoldable pub evex_opcode : Prefixes → ℕ → Flow (Route × Operands)
unfolding evex_0f38_opcode evex_0f_opcode evex_0f3a_opcode
evex_opcode p op =
    if check_mm_field p.m_mmmm_byte == 2
    then evex_0f38_opcode p.cur op
    else if check_mm_field p.m_mmmm_byte == 1
    then evex_0f_opcode p.cur op
    else if check_mm_field p.m_mmmm_byte == 3
    then evex_0f3a_opcode p.cur op
    else error
