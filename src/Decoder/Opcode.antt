-- ===== src/Decoder/Opcode.antt =====
-- The opcode of an instruction in `disassemble_code` of libs/zone.c, lines 305 to 662.
use flow_scanner.Prelude.{
  ℕ, ◌+◌, true, false, leb, if◌then◌else◌, Flow, ok, cross_page, error, ◌>>=◌, ◌>>◌,
}
use flow_scanner.Tables.OneByte.{check_modrm, check_one_byte_ud}
use flow_scanner.Tables.TwoByte.{check_modrm2, check_two_byte_ud}
use flow_scanner.Tables.ThreeByte.{
  check_modrm38, check_three_byte_038_ud, check_modrm3a, check_three_byte_03a_ud,
}
use flow_scanner.Tables.Tests.{check_0f, check_38, check_3a, check_test}
use flow_scanner.Decoder.Prefix.{Memory, byte, Prefixes}
use flow_scanner.Decoder.Classify.{
  one_byte_type, two_byte_type, three_byte_38_type, three_byte_3a_type, one_byte_dsize,
  one_byte_msize, two_byte_dsize, test_dsize,
}
use flow_scanner.Decoder.Vex.{Operands, Route, route_of, vex_opcode, evex_opcode}

-- CHECK_CROSS_PAGE of libs/zone.h: `limit` is `start + size`.
unfoldable pub check_cross_page : ℕ → ℕ → Flow (Unit {0})
check_cross_page limit cur = if leb limit cur then cross_page else ok tt

-- The second opcode byte `op` at `cur`; `ddef` as the prefixes left it.
unfoldable pub two_byte_opcode : ℕ → ℕ → ℕ → Flow (Route × Operands)
two_byte_opcode ddef cur op =
    if check_two_byte_ud op
    then error
    else ok (
      route_of (check_modrm2 op),
      record {
        cur = cur;
        op = op;
        multibyte = true;
        dsize = two_byte_dsize ddef op;
        msize = 0;
        instruction_type = two_byte_type op;
      },
    )

-- The third opcode byte `op` at `cur`, behind 0F 38 and behind 0F 3A.
unfoldable pub op_38 : ℕ → ℕ → Flow (Route × Operands)
op_38 cur op =
    if check_three_byte_038_ud op
    then error
    else ok (
      route_of (check_modrm38 op),
      record {
        cur = cur;
        op = op;
        multibyte = true;
        dsize = 0;
        msize = 0;
        instruction_type = three_byte_38_type op;
      },
    )

unfoldable pub op_3a : ℕ → ℕ → Flow (Route × Operands)
op_3a cur op =
    if check_three_byte_03a_ud op
    then error
    else ok (
      route_of (check_modrm3a op),
      record {
        cur = cur;
        op = op;
        multibyte = true;
        dsize = 1;
        msize = 0;
        instruction_type = three_byte_3a_type op;
      },
    )

unfoldable pub three_byte_38 : Memory → ℕ → ℕ → Flow (Route × Operands)
three_byte_38 mem limit cur = do check_cross_page limit cur; op_38 cur (byte mem cur)

unfoldable pub three_byte_3a : Memory → ℕ → ℕ → Flow (Route × Operands)
three_byte_3a mem limit cur = do check_cross_page limit cur; op_3a cur (byte mem cur)

-- `op` is the byte at `cur`, behind 0F.
unfoldable pub second_byte : Memory → ℕ → ℕ → ℕ → ℕ → Flow (Route × Operands)
second_byte mem limit ddef cur op =
    if check_38 op
    then three_byte_38 mem limit (cur + 1)
    else if check_3a op
    then three_byte_3a mem limit (cur + 1)
    else two_byte_opcode ddef cur op

unfoldable pub multibyte_opcode : Memory → ℕ → ℕ → ℕ → Flow (Route × Operands)
multibyte_opcode mem limit ddef cur = do
  check_cross_page limit cur
  second_byte mem limit ddef cur (byte mem cur)

-- `TEST` looks at the ModR/M byte to see whether it has an immediate operand.
unfoldable pub test_operand : Memory → ℕ → ℕ → ℕ → ℕ → Flow ℕ
test_operand mem limit ddef cur op =
    if check_test op
    then (do check_cross_page limit (cur + 1); ok (test_dsize ddef op (byte mem (cur + 1))))
    else ok 0

abbrev pub one_byte_operands : ℕ → ℕ → ℕ → ℕ → ℕ → Operands
one_byte_operands ddef mdef cur op test = record {
  cur = cur;
  op = op;
  multibyte = false;
  dsize = test + one_byte_dsize ddef op;
  msize = one_byte_msize mdef op;
  instruction_type = one_byte_type op;
}

unfoldable pub one_byte_opcode : Memory → ℕ → Prefixes → ℕ → Flow (Route × Operands)
one_byte_opcode mem limit p op = if check_one_byte_ud op then error else (do
  test ← test_operand mem limit p.ddef p.cur op
  ok (route_of (check_modrm op), one_byte_operands p.ddef p.mdef p.cur op test))

-- The opcode byte `op` at `p.cur`.
unfoldable pub opcode : Memory → ℕ → Prefixes → ℕ → Flow (Route × Operands)
opcode mem limit p op =
    if p.vex_pref_found
    then vex_opcode p op
    else if p.evex_pref_found
    then evex_opcode p op
    else if check_0f op
    then multibyte_opcode mem limit p.ddef (p.cur + 1)
    else one_byte_opcode mem limit p op

-- From the label `cont` to the end of the opcode.
unfoldable pub decode_opcode : Memory → ℕ → Prefixes → Flow (Route × Operands)
decode_opcode mem limit p = do check_cross_page limit p.cur; opcode mem limit p (byte mem p.cur)
