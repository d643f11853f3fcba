-- ===== src/Decoder/Insn.antt =====
-- One round of the loop of `disassemble_code` in libs/zone.c up to line 816.
use flow_scanner.Prelude.{ℕ, ◌+◌, ◌-◌, Bool, ◌||◌, Flow, ok, ◌>>=◌, ◌>>◌}
use flow_scanner.Instruction.{InstructionType}
use flow_scanner.Decoder.Prefix.{Memory, Prefixes, no_prefixes, scan_prefixes}
use flow_scanner.Decoder.Vex.{Operands}
use flow_scanner.Decoder.Opcode.{check_cross_page, decode_opcode}
use flow_scanner.Decoder.Operand.{decode_operands}

-- What is known of an instruction at the end of the round. `cur` is the byte behind it.
pub record Insn : Type 0 where
  pub cur : ℕ
  pub first_op : ℕ
  pub num_prefixes : ℕ
  pub vector : Bool
  pub instruction_type : InstructionType

-- `cur += msize + dsize + 1` under the label `next`.
unfoldable pub insn_of : Prefixes → Operands → Insn
insn_of p o = record {
  cur = o.cur + (o.msize + o.dsize + 1);
  first_op = p.cur;
  num_prefixes = p.num_prefixes;
  vector = p.evex_pref_found || p.vex_pref_found;
  instruction_type = o.instruction_type;
}

unfoldable pub check_insn : ℕ → Insn → Flow Insn
unfolding check_cross_page
check_insn limit i = do check_cross_page limit (i.cur - 1); ok i

-- Each skipped prefix brings `cur` one byte nearer to `limit`, so the distance is fuel enough.
unfoldable pub decode_insn : Memory → ℕ → ℕ → Flow Insn
decode_insn mem limit cur = do
  p ← scan_prefixes (limit - cur) mem limit (no_prefixes cur)
  (route, o) ← decode_opcode mem limit p
  o' ← decode_operands mem limit p.mdef p.rex_w_found route o
  check_insn limit (insn_of p o')
