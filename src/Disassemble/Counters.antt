-- ===== src/Disassemble/Counters.antt =====
-- The counters that `disassemble_code` fills.
use flow_scanner.Prelude.{ℕ, suc, ◌+◌, ◌%◌, ◌<◌, ◌≡◌, Bool, arith, some, none, IsU64, ok, Post-ok}
use flow_scanner.Instruction.{InstructionType}
use flow_scanner.Decoder.Prefix.{Memory}
use flow_scanner.Decoder.Insn.{Insn, decode_insn}
use flow_scanner.Decoder.Types.{Counted, decode_insn-Counted}
use flow_scanner.Disassemble.{
  Stats, count_insn, count_found, found_value, Disassembly, disassemble_code,
}
use flow_scanner.Disassemble.Block.{
  Block, at_limit, cut, invalid, found, step, disassemble_code-Block,
}

abbrev pub total : Stats → ℕ
total s =
    s.num_of_control_instructions + s.num_of_arithmetic_instructions + s.num_of_logical_instructions
    + s.num_of_data_transfer_instructions + s.num_of_system_instructions
    + s.num_of_miscellaneous_instructions + s.num_of_vex_or_evex_instructions

-- The number of instructions that a block decodes completely.
pub instructions :
    {mem : Memory} {limit end cur : ℕ} {s : Stats} {d : Disassembly}
    → Block mem limit end cur s d
    → ℕ
instructions (at_limit cur s e) = 0
instructions (cut cur s h e) = 0
instructions (invalid cur s h e) = 0
instructions (found cur s i v h e f) = 1
instructions (step cur s i h e f b) = suc (instructions b)

count_insn-total :
    (t : InstructionType) (v : Bool) (s : Stats)
    → Counted v t
    → found_value t ≡ none
    → total (count_insn t v s) % 256 ≡ (total s + 1) % 256
unfolding count_insn found_value
count_insn-total t v s h f = ground arith

count_found-total : (s : Stats) → total (count_found s) % 256 ≡ (total s + 1) % 256
unfolding count_found
count_found-total s = omega arith

insn-Counted :
    (mem : Memory) (limit cur : ℕ) (i : Insn)
    → cur < limit
    → decode_insn mem limit cur ≡ ok i
    → Counted i.vector i.instruction_type
insn-Counted mem limit cur i h e =
    Post-ok (λ j. Counted j.vector j.instruction_type) (decode_insn mem limit cur)
      (decode_insn-Counted mem limit cur h) e

Block-total :
    {mem : Memory} {limit end cur : ℕ} {s : Stats} {d : Disassembly}
    (b : Block mem limit end cur s d)
    → total d.stats % 256 ≡ (total s + instructions b) % 256
unfolding instructions
Block-total (at_limit cur s e) = omega arith
Block-total (cut cur s h e) = omega arith
Block-total (invalid cur s h e) = omega arith
Block-total (found cur s i v h e f) = count_found-total s
Block-total {mem} {limit} (step cur s i h e f b) = omega (
  arith,
  Block-total b,
  count_insn-total i.instruction_type i.vector s (insn-Counted mem limit cur i h e) f,
)

-- When `disassemble_code` returns, its seven counters have together grown by the number of
-- instructions that it decoded, modulo 256: each instruction counts in exactly one of them.
pub disassemble_code_counts :
    (mem : Memory) (start end : ℕ) (s : Stats) (d : Disassembly) (h : 0 < start) (k : start < end)
    (u : IsU64 end) (e : disassemble_code mem start end s ≡ some d)
    → total d.stats % 256
      ≡ (total s + instructions ((disassemble_code-Block mem start end s d h k u).0 e)) % 256
disassemble_code_counts mem start end s d h k u e =
    Block-total ((disassemble_code-Block mem start end s d h k u).0 e)
