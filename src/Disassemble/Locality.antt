-- ===== src/Disassemble/Locality.antt =====
-- `disassemble_code` depends on the bytes of its zone alone.
use flow_scanner.Prelude.{ℕ, ◌≤◌, ◌<◌, ◌≡◌, sym, ◌∙◌, inl, inr, arith, IsU64, Flow}
use flow_scanner.Decoder.Insn.{Insn, decode_insn}
use flow_scanner.Disassemble.Block.{
  zone_cases, Block, at_limit, cut, invalid, found, step, decoded, disassemble_code-Block,
  disassemble_code_total,
}
use flow_scanner.Decoder.Prefix.{Memory}
use flow_scanner.Decoder.SameBytes.{Agree}
use flow_scanner.Decoder.Locality.{decode_insn_same}
use flow_scanner.Disassemble.{Stats, Disassembly, disassemble_code}

module _ (mem mem' : Memory) (start limit end : ℕ) (same : Agree start limit mem mem') where
  decoded_same :
      (cur : ℕ) {m : Flow Insn}
      → start ≤ cur
      → cur < limit
      → decode_insn mem limit cur ≡ m
      → decode_insn mem' limit cur ≡ m
  decoded_same cur h k e = sym (decode_insn_same start limit mem mem' same cur h k) ∙ e

  Block_same :
      {cur : ℕ} {s : Stats} {d : Disassembly}
      → start ≤ cur
      → Block mem limit end cur s d
      → Block mem' limit end cur s d
  Block_same h (at_limit cur s e) = at_limit cur s e
  Block_same h (cut cur s k e) = cut cur s k (decoded_same cur h k e)
  Block_same h (invalid cur s k e) = invalid cur s k (decoded_same cur h k e)
  Block_same h (found cur s i v k e f) = found cur s i v k (decoded_same cur h k e) f
  Block_same h (step cur s i k e f b) =
      step cur s i k (decoded_same cur h k e) f
        (Block_same (omega (arith, decoded mem limit end cur i k e)) b)

-- Two memories with the same bytes from `start` to `end` get the same answer.
pub disassemble_code_local :
    (mem mem' : Memory) (start end : ℕ) (s : Stats)
    → IsU64 end
    → Agree start end mem mem'
    → disassemble_code mem start end s ≡ disassemble_code mem' start end s
disassemble_code_local mem mem' start end s u same = elim (zone_cases mem start end s) [
  | inl e ↦ elim (zone_cases mem' start end s) [ inl e' ↦ e ∙ sym e' | inr (h, k) ↦ answers h k ]
  | inr (h, k) ↦ answers h k
]
  where
    answers :
        0 < start
        → start < end
        → disassemble_code mem start end s ≡ disassemble_code mem' start end s
    answers h k =
        let (d, e) = disassemble_code_total mem start end s u in
        let b = (disassemble_code-Block mem start end s d h k u).0 e in
        e
        ∙ sym (
            (disassemble_code-Block mem' start end s d h k u).1
              (Block_same mem mem' start end end same (omega arith) b))
