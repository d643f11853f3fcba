-- ===== src/Disassemble/Bounds.antt =====
-- What `disassemble_code` leaves in `*end`, for each value that it returns.
use flow_scanner.Prelude.{ℕ, ◌≤◌, ◌<◌, ◌≡◌, ◌⊎◌, inl, inr, arith, some, some_eq, IsU64, sym, ◌∙◌}
use flow_scanner.Prelude.Int.{pos}
use flow_scanner.Instruction.{InstructionType}
use flow_scanner.Decoder.Prefix.{Memory}
use flow_scanner.Disassemble.{
  Stats, found_value, Disassembly, disassembly, disassemble_error, disassemble_continue,
  disassemble_code,
}
use flow_scanner.Disassemble.Block.{
  Block, at_limit, cut, invalid, found, step, decoded, zone_cases, disassemble_code-Block,
}

-- DISASSEMBLE_SUCCESS with one of the four kinds of transfer.
abbrev pub IsFoundValue : ℕ → Type 0
IsFoundValue v = (v ≡ 17) ⊎ (v ≡ 5) ⊎ (v ≡ 3) ⊎ (v ≡ 9)

-- An answer for a zone whose decoding stands at `cur`.
pub data Answer (cur limit end : ℕ) : Disassembly → Type 0 where
  failed : (s : Stats) → Answer cur limit end (disassembly disassemble_error end s)
  cut_at :
      (e : ℕ) (s : Stats)
      → cur ≤ e
      → e ≤ limit
      → Answer cur limit end (disassembly disassemble_continue e s)
  transfer :
      (v e : ℕ) (s : Stats)
      → IsFoundValue v
      → cur < e
      → e ≤ limit
      → Answer cur limit end (disassembly (pos v) e s)

found_value-IsFoundValue : (t : InstructionType) {v : ℕ} → found_value t ≡ some v → IsFoundValue v
unfolding found_value
found_value-IsFoundValue t h = ground arith

Answer_weaken :
    {cur cur' limit end : ℕ} {d : Disassembly}
    → cur ≤ cur'
    → Answer cur' limit end d
    → Answer cur limit end d
Answer_weaken h (failed s) = failed s
Answer_weaken h (cut_at e s a b) = cut_at e s (omega arith) b
Answer_weaken h (transfer v e s f a b) = transfer v e s f (omega arith) b

Block-Answer :
    {mem : Memory} {limit end cur : ℕ} {s : Stats} {d : Disassembly}
    → cur ≤ limit
    → Block mem limit end cur s d
    → Answer cur limit end d
Block-Answer h (at_limit cur s e) = cut_at cur s (omega arith) h
Block-Answer h (cut cur s k e) = cut_at cur s (omega arith) h
Block-Answer h (invalid cur s k e) = failed s
Block-Answer {mem} {limit} {end} h (found cur s i v k e f) =
    let (a, b) = decoded mem limit end cur i k e in
    transfer v i.cur _ (found_value-IsFoundValue i.instruction_type f) a b
Block-Answer {mem} {limit} {end} h (step cur s i k e f b) =
    let (x, y) = decoded mem limit end cur i k e in Answer_weaken (omega arith) (Block-Answer y b)

-- `disassemble_code` returns -1 and leaves `*end` as it was, or returns 0 with `*end` in the zone,
-- or returns one of the four success values with `*end` in the zone and behind its start. If the
-- zone is empty or starts at 0 it returns -1 and leaves `*end` and the counters as they were.
pub disassemble_code_bounds :
    (mem : Memory) (start end : ℕ) (s : Stats) (d : Disassembly)
    → IsU64 end
    → disassemble_code mem start end s ≡ some d
    → (d ≡ disassembly disassemble_error end s)
      ⊎ ((0 < start) × (start < end) × Answer start end end d)
disassemble_code_bounds mem start end s d u h = elim (zone_cases mem start end s) [
  | inl e ↦ inl (some_eq (sym h ∙ e))
  | inr (a, b) ↦
      inr (a, b, Block-Answer (omega arith) ((disassemble_code-Block mem start end s d a b u).0 h))
]
