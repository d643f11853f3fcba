-- ===== src/FindRet.antt =====
-- `find_ret` of libs/utils.c: the address of the first return instruction of a kernel function.
pub mod Decode
pub mod Opcode
pub mod Alike
pub mod Path
pub mod Total
use flow_scanner.Prelude.{
  ℕ, zero, suc, ◌+◌, ◌-◌, Bool, true, false, ◌==◌, if◌then◌else◌, Option, none, some, Flow, ok,
  cross_page, error, stuck,
}
use flow_scanner.Instruction.{InstructionType, ret}
use flow_scanner.Decoder.Prefix.{Memory}
use flow_scanner.Decoder.Insn.{Insn}
use flow_scanner.FindRet.Decode.{decode_insn_unchecked}

-- instruction_type == RET
abbrev pub is_ret : InstructionType → Bool
is_ret ret = true
is_ret _ = false

-- What a round comes to: the function returns, or the loop goes on behind the instruction. `none` is
-- no outcome of the source: the model's scan of the prefixes ran out of fuel.
pub data RetRound : Type 0 where
  leave : Option ℕ → RetRound
  again : ℕ → RetRound

-- The value returned for a return instruction is `cur - num_prefixes - total_size`, where
-- `total_size` is `cur - first_op`. This decoder has no exit `cross_page`.
unfoldable pub ret_round : Flow Insn → RetRound
ret_round (ok i) =
    if is_ret i.instruction_type
    then leave (some (i.cur - i.num_prefixes - (i.cur - i.first_op)))
    else again i.cur
ret_round error = leave (some 0)
ret_round cross_page = leave (some 0)
ret_round stuck = leave none

abbrev pub continue_with : (ℕ → Option ℕ) → RetRound → Option ℕ
continue_with rest (leave v) = v
continue_with rest (again cur) = rest cur

-- The loop with `iterations` rounds left: the test `++iter > 1000` fails that often. `fuel` is the
-- longest run of prefixes that the model follows.
unfoldable pub find_ret_loop : ℕ → ℕ → Memory → ℕ → Option ℕ
find_ret_loop zero fuel mem cur = some 0
find_ret_loop (suc iterations) fuel mem cur =
    let rest = find_ret_loop iterations fuel mem in
    if cur == 0 then some 0 else continue_with rest (ret_round (decode_insn_unchecked fuel mem cur))

abbrev pub max_iterations : ℕ
max_iterations = 1000

unfoldable pub find_ret : ℕ → Memory → ℕ → Option ℕ
find_ret fuel mem start = if start == 0 then some 0 else find_ret_loop max_iterations fuel mem start
