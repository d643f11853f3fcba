-- ===== src/FindRet/Path.antt =====
-- What `find_ret` looks for, as a relation: a run of instructions up to the first return.
use flow_scanner.Prelude.{
  ℕ, zero, suc, ◌+◌, ◌-◌, ◌≤◌, ◌<◌, ◌≡◌, refl, ◌∙◌, true, false, arith, ltb, ne→==, if◌then◌else◌,
  some, Flow, ok, cross_page, error, stuck, Post-ok, lt→ltb,
}
use flow_scanner.Decoder.Prefix.{Memory}
use flow_scanner.Decoder.Insn.{Insn, decode_insn}
use flow_scanner.Decoder.Bounds.{Fits, decode_insn-Fits}
use flow_scanner.FindRet.{
  is_ret, RetRound, leave, again, ret_round, continue_with, find_ret_loop, find_ret, max_iterations,
}
use flow_scanner.FindRet.Decode.{decode_insn_unchecked}
use flow_scanner.FindRet.Alike.{SameInsn, decode_insn_unchecked-Follows}
use flow_scanner.FindRet.Opcode.{Follows}

-- `ReturnAt mem limit cur n a`: decoding from `cur` inside the limit, `n` instructions that do not
-- return come first, then a return instruction that starts at `a`, or bytes that are no instruction and `a` is 0.
pub data ReturnAt (mem : Memory) (limit : ℕ) : ℕ → ℕ → ℕ → Type 0 where
  found :
      (cur : ℕ) (i : Insn)
      → cur < limit
      → decode_insn mem limit cur ≡ ok i
      → is_ret i.instruction_type ≡ true
      → ReturnAt mem limit cur 0 cur
  invalid : (cur : ℕ) → cur < limit → decode_insn mem limit cur ≡ error → ReturnAt mem limit cur 0 0
  step :
      (cur : ℕ) (i : Insn) {n a : ℕ}
      → cur < limit
      → decode_insn mem limit cur ≡ ok i
      → is_ret i.instruction_type ≡ false
      → ReturnAt mem limit i.cur n a
      → ReturnAt mem limit cur (suc n) a

Follows-ok :
    (m : Flow Insn) {i : Insn} → Follows SameInsn (ok i) m → (j : Insn) × (m ≡ ok j) × SameInsn i j
Follows-ok (ok j) h = (j, refl, h)
Follows-ok cross_page h = absurd h
Follows-ok error h = absurd h
Follows-ok stuck h = absurd h

Follows-error : (m : Flow Insn) → Follows SameInsn error m → m ≡ error
Follows-error (ok j) h = absurd h
Follows-error cross_page h = absurd h
Follows-error error h = refl
Follows-error stuck h = absurd h

counted : (n k a : ℕ) → (if ltb n k then a else 0) ≡ (if ltb (suc n) (suc k) then a else 0)
counted n k a = ground arith

none_left : (n a : ℕ) → (if ltb n 0 then a else 0) ≡ 0
none_left n a = ground arith

module _ (mem : Memory) (limit fuel : ℕ) where
  found_round :
      (cur : ℕ) (i : Insn)
      → cur < limit
      → limit ≤ cur + fuel
      → decode_insn mem limit cur ≡ ok i
      → is_ret i.instruction_type ≡ true
      → ret_round (decode_insn_unchecked fuel mem cur) ≡ leave (some cur)
  unfolding ret_round
  found_round cur i h f e r =
      let fits =
        Post-ok (Fits cur limit) (decode_insn mem limit cur) (decode_insn-Fits mem limit cur h) e in
      let (j, d, same) =
        Follows-ok (decode_insn_unchecked fuel mem cur)
          (rw e at (decode_insn_unchecked-Follows mem limit fuel cur h f)) in
      let start : j.cur - j.num_prefixes - (j.cur - j.first_op) ≡ cur =
        omega
          (arith, fits.prefixed, fits.opcode_read, same.cur, same.first_op, same.num_prefixes) in
      rw (d, same.return, r, start)

  step_round :
      (cur : ℕ) (i : Insn)
      → cur < limit
      → limit ≤ cur + fuel
      → decode_insn mem limit cur ≡ ok i
      → is_ret i.instruction_type ≡ false
      → ret_round (decode_insn_unchecked fuel mem cur) ≡ again i.cur
  unfolding ret_round
  step_round cur i h f e r =
      let (j, d, same) =
        Follows-ok (decode_insn_unchecked fuel mem cur)
          (rw e at (decode_insn_unchecked-Follows mem limit fuel cur h f)) in
      rw (d, same.return, r, same.cur)

  invalid_round :
      (cur : ℕ)
      → cur < limit
      → limit ≤ cur + fuel
      → decode_insn mem limit cur ≡ error
      → ret_round (decode_insn_unchecked fuel mem cur) ≡ leave (some 0)
  unfolding ret_round
  invalid_round cur h f e = rw (
      Follows-error (decode_insn_unchecked fuel mem cur)
        (rw e at (decode_insn_unchecked-Follows mem limit fuel cur h f)))

  loop_round :
      (iterations cur : ℕ) {t : RetRound}
      → 0 < cur
      → ret_round (decode_insn_unchecked fuel mem cur) ≡ t
      → find_ret_loop (suc iterations) fuel mem cur
        ≡ continue_with (find_ret_loop iterations fuel mem) t
  unfolding find_ret_loop
  loop_round iterations cur h e = rw (ne→== cur 0 (omega arith), e)

  find_ret_loop-ReturnAt :
      {cur n a : ℕ}
      → ReturnAt mem limit cur n a
      → (iterations : ℕ) → 0 < cur
      → limit ≤ cur + fuel
      → find_ret_loop iterations fuel mem cur ≡ some (if ltb n iterations then a else 0)
  find_ret_loop-ReturnAt {cur} {n} {a} p zero h f = unfold find_ret_loop in rw (none_left n a) refl
  find_ret_loop-ReturnAt (found cur i l e r) (suc k) h f =
      loop_round k cur h (found_round cur i l f e r) ∙ rw (lt→ltb 0 (suc k) (omega arith)) refl
  find_ret_loop-ReturnAt (invalid cur l e) (suc k) h f =
      loop_round k cur h (invalid_round cur l f e) ∙ rw (lt→ltb 0 (suc k) (omega arith)) refl
  find_ret_loop-ReturnAt (step cur i {n} {a} l e r p) (suc k) h f =
      let fits =
        Post-ok (Fits cur limit) (decode_insn mem limit cur) (decode_insn-Fits mem limit cur l) e in
      loop_round k cur h (step_round cur i l f e r)
      ∙ find_ret_loop-ReturnAt p k (omega (arith, fits.prefixed, fits.opcode_read))
          (omega (arith, fits.prefixed, fits.opcode_read))
      ∙ rw (counted n k a) refl

-- If decoding a function from `start` inside the limit passes `n` instructions and then meets a return
-- instruction at `a`, `find_ret` returns `a` if `n` is below 1000 and 0 if not; if it meets bytes that
-- are no instruction, it returns 0. The model follows the prefixes as far as the limit.
pub find_ret-ReturnAt :
    (mem : Memory) (limit fuel start n a : ℕ)
    → 0 < start
    → limit ≤ start + fuel
    → ReturnAt mem limit start n a
    → find_ret fuel mem start ≡ some (if ltb n 1000 then a else 0)
unfolding find_ret
find_ret-ReturnAt mem limit fuel start n a h f p =
    rw (ne→== start 0 (omega arith)) (find_ret_loop-ReturnAt mem limit fuel p max_iterations h f)
