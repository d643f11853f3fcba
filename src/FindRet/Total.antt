-- ===== src/FindRet/Total.antt =====
-- When `find_ret` returns.
use flow_scanner.Prelude.{
  ℕ, zero, suc, ◌+◌, ◌<◌, ◌≡◌, ◌≢◌, refl, Bool, false, not, ◌&&◌, ◌||◌, arith, ◌==◌, Bool-cases,
  inl, inr, Option, some, Flow, ok, cross_page, error, stuck, Post, Post-bind, ◌-◌,
}
use flow_scanner.Tables.Prefix.{check_prefix}
use flow_scanner.Tables.Tests.{check_vex_2, check_vex_3, check_evex, check_rex}
use flow_scanner.Decoder.Prefix.{
  Memory, byte, Prefixes, PrefixStep, cont, skip_byte, no_prefixes, prefix_step, prefix_test,
  skip_prefix,
}
use flow_scanner.Decoder.Vex.{Operands, Route, vex_opcode, evex_opcode}
use flow_scanner.Decoder.Opcode.{op_38, op_3a}
use flow_scanner.Decoder.Insn.{Insn}
use flow_scanner.FindRet.{is_ret, ret_round, continue_with, find_ret_loop, find_ret, max_iterations}
use flow_scanner.FindRet.Decode.{
  scan_round_unchecked, scan_prefixes_unchecked, two_byte_opcode_unchecked, second_byte_unchecked,
  one_byte_opcode_unchecked, opcode_unchecked, addressing_unchecked, mod_rm_unchecked,
  mod_rm_byte_unchecked, decode_operands_unchecked, decode_insn_unchecked,
}
use flow_scanner.FindRet.Alike.{prefix_step-cur}

-- A legacy or REX prefix: the bytes that the scan steps over.
abbrev pub one_byte_prefix : ℕ → Bool
one_byte_prefix b =
    check_prefix b && not (check_evex b || check_vex_2 b || check_vex_3 b)
    || not (check_prefix b) && check_rex b

-- No `fuel` bytes in a row are all prefixes.
abbrev pub ShortRuns : ℕ → Memory → Type 0
ShortRuns fuel mem = (a : ℕ) → (k : ℕ) × (k < fuel) × (one_byte_prefix (byte mem (a + k)) ≡ false)

no_skip :
    (mem : Memory) (p q : Prefixes)
    → one_byte_prefix (byte mem p.cur) ≡ false
    → prefix_step mem p ≢ skip_byte q
unfolding prefix_step prefix_test
no_skip mem p q h = ground arith

-- The model does not run out of fuel.
abbrev Decodes {ℓ} : {A : Type ℓ} → Flow A → Type 0
Decodes m = Post (λ a. Unit {0}) m

scan_round-Decodes :
    (rest : Prefixes → Flow Prefixes) (t : PrefixStep)
    → ((q : Prefixes) → t ≡ skip_byte q → Decodes (rest (skip_prefix q)))
    → Decodes (scan_round_unchecked rest t)
unfolding scan_round_unchecked
scan_round-Decodes rest (cont q) h = tt
scan_round-Decodes rest (skip_byte q) h = h q refl

scan-Decodes :
    (fuel k a : ℕ) (mem : Memory) (p : Prefixes)
    → p.cur + k ≡ a
    → k < fuel
    → one_byte_prefix (byte mem a) ≡ false
    → Decodes (scan_prefixes_unchecked fuel mem p)
unfolding scan_prefixes_unchecked skip_prefix
scan-Decodes zero k a mem p c h e = absurd (omega arith)
scan-Decodes (suc fuel) zero a mem p c h e =
    let here : p.cur ≡ a = omega arith in
    scan_round-Decodes (scan_prefixes_unchecked fuel mem) (prefix_step mem p)
      (λ q s. absurd (no_skip mem p q (rw here e) s))
scan-Decodes (suc fuel) (suc k) a mem p c h e =
    scan_round-Decodes (scan_prefixes_unchecked fuel mem) (prefix_step mem p) (λ q s.
      scan-Decodes fuel k a mem (skip_prefix q) (omega (arith, prefix_step-cur mem p q s))
        (omega arith) e)

opcode-Decodes : (mem : Memory) (p : Prefixes) (op : ℕ) → Decodes (opcode_unchecked mem p op)
unfolding opcode_unchecked second_byte_unchecked one_byte_opcode_unchecked two_byte_opcode_unchecked
    op_38 op_3a vex_opcode evex_opcode
opcode-Decodes mem p op = ground arith

operands-Decodes :
    (mem : Memory) (mdef : ℕ) (w : Bool) (r : Route) (o : Operands)
    → Decodes (decode_operands_unchecked mem mdef w r o)
unfolding decode_operands_unchecked mod_rm_byte_unchecked mod_rm_unchecked addressing_unchecked
operands-Decodes mem mdef w r o = ground arith

insn-Decodes :
    (fuel : ℕ) (mem : Memory) (cur : ℕ)
    → ShortRuns fuel mem
    → Decodes (decode_insn_unchecked fuel mem cur)
unfolding decode_insn_unchecked no_prefixes
insn-Decodes fuel mem cur runs =
    let (k, l, e) = runs cur in
    Post-bind (λ a. Unit {0}) (λ a. Unit {0}) _ _
      (scan-Decodes fuel k (cur + k) mem (no_prefixes cur) refl l e)
      λ p a.
        Post-bind (λ a. Unit {0}) (λ a. Unit {0}) _ _ (opcode-Decodes mem p (byte mem p.cur))
          λ r b.
            Post-bind (λ a. Unit {0}) (λ a. Unit {0}) _ _
              (operands-Decodes mem p.mdef p.rex_w_found r.0 r.1) λ o c. tt

round_returns :
    (rest : ℕ → Option ℕ) (m : Flow Insn)
    → Decodes m
    → ((cur : ℕ) → (r : ℕ) × (rest cur ≡ some r))
    → (r : ℕ) × (continue_with rest (ret_round m) ≡ some r)
unfolding ret_round
round_returns rest (ok i) h k = elim (Bool-cases (is_ret i.instruction_type)) [
  | inl e ↦ (i.cur - i.num_prefixes - (i.cur - i.first_op), rw e refl)
  | inr e ↦ let (r, f) = k i.cur in (r, rw e f)
]
round_returns rest error h k = (0, refl)
round_returns rest cross_page h k = (0, refl)
round_returns rest stuck h k = absurd h

loop_returns :
    (iterations fuel : ℕ) (mem : Memory) (cur : ℕ)
    → ShortRuns fuel mem
    → (r : ℕ) × (find_ret_loop iterations fuel mem cur ≡ some r)
unfolding find_ret_loop
loop_returns zero fuel mem cur runs = (0, refl)
loop_returns (suc k) fuel mem cur runs = elim (Bool-cases (cur == 0)) [
  | inl e ↦ (0, rw e refl)
  | inr e ↦
      let (r, f) =
        round_returns (find_ret_loop k fuel mem) (decode_insn_unchecked fuel mem cur)
          (insn-Decodes fuel mem cur runs) (λ c. loop_returns k fuel mem c runs) in
      (r, rw e f)
]

-- If no `fuel` bytes in a row are all prefixes, `find_ret` returns. Its test of the number of rounds
-- does not bound the scan of the prefixes of one instruction.
pub find_ret_total :
    (fuel : ℕ) (mem : Memory) (start : ℕ)
    → ShortRuns fuel mem
    → (r : ℕ) × (find_ret fuel mem start ≡ some r)
unfolding find_ret
find_ret_total fuel mem start runs = elim (Bool-cases (start == 0)) [
  | inl e ↦ (0, rw e refl)
  | inr e ↦ let (r, f) = loop_returns max_iterations fuel mem start runs in (r, rw e f)
]
