-- ===== src/Decoder/Bounds.antt =====
-- Where the decoder of one instruction stops: between the byte it starts at and the limit.
use flow_scanner.Prelude.{
  ℕ, zero, suc, ◌+◌, ◌-◌, ◌≤◌, ◌<◌, ◌≡◌, Bool, arith, Flow, Post, Post-bind, Post-map, tests, leb,
  Bool-cases, inl, inr,
}
use flow_scanner.Decoder.Prefix.{
  Memory, byte, Prefixes, PrefixStep, cont, skip_byte, no_prefixes, prefix_step, skip_prefix,
  scan_round, scan_prefixes,
}
use flow_scanner.Decoder.Vex.{Operands, Route, vex_opcode, evex_opcode}
use flow_scanner.Decoder.Opcode.{
  check_cross_page, decode_opcode, opcode, one_byte_opcode, test_operand, multibyte_opcode,
  three_byte_38, three_byte_3a, op_38, op_3a, two_byte_opcode, second_byte,
}
use flow_scanner.Decoder.Operand.{
  sib_disp, sib_byte, addressing, mod_rm, mod_rm_byte, rex_w_sizes, decode_operands,
}
use flow_scanner.Decoder.Insn.{Insn, insn_of, check_insn, decode_insn}

-- `q` is behind `p` by the prefix bytes that it counts more.
pub record Advances (p q : Prefixes) : Type 0 where
  pub counted : q.cur + p.num_prefixes ≡ p.cur + q.num_prefixes
  pub forward : p.cur ≤ q.cur

abbrev pub StepAdvances : Prefixes → PrefixStep → Type 0
StepAdvances p (cont q) = Advances p q
StepAdvances p (skip_byte q) = (q.cur ≡ p.cur) × (q.num_prefixes ≡ p.num_prefixes)

pub prefix_step_advances : (mem : Memory) (p : Prefixes) → StepAdvances p (prefix_step mem p)
unfolding prefix_step
prefix_step_advances mem p = ground arith

scan_round-Advances :
    (limit : ℕ) (rest : Prefixes → Flow Prefixes) (p : Prefixes) (t : PrefixStep)
    → StepAdvances p t
    → ((q : Prefixes)
        → q.cur ≡ p.cur + 1
        → q.num_prefixes ≡ p.num_prefixes + 1
        → q.cur < limit
        → Post (Advances q) (rest q))
    → Post (Advances p) (scan_round limit rest t)
unfolding scan_round skip_prefix
scan_round-Advances limit rest p (cont q) a k = a
scan_round-Advances limit rest p (skip_byte q) a k = elim (Bool-cases (leb limit (q.cur + 1))) [
  | inl e ↦ rw e tt
  | inr e ↦ rw e (
      Post-map (Advances (skip_prefix q)) (Advances p) (rest (skip_prefix q))
        (λ r b. omega (arith, a, b)) (k (skip_prefix q) (omega arith) (omega arith) (omega tests)))
]

pub scan_prefixes-Advances :
    (fuel : ℕ) (mem : Memory) (limit : ℕ) (p : Prefixes)
    → p.cur < limit
    → limit ≤ p.cur + fuel
    → Post (Advances p) (scan_prefixes fuel mem limit p)
unfolding scan_prefixes
scan_prefixes-Advances zero mem limit p h f = absurd (omega arith)
scan_prefixes-Advances (suc fuel) mem limit p h f =
    scan_round-Advances limit (scan_prefixes fuel mem limit) p (prefix_step mem p)
      (prefix_step_advances mem p)
      (λ q a b c. scan_prefixes-Advances fuel mem limit q c (omega arith))

abbrev pub Forward : ℕ → ℕ → Operands → Type 0
Forward cur limit o = (cur ≤ o.cur) × (o.cur ≤ cur + 2) × (o.cur < limit)

pub decode_opcode_forward :
    (mem : Memory) (limit : ℕ) (p : Prefixes)
    → Post
        (λ r. (p.cur ≤ r.1.cur) × (r.1.cur ≤ p.cur + 2) × (r.1.cur < limit))
        (decode_opcode mem limit p)
unfolding decode_opcode opcode one_byte_opcode test_operand multibyte_opcode second_byte
    three_byte_38 three_byte_3a op_38 op_3a two_byte_opcode vex_opcode evex_opcode check_cross_page
decode_opcode_forward mem limit p = ground arith

mod_rm_forward :
    (mem : Memory) (limit mdef m : ℕ) (o : Operands)
    → o.cur < limit
    → Post
        (λ o'. (o.cur ≤ o'.cur) × (o'.cur ≤ o.cur + 1) × (o'.cur < limit))
        (mod_rm mem limit mdef m o)
unfolding mod_rm addressing sib_byte sib_disp check_cross_page
mod_rm_forward mem limit mdef m o h = ground arith

mod_rm_byte-Forward :
    (mem : Memory) (limit mdef : ℕ) (o : Operands)
    → Post (Forward o.cur limit) (mod_rm_byte mem limit mdef o)
unfolding mod_rm_byte check_cross_page
mod_rm_byte-Forward mem limit mdef o =
    ground
      (arith, mod_rm_forward mem limit mdef (byte mem (o.cur + 1)) (record o { cur = o.cur + 1 }))

rex_w_sizes-cur : (w : Bool) (o : Operands) → (rex_w_sizes w o).cur ≡ o.cur
unfolding rex_w_sizes
rex_w_sizes-cur w o = ground arith

pub decode_operands-Forward :
    (mem : Memory) (limit mdef : ℕ) (w : Bool) (r : Route) (o : Operands)
    → o.cur < limit
    → Post (Forward o.cur limit) (decode_operands mem limit mdef w r o)
unfolding decode_operands
decode_operands-Forward mem limit mdef w Route.check_mod_rm_byte o h =
    Post-bind (Forward o.cur limit) (Forward o.cur limit) (mod_rm_byte mem limit mdef o) _
      (mod_rm_byte-Forward mem limit mdef o) (λ o' f. rw rex_w_sizes-cur f)
decode_operands-Forward mem limit mdef w Route.no_modrm_byte o h = rw rex_w_sizes-cur (omega arith)
decode_operands-Forward mem limit mdef w Route.next o h = omega arith

-- An instruction that starts at `cur` and ends inside the limit, with its prefixes in front of `first_op`.
pub record Fits (cur limit : ℕ) (i : Insn) : Type 0 where
  pub prefixed : i.first_op ≡ cur + i.num_prefixes
  pub opcode_read : i.first_op < i.cur
  pub inside : i.cur ≤ limit

check_insn-Fits :
    (cur limit : ℕ) (i : Insn)
    → i.first_op ≡ cur + i.num_prefixes
    → i.first_op < i.cur
    → Post (Fits cur limit) (check_insn limit i)
unfolding check_insn
check_insn-Fits cur limit i h k = ground arith

-- Below the limit the decoder of one instruction returns, and where it finds one, the instruction is
-- its prefixes from `cur` on, at least one byte more, and ends inside the limit.
pub decode_insn-Fits :
    (mem : Memory) (limit cur : ℕ) → cur < limit → Post (Fits cur limit) (decode_insn mem limit cur)
unfolding decode_insn no_prefixes insn_of
decode_insn-Fits mem limit cur h =
    Post-bind (Advances (no_prefixes cur)) (Fits cur limit) _ _
      (scan_prefixes-Advances (limit - cur) mem limit (no_prefixes cur) h (omega arith))
      λ p a.
        Post-bind (λ r. Forward p.cur limit r.1) (Fits cur limit) _ _
          (decode_opcode_forward mem limit p)
          λ r b.
            Post-bind (Forward r.1.cur limit) (Fits cur limit) _ _
              (decode_operands-Forward mem limit p.mdef p.rex_w_found r.0 r.1 (omega (arith, b)))
              λ o c.
                check_insn-Fits cur limit (insn_of p o) (omega (arith, a)) (omega (arith, b, c))
