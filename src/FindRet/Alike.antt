-- ===== src/FindRet/Alike.antt =====
-- The decoder of `find_ret` against the decoder of `disassemble_code`.
use flow_scanner.Prelude.{
  ℕ, zero, suc, ◌+◌, ◌-◌, ◌≤◌, ◌<◌, ◌≡◌, refl, Bool, arith, leb, ltb, ◌&&◌, if◌then◌else◌,
  Bool-cases, inl, inr, tests, Flow, ok, error,
}
use flow_scanner.Instruction.{modrm_reg_opcode}
use flow_scanner.Decoder.Prefix.{
  Memory, byte, Prefixes, PrefixStep, cont, skip_byte, no_prefixes, prefix_step, skip_prefix,
  scan_round, scan_prefixes,
}
use flow_scanner.Decoder.Classify.{ext_type}
use flow_scanner.Decoder.Vex.{Operands, Route}
use flow_scanner.Decoder.Opcode.{check_cross_page}
use flow_scanner.Decoder.Operand.{
  sib_disp, sib_byte, addressing, mod_rm, mod_rm_byte, rex_w_sizes, decode_operands, has_extension,
}
use flow_scanner.Decoder.Insn.{Insn, insn_of, check_insn, decode_insn}
use flow_scanner.Decoder.Bounds.{prefix_step_advances}
use flow_scanner.FindRet.{is_ret}
use flow_scanner.FindRet.Decode.{
  scan_round_unchecked, scan_prefixes_unchecked, sib_byte_unchecked, addressing_unchecked,
  mod_rm_unchecked, mod_rm_byte_unchecked, decode_operands_unchecked, decode_insn_unchecked,
}
use flow_scanner.FindRet.Opcode.{
  Follows, Follows-bind, SameOperands, SameOpcode, ext_type_return, decode_opcode_alike,
}

addressing_alike :
    (mem : Memory) (limit mdef m : ℕ) (o o' : Operands)
    → SameOperands o o'
    → Follows SameOperands (addressing mem limit mdef m o) (addressing_unchecked mem mdef m o')
unfolding addressing addressing_unchecked sib_byte sib_byte_unchecked sib_disp check_cross_page
addressing_alike mem limit mdef m o o' h = ground arith

refined_alike :
    (e : Bool) (r : ℕ) (o o' : Operands)
    → SameOperands o o'
    → SameOperands
        (record o {
          instruction_type = if e then ext_type o.op r o.instruction_type else o.instruction_type;
        })
        (record o' {
          instruction_type =
              if e then ext_type o'.op r o'.instruction_type else o'.instruction_type;
        })
refined_alike e r o o' h =
    rw h.op (ground (arith, ext_type_return o.op r o.instruction_type o'.instruction_type h.return))

Follows-if :
    (b : Bool) (m n : Flow Operands)
    → Follows SameOperands m n
    → Follows SameOperands (if b then error else m) (if b then error else n)
Follows-if b m n h = ground arith

mod_rm_alike :
    (mem : Memory) (limit mdef m : ℕ) (o o' : Operands)
    → SameOperands o o'
    → Follows SameOperands (mod_rm mem limit mdef m o) (mod_rm_unchecked mem mdef m o')
unfolding mod_rm mod_rm_unchecked
mod_rm_alike mem limit mdef m o o' h =
    let e : has_extension o' ≡ has_extension o = rw (h.op, h.multibyte) refl in
    rw e (
      Follows-if (has_extension o && ltb 7 (modrm_reg_opcode m)) _ _ (
        addressing_alike mem limit mdef m _ _
          (refined_alike (has_extension o) (modrm_reg_opcode m) o o' h)))

rex_w_alike :
    (w : Bool) (o o' : Operands)
    → SameOperands o o'
    → SameOperands (rex_w_sizes w o) (rex_w_sizes w o')
unfolding rex_w_sizes
rex_w_alike w o o' h = ground arith

mod_rm_byte_alike :
    (mem : Memory) (limit mdef : ℕ) (o o' : Operands)
    → SameOperands o o'
    → Follows SameOperands (mod_rm_byte mem limit mdef o) (mod_rm_byte_unchecked mem mdef o')
unfolding mod_rm_byte mod_rm_byte_unchecked check_cross_page
mod_rm_byte_alike mem limit mdef o o' h = elim (Bool-cases (leb limit (o.cur + 1))) [
  | inl e ↦ rw e tt
  | inr e ↦
      rw (e, h.cur)
        (mod_rm_alike mem limit mdef (byte mem (o.cur + 1)) (record o { cur = o.cur + 1 })
          (record o' { cur = o.cur + 1 })
          (record {
            cur = refl;
            op = h.op;
            multibyte = h.multibyte;
            dsize = h.dsize;
            msize = h.msize;
            return = h.return;
          }))
]

decode_operands_alike :
    (mem : Memory) (limit mdef : ℕ) (w : Bool) (r : Route) (o o' : Operands)
    → SameOperands o o'
    → Follows SameOperands
        (decode_operands mem limit mdef w r o)
        (decode_operands_unchecked mem mdef w r o')
unfolding decode_operands decode_operands_unchecked
decode_operands_alike mem limit mdef w Route.check_mod_rm_byte o o' h =
    Follows-bind SameOperands SameOperands (mod_rm_byte mem limit mdef o)
      (mod_rm_byte_unchecked mem mdef o') _ _ (mod_rm_byte_alike mem limit mdef o o' h)
      (λ a b k. rex_w_alike w a b k)
decode_operands_alike mem limit mdef w Route.no_modrm_byte o o' h = rex_w_alike w o o' h
decode_operands_alike mem limit mdef w Route.next o o' h = h

scan_round_alike :
    (limit : ℕ) (rest rest' : Prefixes → Flow Prefixes) (t : PrefixStep)
    → ((q : Prefixes)
        → t ≡ skip_byte q
        → q.cur + 1 < limit
        → Follows (λ a b. b ≡ a) (rest (skip_prefix q)) (rest' (skip_prefix q)))
    → Follows (λ a b. b ≡ a) (scan_round limit rest t) (scan_round_unchecked rest' t)
unfolding scan_round scan_round_unchecked
scan_round_alike limit rest rest' (cont q) k = refl
scan_round_alike limit rest rest' (skip_byte q) k = elim (Bool-cases (leb limit (q.cur + 1))) [
  | inl e ↦ rw e tt
  | inr e ↦ rw e (k q refl (omega tests))
]

pub prefix_step-cur :
    (mem : Memory) (p q : Prefixes) → prefix_step mem p ≡ skip_byte q → q.cur ≡ p.cur
prefix_step-cur mem p q e = (rw e at (prefix_step_advances mem p)).0

scan_alike :
    (fuel fuel' : ℕ) (mem : Memory) (limit : ℕ) (p : Prefixes)
    → p.cur < limit
    → limit ≤ p.cur + fuel
    → limit ≤ p.cur + fuel'
    → Follows (λ q r. r ≡ q) (scan_prefixes fuel mem limit p) (scan_prefixes_unchecked fuel' mem p)
unfolding scan_prefixes scan_prefixes_unchecked skip_prefix
scan_alike zero fuel' mem limit p h f f' = absurd (omega arith)
scan_alike (suc fuel) zero mem limit p h f f' = absurd (omega arith)
scan_alike (suc fuel) (suc fuel') mem limit p h f f' =
    scan_round_alike limit (scan_prefixes fuel mem limit) (scan_prefixes_unchecked fuel' mem)
      (prefix_step mem p)
      (λ q e l.
        scan_alike fuel fuel' mem limit (skip_prefix q) l (omega (arith, prefix_step-cur mem p q e))
          (omega (arith, prefix_step-cur mem p q e)))

-- The same instruction, a return in both or in neither.
pub record SameInsn (i j : Insn) : Type 0 where
  pub cur : j.cur ≡ i.cur
  pub first_op : j.first_op ≡ i.first_op
  pub num_prefixes : j.num_prefixes ≡ i.num_prefixes
  pub return : is_ret j.instruction_type ≡ is_ret i.instruction_type

insn_alike :
    (limit : ℕ) (p : Prefixes) (o o' : Operands)
    → SameOperands o o'
    → Follows SameInsn (check_insn limit (insn_of p o)) (ok (insn_of p o'))
unfolding check_insn insn_of
insn_alike limit p o o' h = ground arith

-- Inside a limit the decoder of `find_ret`, if it may follow the prefixes up to that limit, finds the
-- instruction that the decoder of `disassemble_code` finds, of the same length, with the same
-- prefixes, and a return instruction exactly if that is one; and it rejects the bytes that the other rejects.
pub decode_insn_unchecked-Follows :
    (mem : Memory) (limit fuel cur : ℕ)
    → cur < limit
    → limit ≤ cur + fuel
    → Follows SameInsn (decode_insn mem limit cur) (decode_insn_unchecked fuel mem cur)
unfolding decode_insn decode_insn_unchecked no_prefixes
decode_insn_unchecked-Follows mem limit fuel cur h f =
    Follows-bind (λ q r. r ≡ q) SameInsn _ _ _ _
      (scan_alike (limit - cur) fuel mem limit (no_prefixes cur) h (omega arith) f)
      λ p p' e. rw e (
        Follows-bind SameOpcode SameInsn _ _ _ _ (decode_opcode_alike mem limit p) λ r r' k.
          rw k.0 (
            Follows-bind SameOperands SameInsn _ _ _ _
              (decode_operands_alike mem limit p.mdef p.rex_w_found r.0 r.1 r'.1 k.1)
              λ o o' same. insn_alike limit p o o' same))
