-- ===== src/Decoder/Types.antt =====
-- The type of a decoded instruction is one that the loop of `disassemble_code` counts.
use flow_scanner.Prelude.{
  ℕ, ◌+◌, ◌-◌, ◌<◌, ◌≡◌, Bool, true, false, ◌||◌, arith, Post, Post-bind, Post-if, ◌&&◌, ltb, error,
  if◌then◌else◌,
}
use flow_scanner.Instruction.{InstructionType, no_type, not_valid, ud, evex, vex, modrm_reg_opcode}
use flow_scanner.Decoder.Prefix.{Memory, byte, Prefixes, no_prefixes}
use flow_scanner.Decoder.Classify.{
  one_byte_type, two_byte_type, three_byte_38_type, three_byte_3a_type, ext_type,
}
use flow_scanner.Decoder.Vex.{Operands, Route, vex_opcode, evex_opcode}
use flow_scanner.Decoder.Opcode.{
  check_cross_page, decode_opcode, opcode, one_byte_opcode, test_operand, multibyte_opcode,
  second_byte, three_byte_38, three_byte_3a, op_38, op_3a, two_byte_opcode,
}
use flow_scanner.Decoder.Operand.{
  sib_disp, sib_byte, addressing, mod_rm, mod_rm_byte, rex_w_sizes, decode_operands, has_extension,
}
use flow_scanner.Decoder.Insn.{Insn, insn_of, check_insn, decode_insn}
use flow_scanner.Decoder.Bounds.{Advances, scan_prefixes-Advances}

-- The loop assigns no other types, and leaves 0 only behind a VEX or an EVEX prefix.
abbrev pub Counted : Bool → InstructionType → Type 0
Counted vector no_type = vector ≡ true
Counted vector not_valid = ⊥
Counted vector ud = ⊥
Counted vector evex = ⊥
Counted vector vex = ⊥
Counted vector _ = Unit

one_byte_type-Counted : (v : Bool) (op : ℕ) → Counted v (one_byte_type op)
unfolding one_byte_type
one_byte_type-Counted v op = ground arith

two_byte_type-Counted : (v : Bool) (op : ℕ) → Counted v (two_byte_type op)
unfolding two_byte_type
two_byte_type-Counted v op = ground arith

three_byte_38_type-Counted : (v : Bool) (op : ℕ) → Counted v (three_byte_38_type op)
unfolding three_byte_38_type
three_byte_38_type-Counted v op = ground arith

three_byte_3a_type-Counted : (v : Bool) (op : ℕ) → Counted v (three_byte_3a_type op)
unfolding three_byte_3a_type
three_byte_3a_type-Counted v op = ground arith

ext_type-Counted :
    (v : Bool) (op r : ℕ) (t : InstructionType) → Counted v t → Counted v (ext_type op r t)
unfolding ext_type
ext_type-Counted v op r t h = ground arith

abbrev vector_of : Prefixes → Bool
vector_of p = p.evex_pref_found || p.vex_pref_found

abbrev CountedOperands : Bool → Operands → Type 0
CountedOperands v o = Counted v o.instruction_type

one_byte_opcode-Counted :
    (mem : Memory) (limit : ℕ) (p : Prefixes) (op : ℕ) (v : Bool)
    → Post (λ r. CountedOperands v r.1) (one_byte_opcode mem limit p op)
unfolding one_byte_opcode test_operand check_cross_page
one_byte_opcode-Counted mem limit p op v = ground (arith, one_byte_type-Counted v op)

multibyte_opcode-Counted :
    (mem : Memory) (limit ddef cur : ℕ) (v : Bool)
    → Post (λ r. CountedOperands v r.1) (multibyte_opcode mem limit ddef cur)
unfolding multibyte_opcode second_byte three_byte_38 three_byte_3a op_38 op_3a two_byte_opcode
    check_cross_page
multibyte_opcode-Counted mem limit ddef cur v = ground (
  arith,
  two_byte_type-Counted v (byte mem cur),
  three_byte_38_type-Counted v (byte mem (cur + 1)),
  three_byte_3a_type-Counted v (byte mem (cur + 1)),
)

vex_opcode-Counted :
    (p : Prefixes) (op : ℕ) (v : Bool)
    → v ≡ true
    → Post (λ r. CountedOperands v r.1) (vex_opcode p op)
unfolding vex_opcode
vex_opcode-Counted p op v h = ground arith

evex_opcode-Counted :
    (p : Prefixes) (op : ℕ) (v : Bool)
    → v ≡ true
    → Post (λ r. CountedOperands v r.1) (evex_opcode p op)
unfolding evex_opcode
evex_opcode-Counted p op v h = ground arith

opcode-Counted :
    (mem : Memory) (limit : ℕ) (p : Prefixes) (op : ℕ)
    → Post (λ r. CountedOperands (vector_of p) r.1) (opcode mem limit p op)
unfolding opcode
opcode-Counted mem limit p op = ground (
  arith,
  vex_opcode-Counted p op (vector_of p),
  evex_opcode-Counted p op (vector_of p),
  multibyte_opcode-Counted mem limit p.ddef (p.cur + 1) (vector_of p),
  one_byte_opcode-Counted mem limit p op (vector_of p),
)

decode_opcode-Counted :
    (mem : Memory) (limit : ℕ) (p : Prefixes)
    → Post (λ r. CountedOperands (vector_of p) r.1) (decode_opcode mem limit p)
unfolding decode_opcode check_cross_page
decode_opcode-Counted mem limit p =
    Post-bind (λ _. Unit) (λ r. CountedOperands (vector_of p) r.1) (check_cross_page limit p.cur) _
      (ground arith) (λ _ _. opcode-Counted mem limit p (byte mem p.cur))

addressing-Counted :
    (mem : Memory) (limit mdef m : ℕ) (o : Operands) (v : Bool)
    → CountedOperands v o
    → Post (CountedOperands v) (addressing mem limit mdef m o)
unfolding addressing sib_byte sib_disp check_cross_page
addressing-Counted mem limit mdef m o v h = ground arith

mod_rm-Counted :
    (mem : Memory) (limit mdef m : ℕ) (o : Operands) (v : Bool)
    → CountedOperands v o
    → Post (CountedOperands v) (mod_rm mem limit mdef m o)
unfolding mod_rm
mod_rm-Counted mem limit mdef m o v h =
    Post-if (CountedOperands v) (has_extension o && ltb 7 (modrm_reg_opcode m)) error
      (addressing mem limit mdef m refined) (λ _. tt)
      (λ _. addressing-Counted mem limit mdef m refined v (refined-Counted (has_extension o)))
  where
    refined : Operands
    refined = record o {
      instruction_type =
          if has_extension o
          then ext_type o.op (modrm_reg_opcode m) o.instruction_type
          else o.instruction_type;
    }

    refined-Counted :
        (b : Bool)
        → Counted v (
            if b then ext_type o.op (modrm_reg_opcode m) o.instruction_type else o.instruction_type)
    refined-Counted true = ext_type-Counted v o.op (modrm_reg_opcode m) o.instruction_type h
    refined-Counted false = h

mod_rm_byte-Counted :
    (mem : Memory) (limit mdef : ℕ) (o : Operands) (v : Bool)
    → CountedOperands v o
    → Post (CountedOperands v) (mod_rm_byte mem limit mdef o)
unfolding mod_rm_byte check_cross_page
mod_rm_byte-Counted mem limit mdef o v h =
    Post-bind (λ _. Unit) (CountedOperands v) (check_cross_page limit (o.cur + 1)) _ (ground arith)
      (λ _ _.
        mod_rm-Counted mem limit mdef (byte mem (o.cur + 1)) (record o { cur = o.cur + 1 }) v h)

rex_w_sizes-Counted :
    (v w : Bool) (o : Operands) → CountedOperands v o → CountedOperands v (rex_w_sizes w o)
unfolding rex_w_sizes
rex_w_sizes-Counted v w o h = ground arith

decode_operands-Counted :
    (mem : Memory) (limit mdef : ℕ) (w : Bool) (r : Route) (o : Operands) (v : Bool)
    → CountedOperands v o
    → Post (CountedOperands v) (decode_operands mem limit mdef w r o)
unfolding decode_operands
decode_operands-Counted mem limit mdef w Route.check_mod_rm_byte o v h =
    Post-bind (CountedOperands v) (CountedOperands v) (mod_rm_byte mem limit mdef o) _
      (mod_rm_byte-Counted mem limit mdef o v h) (λ o' k. rex_w_sizes-Counted v w o' k)
decode_operands-Counted mem limit mdef w Route.no_modrm_byte o v h = rex_w_sizes-Counted v w o h
decode_operands-Counted mem limit mdef w Route.next o v h = h

check_insn-Counted :
    (limit : ℕ) (i : Insn)
    → Counted i.vector i.instruction_type
    → Post (λ j. Counted j.vector j.instruction_type) (check_insn limit i)
unfolding check_insn check_cross_page
check_insn-Counted limit i h = ground arith

pub decode_insn-Counted :
    (mem : Memory) (limit cur : ℕ)
    → cur < limit
    → Post (λ i. Counted i.vector i.instruction_type) (decode_insn mem limit cur)
unfolding decode_insn insn_of no_prefixes
decode_insn-Counted mem limit cur h =
    Post-bind (Advances (no_prefixes cur)) P _ _
      (scan_prefixes-Advances (limit - cur) mem limit (no_prefixes cur) h (omega arith))
      λ p a.
        Post-bind {A = Route × Operands} (λ r. CountedOperands (vector_of p) r.1) P _ _
          (decode_opcode-Counted mem limit p)
          λ r b.
            Post-bind (CountedOperands (vector_of p)) P _ _
              (decode_operands-Counted mem limit p.mdef p.rex_w_found r.0 r.1 (vector_of p) b)
              λ o c. check_insn-Counted limit (insn_of p o) c
  where
    P : Insn → Type 0
    P i = Counted i.vector i.instruction_type
