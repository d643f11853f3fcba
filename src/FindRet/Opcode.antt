-- ===== src/FindRet/Opcode.antt =====
-- The opcodes that the decoder of `find_ret` finds, against those of `disassemble_code`.
use flow_scanner.Prelude.{
  ℕ, ◌+◌, ◌<◌, ◌≡◌, refl, Bool, true, false, not, arith, all_below, all_below_sound, Flow, ok,
  cross_page, error, stuck, ◌>>=◌,
}
use flow_scanner.Instruction.{InstructionType}
use flow_scanner.Decoder.Prefix.{Memory, byte, Prefixes}
use flow_scanner.Decoder.Classify.{
  one_byte_type, two_byte_type, ext_type, ext_80_81_83, ext_f6_f7, ext_ff,
}
use flow_scanner.Decoder.Vex.{Operands, Route, vex_opcode, evex_opcode}
use flow_scanner.Decoder.Opcode.{
  check_cross_page, decode_opcode, opcode, one_byte_opcode, test_operand, multibyte_opcode,
  three_byte_38, three_byte_3a, op_38, op_3a, two_byte_opcode, second_byte,
}
use flow_scanner.FindRet.{is_ret}
use flow_scanner.FindRet.Decode.{
  one_byte_function_type, two_byte_function_type, two_byte_opcode_unchecked, second_byte_unchecked,
  one_byte_opcode_unchecked, opcode_unchecked,
}
use flow_scanner.Tables.OneByteType.{
  check_one_byte_arith, check_one_byte_jcc, check_one_byte_jmp, check_one_byte_ret,
  check_one_byte_call, check_one_byte_control, check_one_byte_logical, check_one_byte_memory,
  check_one_byte_system,
}

-- `n` does what `m` does where `m` does not meet the limit; `R` relates what they fall through with.
abbrev pub Follows {κ ℓ} :
    {S : Type κ} {T : Type ℓ} (R : S → T → Type 0) (m : Flow S) (n : Flow T) → Type 0
Follows R (ok a) (ok b) = R a b
Follows R cross_page n = Unit
Follows R error error = Unit
Follows R _ _ = ⊥

module _ {κ ℓ μ ν} {S : Type κ} {T : Type ℓ} {S' : Type μ} {T' : Type ν} (R : S → T → Type 0)
    (Q : S' → T' → Type 0) where
  pub Follows-bind :
      (m : Flow S) (n : Flow T) (f : S → Flow S') (g : T → Flow T')
      → Follows R m n
      → ((a : S) (b : T) → R a b → Follows Q (f a) (g b))
      → Follows Q (m >>= f) (n >>= g)
  Follows-bind (ok a) (ok b) f g h k = k a b h
  Follows-bind (ok a) cross_page f g h k = absurd h
  Follows-bind (ok a) error f g h k = absurd h
  Follows-bind (ok a) stuck f g h k = absurd h
  Follows-bind cross_page n f g h k = tt
  Follows-bind error (ok b) f g h k = absurd h
  Follows-bind error cross_page f g h k = absurd h
  Follows-bind error error f g h k = tt
  Follows-bind error stuck f g h k = absurd h
  Follows-bind stuck n f g h k = absurd h

-- The same operands of an instruction that is a return in both or in neither.
pub record SameOperands (o o' : Operands) : Type 0 where
  pub cur : o'.cur ≡ o.cur
  pub op : o'.op ≡ o.op
  pub multibyte : o'.multibyte ≡ o.multibyte
  pub dsize : o'.dsize ≡ o.dsize
  pub msize : o'.msize ≡ o.msize
  pub return : is_ret o'.instruction_type ≡ is_ret o.instruction_type

abbrev pub SameOpcode : (r r' : Route × Operands) → Type 0
SameOpcode r r' = (r'.0 ≡ r.0) × SameOperands r.1 r'.1

abbrev same_bool : Bool → Bool → Bool
same_bool true b = b
same_bool false b = not b

same_bool→eq : (a b : Bool) → same_bool a b ≡ true → a ≡ b
same_bool→eq a b h = ground arith

return_table :
    all_below 256 (λ op. same_bool (is_ret (one_byte_function_type op)) (is_ret (one_byte_type op)))
    ≡ true
unfolding all_below one_byte_type one_byte_function_type check_one_byte_arith check_one_byte_jcc
    check_one_byte_jmp check_one_byte_ret check_one_byte_call check_one_byte_control
    check_one_byte_logical check_one_byte_memory check_one_byte_system
return_table = refl

one_byte_return :
    (op : ℕ) → op < 256 → is_ret (one_byte_function_type op) ≡ is_ret (one_byte_type op)
one_byte_return op h = same_bool→eq _ _ (all_below_sound 256 _ op return_table h)

two_byte_return : (op : ℕ) → is_ret (two_byte_function_type op) ≡ is_ret (two_byte_type op)
unfolding two_byte_function_type two_byte_type
two_byte_return op = ground arith

pub ext_type_return :
    (op r : ℕ) (t t' : InstructionType)
    → is_ret t' ≡ is_ret t
    → is_ret (ext_type op r t') ≡ is_ret (ext_type op r t)
unfolding ext_type ext_80_81_83 ext_f6_f7 ext_ff
ext_type_return op r t t' h = ground arith

one_byte_alike :
    (mem : Memory) (limit : ℕ) (p : Prefixes) (op : ℕ)
    → op < 256
    → Follows SameOpcode (one_byte_opcode mem limit p op) (one_byte_opcode_unchecked mem p op)
unfolding one_byte_opcode one_byte_opcode_unchecked test_operand check_cross_page
one_byte_alike mem limit p op h = ground (arith, one_byte_return op h)

second_byte_alike :
    (mem : Memory) (limit ddef cur op : ℕ)
    → Follows SameOpcode (second_byte mem limit ddef cur op) (second_byte_unchecked mem ddef cur op)
unfolding second_byte second_byte_unchecked three_byte_38 three_byte_3a op_38 op_3a two_byte_opcode
    two_byte_opcode_unchecked check_cross_page
second_byte_alike mem limit ddef cur op = ground (arith, two_byte_return op)

vex_alike : (p : Prefixes) (op : ℕ) → Follows SameOpcode (vex_opcode p op) (vex_opcode p op)
unfolding vex_opcode
vex_alike p op = ground arith

evex_alike : (p : Prefixes) (op : ℕ) → Follows SameOpcode (evex_opcode p op) (evex_opcode p op)
unfolding evex_opcode
evex_alike p op = ground arith

pub byte-lt : (mem : Memory) (a : ℕ) → byte mem a < 256
unfolding byte
byte-lt mem a = omega arith

pub decode_opcode_alike :
    (mem : Memory) (limit : ℕ) (p : Prefixes)
    → Follows SameOpcode (decode_opcode mem limit p) (opcode_unchecked mem p (byte mem p.cur))
unfolding decode_opcode opcode opcode_unchecked multibyte_opcode check_cross_page
decode_opcode_alike mem limit p = ground (
  arith,
  vex_alike p (byte mem p.cur),
  evex_alike p (byte mem p.cur),
  second_byte_alike mem limit p.ddef (p.cur + 1) (byte mem (p.cur + 1)),
  one_byte_alike mem limit p (byte mem p.cur) (byte-lt mem p.cur),
)
