-- ===== src/Decoder/Moffs.antt =====
-- The moves A1 and A2 between an accumulator and an address in the instruction itself.
use flow_scanner.Prelude.{
  ℕ, suc, ◌+◌, ◌-◌, ◌<◌, ◌≡◌, refl, ◌⊎◌, inl, inr, arith, false, ok, leb, lt→leb,
}
use flow_scanner.Tables.Prefix.{check_prefix}
use flow_scanner.Tables.OneByte.{
  check_modrm, check_one_byte_ud, check_data1, check_data2, check_data66,
}
use flow_scanner.Tables.Tests.{check_rex, check_0f, check_test, check_mem67}
use flow_scanner.Tables.OneByteType.{
  check_one_byte_arith, check_one_byte_jcc, check_one_byte_jmp, check_one_byte_ret,
  check_one_byte_call, check_one_byte_control, check_one_byte_logical, check_one_byte_memory,
}
use flow_scanner.Instruction.{memory}
use flow_scanner.Decoder.Classify.{one_byte_type, one_byte_dsize, one_byte_msize}
use flow_scanner.Decoder.Prefix.{
  Memory, byte, no_prefixes, prefix_step, prefix_test, scan_round, scan_prefixes,
}
use flow_scanner.Decoder.Vex.{no_modrm_byte}
use flow_scanner.Decoder.Opcode.{
  check_cross_page, decode_opcode, opcode, one_byte_opcode, test_operand, one_byte_operands,
}
use flow_scanner.Decoder.Operand.{rex_w_sizes, decode_operands}
use flow_scanner.Decoder.Insn.{Insn, insn_of, check_insn, decode_insn}

-- What the decoder's tables say of an opcode that is an instruction of one byte.
record Plain (op : ℕ) : Type 0 where
  no_prefix : check_prefix op ≡ false
  no_rex : check_rex op ≡ false
  no_0f : check_0f op ≡ false
  valid : check_one_byte_ud op ≡ false
  no_test : check_test op ≡ false
  no_modrm : check_modrm op ≡ false
  no_data : (d : ℕ) → one_byte_dsize d op ≡ 0
  no_address : (d : ℕ) → one_byte_msize d op ≡ 0

a1-Plain : Plain 0xa1
unfolding check_prefix check_rex check_0f check_one_byte_ud check_test check_modrm one_byte_dsize
    one_byte_msize check_data1 check_data2 check_data66 check_mem67
a1-Plain = record {
  no_prefix = refl;
  no_rex = refl;
  no_0f = refl;
  valid = refl;
  no_test = refl;
  no_modrm = refl;
  no_data = λ d. refl;
  no_address = λ d. refl;
}

a2-Plain : Plain 0xa2
unfolding check_prefix check_rex check_0f check_one_byte_ud check_test check_modrm one_byte_dsize
    one_byte_msize check_data1 check_data2 check_data66 check_mem67
a2-Plain = record {
  no_prefix = refl;
  no_rex = refl;
  no_0f = refl;
  valid = refl;
  no_test = refl;
  no_modrm = refl;
  no_data = λ d. refl;
  no_address = λ d. refl;
}

module _ (mem : Memory) (cur op : ℕ) (p : Plain op) (e : byte mem cur ≡ op) where
  plain_byte :
      (fuel limit : ℕ)
      → scan_prefixes (suc fuel) mem limit (no_prefixes cur)
        ≡ ok (record (no_prefixes cur) { prefix_byte = op })
  unfolding scan_prefixes prefix_step prefix_test scan_round no_prefixes
  plain_byte fuel limit = rw (e, p.no_prefix, p.no_rex)

  plain_opcode :
      (limit : ℕ)
      → cur < limit
      → decode_opcode mem limit (record (no_prefixes cur) { prefix_byte = op })
        ≡ ok (no_modrm_byte, one_byte_operands 4 4 cur op 0)
  unfolding decode_opcode opcode one_byte_opcode test_operand no_prefixes check_cross_page
  plain_opcode limit h = rw (lt→leb limit cur h, e, p.no_0f, p.valid, p.no_test, p.no_modrm)

  -- The instruction is the opcode byte alone.
  abbrev plain : Insn
  plain = record {
    cur = cur + 1;
    first_op = cur;
    num_prefixes = 0;
    vector = false;
    instruction_type = one_byte_type op;
  }

  plain_insn : (limit : ℕ) → cur < limit → decode_insn mem limit cur ≡ ok plain
  unfolding decode_insn decode_operands rex_w_sizes insn_of check_insn no_prefixes
  plain_insn limit h =
      let k : limit - cur ≡ suc (limit - cur - 1) = omega arith in
      let scan : scan_prefixes (limit - cur) mem limit (no_prefixes cur)
          ≡ ok (record (no_prefixes cur) { prefix_byte = op }) =
        rw k (plain_byte (limit - cur - 1) limit) in
      let a : leb limit (cur + (0 + (0 + 0) + 1) - 1) ≡ false = lt→leb _ _ (omega arith) in
      rw (scan, plain_opcode limit h, p.no_data, p.no_address, a)

-- If the byte at `cur`, inside the zone, is A1 or A2, a move between an accumulator and an address
-- written in the instruction, the decoder takes a memory instruction of that byte alone: the bytes
-- of the address are left to be decoded as the next instructions.
pub moffs_not_consumed :
    (mem : Memory) (limit cur : ℕ)
    → cur < limit
    → (byte mem cur ≡ 0xa1) ⊎ (byte mem cur ≡ 0xa2)
    → (i : Insn) × (decode_insn mem limit cur ≡ ok i)
      × (i.cur ≡ cur + 1)
      × (i.instruction_type ≡ memory)
moffs_not_consumed mem limit cur h (inl e) = (
  _,
  plain_insn mem cur 0xa1 a1-Plain e limit h,
  refl,
  unfold one_byte_type check_one_byte_arith check_one_byte_jcc check_one_byte_jmp check_one_byte_ret
        check_one_byte_call check_one_byte_control check_one_byte_logical check_one_byte_memory in
      refl,
)
moffs_not_consumed mem limit cur h (inr e) = (
  _,
  plain_insn mem cur 0xa2 a2-Plain e limit h,
  refl,
  unfold one_byte_type check_one_byte_arith check_one_byte_jcc check_one_byte_jmp check_one_byte_ret
        check_one_byte_call check_one_byte_control check_one_byte_logical check_one_byte_memory in
      refl,
)
