-- ===== src/Decoder/SameBytes.antt =====
-- Two memories with the same bytes: the opcode and the operands that the decoder reads from them.
use flow_scanner.Prelude.{
  ℕ, ◌+◌, ◌≤◌, ◌<◌, ◌≡◌, refl, inl, inr, Bool, arith, ap, ◌∙◌, Flow, ok, ◌>>◌, Bool-cases, leb,
  tests,
}
use flow_scanner.Instruction.{InstructionType}
use flow_scanner.Decoder.Prefix.{Memory, byte, Prefixes}
use flow_scanner.Decoder.Classify.{test_dsize}
use flow_scanner.Decoder.Vex.{Operands, Route}
use flow_scanner.Decoder.Opcode.{
  check_cross_page, three_byte_38, three_byte_3a, op_38, op_3a, second_byte, multibyte_opcode,
  test_operand, one_byte_opcode, opcode, decode_opcode,
}
use flow_scanner.Decoder.Operand.{
  sib_disp, sib_byte, addressing, mod_rm, mod_rm_byte, decode_operands,
}

-- The two memories hold the same bytes from `start` to `limit`.
abbrev pub Agree : ℕ → ℕ → Memory → Memory → Type 0
Agree start limit mem mem' = (a : ℕ) → start ≤ a → a < limit → mem a ≡ mem' a

module _ (start limit : ℕ) (mem mem' : Memory) (same : Agree start limit mem mem') where
  pub byte_same : (a : ℕ) → start ≤ a → a < limit → byte mem a ≡ byte mem' a
  unfolding byte
  byte_same a h k = rw (same a h k)

  -- A read behind a check against the limit.
  guarded {ℓ} :
      {A : Type ℓ} (c : ℕ) (m m' : Flow A)
      → (c < limit → m ≡ m')
      → (check_cross_page limit c >> m) ≡ (check_cross_page limit c >> m')
  unfolding check_cross_page
  guarded c m m' k = elim (Bool-cases (leb limit c)) [
    | inl e ↦ rw e
    | inr e ↦ rw e (k (omega tests))
  ]

  read {ℓ} :
      {A : Type ℓ} (c : ℕ) (f : ℕ → Flow A)
      → start ≤ c
      → (check_cross_page limit c >> f (byte mem c)) ≡ (check_cross_page limit c >> f (byte mem' c))
  read c f h = guarded c (f (byte mem c)) (f (byte mem' c)) (λ k. ap f (byte_same c h k))

  three_byte_38_same :
      (cur : ℕ) → start ≤ cur → three_byte_38 mem limit cur ≡ three_byte_38 mem' limit cur
  unfolding three_byte_38
  three_byte_38_same cur h = read cur (op_38 cur) h

  three_byte_3a_same :
      (cur : ℕ) → start ≤ cur → three_byte_3a mem limit cur ≡ three_byte_3a mem' limit cur
  unfolding three_byte_3a
  three_byte_3a_same cur h = read cur (op_3a cur) h

  second_byte_same :
      (ddef cur op : ℕ)
      → start ≤ cur
      → second_byte mem limit ddef cur op ≡ second_byte mem' limit ddef cur op
  unfolding second_byte
  second_byte_same ddef cur op h =
      rw (three_byte_38_same (cur + 1) (omega arith), three_byte_3a_same (cur + 1) (omega arith))

  multibyte_opcode_same :
      (ddef cur : ℕ)
      → start ≤ cur
      → multibyte_opcode mem limit ddef cur ≡ multibyte_opcode mem' limit ddef cur
  unfolding multibyte_opcode
  multibyte_opcode_same ddef cur h =
      read cur (second_byte mem limit ddef cur) h ∙ rw (second_byte_same ddef cur (byte mem' cur) h)

  test_operand_same :
      (ddef cur op : ℕ)
      → start ≤ cur
      → test_operand mem limit ddef cur op ≡ test_operand mem' limit ddef cur op
  unfolding test_operand
  test_operand_same ddef cur op h =
      rw (read (cur + 1) (λ b. ok (test_dsize ddef op b)) (omega arith))

  one_byte_opcode_same :
      (p : Prefixes) (op : ℕ)
      → start ≤ p.cur
      → one_byte_opcode mem limit p op ≡ one_byte_opcode mem' limit p op
  unfolding one_byte_opcode
  one_byte_opcode_same p op h = rw (test_operand_same p.ddef p.cur op h)

  opcode_same :
      (p : Prefixes) (op : ℕ) → start ≤ p.cur → opcode mem limit p op ≡ opcode mem' limit p op
  unfolding opcode
  opcode_same p op h =
      rw (multibyte_opcode_same p.ddef (p.cur + 1) (omega arith), one_byte_opcode_same p op h)

  pub decode_opcode_same :
      (p : Prefixes) → start ≤ p.cur → decode_opcode mem limit p ≡ decode_opcode mem' limit p
  unfolding decode_opcode
  decode_opcode_same p h =
      read p.cur (opcode mem limit p) h ∙ rw (opcode_same p (byte mem' p.cur) h)

  sib_byte_same :
      (mdef m : ℕ) (o : Operands)
      → start ≤ o.cur
      → sib_byte mem limit mdef m o ≡ sib_byte mem' limit mdef m o
  unfolding sib_byte
  sib_byte_same mdef m o h =
      rw (
        read (o.cur + 1) (λ b. ok (sib_disp mdef m (record o { cur = o.cur + 1 }) b)) (omega arith))

  addressing_same :
      (mdef m : ℕ) (o : Operands)
      → start ≤ o.cur
      → addressing mem limit mdef m o ≡ addressing mem' limit mdef m o
  unfolding addressing
  addressing_same mdef m o h =
      let with_disp : (n : ℕ)
          → sib_byte mem limit mdef m (record o { msize = n })
            ≡ sib_byte mem' limit mdef m (record o { msize = n }) =
        λ n. sib_byte_same mdef m (record o { msize = n }) h in
      simp with_disp

  mod_rm_same :
      (mdef m : ℕ) (o : Operands)
      → start ≤ o.cur
      → mod_rm mem limit mdef m o ≡ mod_rm mem' limit mdef m o
  unfolding mod_rm
  mod_rm_same mdef m o h =
      let with_type : (t : InstructionType)
          → addressing mem limit mdef m (record o { instruction_type = t })
            ≡ addressing mem' limit mdef m (record o { instruction_type = t }) =
        λ t. addressing_same mdef m (record o { instruction_type = t }) h in
      simp with_type

  mod_rm_byte_same :
      (mdef : ℕ) (o : Operands)
      → start ≤ o.cur
      → mod_rm_byte mem limit mdef o ≡ mod_rm_byte mem' limit mdef o
  unfolding mod_rm_byte
  mod_rm_byte_same mdef o h =
      read (o.cur + 1) (λ b. mod_rm mem limit mdef b (record o { cur = o.cur + 1 })) (omega arith)
      ∙ rw (mod_rm_same mdef (byte mem' (o.cur + 1)) (record o { cur = o.cur + 1 }) (omega arith))

  pub decode_operands_same :
      (mdef : ℕ) (w : Bool) (r : Route) (o : Operands)
      → start ≤ o.cur
      → decode_operands mem limit mdef w r o ≡ decode_operands mem' limit mdef w r o
  unfolding decode_operands
  decode_operands_same mdef w Route.check_mod_rm_byte o h = rw (mod_rm_byte_same mdef o h)
  decode_operands_same mdef w _ o h = refl
