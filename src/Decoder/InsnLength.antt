-- ===== src/Decoder/InsnLength.antt =====
-- The length of a decoded instruction, against MAX_INSTRUCTION_SIZE of libs/instruction.h.
use flow_scanner.Prelude.{
  ℕ, ◌+◌, ◌-◌, ◌≤◌, ◌<◌, ◌≡◌, refl, Bool, true, false, ◌&&◌, not, arith, Post, Post-bind, all_below,
  all_below_sound, if◌then◌else◌, ◌==◌, leb, Bool-cases, inl, inr, ◌⊎◌, ==_iff,
}
use flow_scanner.Decoder.Length.{
  one_byte_dsize-test, two_byte_dsize-le, SmallSizes, scan_prefixes_small, test_dsize-le,
}
use flow_scanner.Tables.OneByte.{check_one_byte_ud, check_modrm}
use flow_scanner.Tables.Tests.{check_mem67, check_test, check_imm64, check_off64}
use flow_scanner.Instruction.{max_instruction_size}
use flow_scanner.Decoder.Prefix.{Memory, byte, Prefixes, no_prefixes}
use flow_scanner.Decoder.Classify.{one_byte_msize, test_dsize}
use flow_scanner.Decoder.Vex.{Operands, Route, route_of, vex_opcode, evex_opcode}
use flow_scanner.Decoder.Opcode.{
  check_cross_page, decode_opcode, opcode, one_byte_opcode, one_byte_operands, test_operand,
  multibyte_opcode, second_byte, three_byte_38, three_byte_3a, op_38, op_3a, two_byte_opcode,
}
use flow_scanner.Decoder.Operand.{
  sib_disp, sib_byte, addressing, mod_rm, mod_rm_byte, rex_w_sizes, decode_operands,
}
use flow_scanner.Decoder.Insn.{Insn, insn_of, check_insn, decode_insn}

-- Where the last opcode byte of an instruction may stand, by whether it has more than one.
abbrev OpcodeAt : ℕ → Bool → ℕ → Type 0
OpcodeAt first true cur = cur ≤ first + 2
OpcodeAt first false cur = cur ≤ first

-- What the opcode leaves to the operands.
abbrev Room : ℕ → Route → Operands → Type 0
Room first Route.check_mod_rm_byte o =
    (o.dsize ≤ 4) × (o.msize ≡ 0) × OpcodeAt first o.multibyte o.cur
Room first _ o = (o.dsize ≤ 4) × (o.msize ≤ 4) × OpcodeAt first o.multibyte o.cur

-- An opcode with a ModR/M byte has no address operand of its own.
no_moffs_table : all_below 256 (λ op. not (check_modrm op && check_mem67 op)) ≡ true
unfolding all_below check_modrm check_mem67
no_moffs_table = refl

implied : (a b : Bool) → a ≡ true → not (a && b) ≡ true → b ≡ false
implied a b h k = ground arith

no_moffs : (op : ℕ) → check_modrm op ≡ true → op < 256 → check_mem67 op ≡ false
no_moffs op h k =
    implied (check_modrm op) (check_mem67 op) h
      (all_below_sound 256 (λ x. not (check_modrm x && check_mem67 x)) op no_moffs_table k)

one_byte-Room :
    (p : Prefixes) (op test : ℕ)
    → SmallSizes p
    → op < 256
    → test ≤ 4
    → (check_test op ≡ false) ⊎ (check_test op ≡ true)
    → (check_test op ≡ false → test ≡ 0)
    → Room p.cur (route_of (check_modrm op)) (one_byte_operands p.ddef p.mdef p.cur op test)
unfolding one_byte_msize
one_byte-Room p op test s h t c k = elim (Bool-cases (check_modrm op)) [
  | inl e ↦
      rw (e, no_moffs op e h)
        (one_byte_dsize-test p.ddef op test s.operand h t c k, refl, omega arith)
  | inr e ↦ rw e (one_byte_dsize-test p.ddef op test s.operand h t c k, ground arith, omega arith)
]

vex-Room : (p : Prefixes) (op : ℕ) → Post (λ r. Room p.cur r.0 r.1) (vex_opcode p op)
unfolding vex_opcode
vex-Room p op = ground arith

evex-Room : (p : Prefixes) (op : ℕ) → Post (λ r. Room p.cur r.0 r.1) (evex_opcode p op)
unfolding evex_opcode
evex-Room p op = ground arith

byte-lt : (mem : Memory) (a : ℕ) → byte mem a < 256
unfolding byte
byte-lt mem a = omega arith

multibyte-Room :
    (mem : Memory) (limit ddef cur : ℕ)
    → ddef ≤ 4
    → Post (λ r. Room cur r.0 r.1) (multibyte_opcode mem limit ddef (cur + 1))
unfolding multibyte_opcode second_byte three_byte_38 three_byte_3a op_38 op_3a two_byte_opcode
    check_cross_page
multibyte-Room mem limit ddef cur h =
    ground (arith, two_byte_dsize-le ddef (byte mem (cur + 1)) h (byte-lt mem (cur + 1)))

one_byte_opcode-Room :
    (mem : Memory) (limit : ℕ) (p : Prefixes) (op : ℕ)
    → SmallSizes p
    → op < 256
    → Post (λ r. Room p.cur r.0 r.1) (one_byte_opcode mem limit p op)
unfolding one_byte_opcode test_operand check_cross_page
one_byte_opcode-Room mem limit p op s h = elim (Bool-cases (check_one_byte_ud op)) [
  | inl u ↦ rw u tt
  | inr u ↦ elim (Bool-cases (check_test op)) [
    | inl e ↦ elim (Bool-cases (leb limit (p.cur + 1))) [
      | inl l ↦ rw (u, e, l) tt
      | inr l ↦
          rw (u, e, l)
            (one_byte-Room p op (test_dsize p.ddef op (byte mem (p.cur + 1))) s h
              (test_dsize-le p.ddef op (byte mem (p.cur + 1)) s.operand) (inr e) (λ z. absurd cc))
    ]
    | inr e ↦ rw (u, e) (one_byte-Room p op 0 s h (omega arith) (inl e) (λ z. refl))
  ]
]

decode_opcode-Room :
    (mem : Memory) (limit : ℕ) (p : Prefixes)
    → SmallSizes p
    → Post (λ r. Room p.cur r.0 r.1) (decode_opcode mem limit p)
unfolding decode_opcode opcode check_cross_page
decode_opcode-Room mem limit p s = ground (
  arith,
  vex-Room p (byte mem p.cur),
  evex-Room p (byte mem p.cur),
  multibyte-Room mem limit p.ddef p.cur s.operand,
  one_byte_opcode-Room mem limit p (byte mem p.cur) s (byte-lt mem p.cur),
)

mod_rm_size :
    (mem : Memory) (limit mdef m : ℕ) (o : Operands)
    → o.msize ≡ 0
    → Post
        (λ q.
          (q.cur ≤ o.cur + 1) × (q.msize ≤ 4) × (q.dsize ≡ o.dsize) × (q.multibyte ≡ o.multibyte))
        (mod_rm mem limit mdef m o)
unfolding mod_rm addressing sib_byte sib_disp check_cross_page
mod_rm_size mem limit mdef m o h = ground arith

imm64_off64 : (op : ℕ) → check_off64 op ≡ true → check_imm64 op ≡ false
unfolding check_off64 check_imm64
imm64_off64 op h = elim (Bool-cases (op == 0xa1)) [
  | inl e ↦ rw ((==_iff op 0xa1).0 e) refl
  | inr e ↦ elim (Bool-cases (op == 0xa3)) [
    | inl f ↦ rw ((==_iff op 0xa3).0 f) refl
    | inr f ↦ absurd (ground arith)
  ]
]

rex_w_size :
    (w : Bool) (o : Operands)
    → o.dsize ≤ 4
    → o.msize ≤ 4
    → ((rex_w_sizes w o).cur ≡ o.cur)
      × ((rex_w_sizes w o).dsize + (rex_w_sizes w o).msize ≤ (if o.multibyte then 8 else 12))
unfolding rex_w_sizes
rex_w_size w o h k = ground (arith, imm64_off64 o.op)

-- Where an instruction whose opcode starts at `first` may end.
abbrev Ends : ℕ → Operands → Type 0
Ends first o = o.cur + (o.msize + o.dsize + 1) ≤ first + max_instruction_size

opcode_at : (first cur : ℕ) (b : Bool) → OpcodeAt first b cur → cur ≤ first + (if b then 2 else 0)
opcode_at first cur true h = h
opcode_at first cur false h = omega arith

budget : (b : Bool) → (if b then 2 else 0) + (if b then 8 else 12) ≤ 12
budget b = ground arith

at_most_two : (b : Bool) → (if b then 2 else 0) ≤ 2
at_most_two b = ground arith

rex_w-Ends :
    (first : ℕ) (w : Bool) (o : Operands)
    → o.cur ≤ first + (if o.multibyte then 2 else 0) + 2
    → o.dsize ≤ 4
    → o.msize ≤ 4
    → Ends first (rex_w_sizes w o)
rex_w-Ends first w o h d m = omega (arith, rex_w_size w o d m, budget o.multibyte)

mod_rm_byte_size :
    (mem : Memory) (limit mdef : ℕ) (o : Operands)
    → o.msize ≡ 0
    → Post
        (λ q.
          (q.cur ≤ o.cur + 2) × (q.msize ≤ 4) × (q.dsize ≡ o.dsize) × (q.multibyte ≡ o.multibyte))
        (mod_rm_byte mem limit mdef o)
unfolding mod_rm_byte check_cross_page
mod_rm_byte_size mem limit mdef o h =
    ground
      (arith, mod_rm_size mem limit mdef (byte mem (o.cur + 1)) (record o { cur = o.cur + 1 }) h)

operands-Ends :
    (mem : Memory) (limit mdef first : ℕ) (w : Bool) (r : Route) (o : Operands)
    → Room first r o
    → Post (Ends first) (decode_operands mem limit mdef w r o)
unfolding decode_operands
operands-Ends mem limit mdef first w Route.check_mod_rm_byte o (d, m, a) =
    Post-bind
      (λ q. (q.cur ≤ o.cur + 2) × (q.msize ≤ 4) × (q.dsize ≡ o.dsize) × (q.multibyte ≡ o.multibyte))
      (Ends first) (mod_rm_byte mem limit mdef o) _ (mod_rm_byte_size mem limit mdef o m)
      λ q (x, y, z, b).
        rex_w-Ends first w q (rw b (omega (arith, opcode_at first o.cur o.multibyte a, x)))
          (omega arith) y
operands-Ends mem limit mdef first w Route.no_modrm_byte o (d, m, a) =
    rex_w-Ends first w o (omega (arith, opcode_at first o.cur o.multibyte a)) d m
operands-Ends mem limit mdef first w Route.next o (d, m, a) =
    omega (arith, opcode_at first o.cur o.multibyte a, at_most_two o.multibyte)

checked_length :
    (limit : ℕ) (i : Insn)
    → i.cur ≤ i.first_op + max_instruction_size
    → Post (λ j. j.cur ≤ j.first_op + max_instruction_size) (check_insn limit i)
unfolding check_insn
checked_length limit i h = ground arith

-- An instruction is, behind its prefixes, at most MAX_INSTRUCTION_SIZE (15) bytes long.
pub decode_insn_length :
    (mem : Memory) (limit cur : ℕ)
    → cur < limit
    → Post (λ i. i.cur ≤ i.first_op + max_instruction_size) (decode_insn mem limit cur)
unfolding decode_insn no_prefixes insn_of check_insn check_cross_page
decode_insn_length mem limit cur h =
    Post-bind SmallSizes (λ i. i.cur ≤ i.first_op + max_instruction_size) _ _
      (scan_prefixes_small (limit - cur) mem limit (no_prefixes cur) h (omega arith)
        (record { operand = omega arith; address = omega arith }))
      λ p s.
        Post-bind {A = Route × Operands} (λ r. Room p.cur r.0 r.1)
          (λ i. i.cur ≤ i.first_op + max_instruction_size) _ _ (decode_opcode-Room mem limit p s)
          λ r k.
            Post-bind (Ends p.cur) (λ i. i.cur ≤ i.first_op + max_instruction_size) _ _
              (operands-Ends mem limit p.mdef p.cur p.rex_w_found r.0 r.1 k)
              λ o e. checked_length limit (insn_of p o) e
