-- ===== src/Decoder/Branches.antt =====
-- Which opcodes end a zone, against the opcode map of the Intel manuals.

use flow_scanner.Prelude.{
  ℕ, ◌<◌, ◌≡◌, refl, Bool, true, false, not, ◌&&◌, ◌||◌, arith, leb, ◌==◌, if◌then◌else◌, Option,
  some, none, all_below, all_below_sound,
}
use flow_scanner.Tables.OneByteType.{
  check_one_byte_arith, check_one_byte_jcc, check_one_byte_jmp, check_one_byte_ret,
  check_one_byte_call, check_one_byte_control, check_one_byte_logical, check_one_byte_memory,
  check_one_byte_system,
}
use flow_scanner.Tables.Evex.{check_op_code_ext}
use flow_scanner.Tables.TwoByteType.{
  check_two_byte_arithmetic, check_two_byte_jcc, check_two_byte_control, check_two_byte_logical,
  check_two_byte_memory, check_two_byte_system,
}
use flow_scanner.Tables.Tests.{check_f6_f7, check_80_81_83, check_ff}
use flow_scanner.Instruction.{InstructionType}
use flow_scanner.Decoder.Classify.{one_byte_type, two_byte_type, ext_type}
use flow_scanner.Disassemble.{found_value}

-- The jumps, calls and returns of the one-byte opcode map, in 64-bit mode: short conditional jumps,
-- LOOPNE, LOOPE, LOOP and JRCXZ; JMP; CALL; near and far returns and IRET. Software interrupts, and
-- in the two-byte map SYSCALL, SYSENTER and the like, are not among them.
abbrev pub transfer_opcode : ℕ → Option ℕ
transfer_opcode op =
    if leb 0x70 op && leb op 0x7f || leb 0xe0 op && leb op 0xe3
    then some 17
    else if op == 0xe9 || op == 0xeb
    then some 5
    else if op == 0xe8
    then some 3
    else if op == 0xc2 || op == 0xc3 || op == 0xca || op == 0xcb || op == 0xcf
    then some 9
    else none

-- Near conditional jumps.
abbrev pub transfer_opcode_0f : ℕ → Option ℕ
transfer_opcode_0f op = if leb 0x80 op && leb op 0x8f then some 17 else none

-- Under opcode FF the extensions 2 and 3 are calls, 4 and 5 are jumps.
abbrev pub transfer : ℕ → ℕ → Option ℕ
transfer op r =
    if op == 0xff
    then (if r == 2 || r == 3 then some 3 else if r == 4 || r == 5 then some 5 else none)
    else transfer_opcode op

-- LOOPNE, LOOPE and LOOP.
abbrev pub is_loop : ℕ → Bool
is_loop op = leb 0xe0 op && leb op 0xe2

-- What the decoder finds of them.
abbrev pub found_transfer : (op r : ℕ) → Option ℕ
found_transfer op r = if is_loop op then none else transfer op r

abbrev same_value : Option ℕ → Option ℕ → Bool
same_value none none = true
same_value (some a) (some b) = a == b
same_value _ _ = false

same_value→eq : (a b : Option ℕ) → same_value a b ≡ true → a ≡ b
same_value→eq a b h = ground arith

-- The type of a one-byte opcode whose ModR/M byte, if it has one, holds the extension `r`.
abbrev pub refined_type : ℕ → ℕ → InstructionType
refined_type op r =
    if check_op_code_ext op then ext_type op r (one_byte_type op) else one_byte_type op

one_byte_table :
    all_below 256
      (λ op. all_below 8 (λ r. same_value (found_value (refined_type op r)) (found_transfer op r)))
    ≡ true
unfolding all_below one_byte_type found_value ext_type check_op_code_ext check_80_81_83 check_f6_f7
    check_ff check_one_byte_arith check_one_byte_jcc check_one_byte_jmp check_one_byte_ret
    check_one_byte_call check_one_byte_control check_one_byte_logical check_one_byte_memory
    check_one_byte_system
one_byte_table = refl

two_byte_table :
    all_below 256 (λ op. same_value (found_value (two_byte_type op)) (transfer_opcode_0f op)) ≡ true
unfolding all_below two_byte_type found_value check_two_byte_arithmetic check_two_byte_jcc
    check_two_byte_control check_two_byte_logical check_two_byte_memory check_two_byte_system
two_byte_table = refl

-- A one-byte opcode with the ModR/M extension `r` ends a zone, with the value of its kind, exactly
-- where the opcode map of 64-bit mode has a jump, a call or a return, except for LOOPNE, LOOPE and
-- LOOP, which do not end it. A two-byte opcode 0F op does exactly where there is a conditional jump.
-- Software interrupts and the instructions that enter or leave the kernel by other ways end no zone.
pub transfer_opcodes :
    (op r : ℕ)
    → op < 256
    → r < 8
    → (found_value (refined_type op r) ≡ (if is_loop op then none else transfer op r))
      × (found_value (two_byte_type op) ≡ transfer_opcode_0f op)
transfer_opcodes op r h k = (
  same_value→eq _ _ (
      all_below_sound 8 (λ x. same_value (found_value (refined_type op x)) (found_transfer op x)) r
        (all_below_sound 256 _ op one_byte_table h) k),
  same_value→eq _ _ (
      all_below_sound 256 (λ x. same_value (found_value (two_byte_type x)) (transfer_opcode_0f x))
        op two_byte_table h),
)

not-true : (b : Bool) → not b ≡ true → b ≡ false
not-true b h = ground arith

f6_f7_table : all_below 256 (λ op. not (check_f6_f7 op)) ≡ true
unfolding all_below check_f6_f7
f6_f7_table = refl

-- The test for the opcodes F6 and F7 holds of no byte at all, so the extension refines the type of
-- neither: NOT and NEG stay ARITHMETIC, the type of the opcode alone.
pub f6_f7_not_refined :
    (v r : ℕ) (t : InstructionType)
    → v < 256
    → (check_f6_f7 v ≡ false) × (ext_type 0xf6 r t ≡ t) × (ext_type 0xf7 r t ≡ t)
unfolding ext_type check_80_81_83 check_f6_f7 check_ff
f6_f7_not_refined v r t h = (
  not-true (check_f6_f7 v) (all_below_sound 256 (λ x. not (check_f6_f7 x)) v f6_f7_table h),
  refl,
  refl,
)
