-- ===== src/Instruction.antt =====
-- libs/instruction.h: instruction types, operand sizes, and the fields of the ModR/M and SIB bytes.
use flow_scanner.Prelude.{ℕ, ◌/◌, ◌^◌, bit_and}

-- `no_type` is the value 0 that a local `instruction_type` starts with.
pub data InstructionType : Type 0 where
  no_type : InstructionType
  arithmetic jcc jmp ret call control not_valid ud logical memory system other : InstructionType
  evex vex : InstructionType

abbrev pub byte_size : ℕ
byte_size = 1

abbrev pub word_size : ℕ
word_size = 2

abbrev pub dword_size : ℕ
dword_size = 4

-- (x & 0xC0) >> 6
unfoldable pub modrm_mod : ℕ → ℕ
modrm_mod x = bit_and x 0xC0 / 2 ^ 6

-- (x & 0x38) >> 3
unfoldable pub modrm_reg_opcode : ℕ → ℕ
modrm_reg_opcode x = bit_and x 0x38 / 2 ^ 3

unfoldable pub modrm_r_m : ℕ → ℕ
modrm_r_m x = bit_and x 0x07

unfoldable pub sib_base : ℕ → ℕ
sib_base x = bit_and x 0x07

abbrev pub indirect : ℕ
indirect = 0x0

abbrev pub indirect_disp8 : ℕ
indirect_disp8 = 0x1

abbrev pub indirect_disp32 : ℕ
indirect_disp32 = 0x2

abbrev pub register : ℕ
register = 0x3

abbrev pub eip_disp32 : ℕ
eip_disp32 = 0x05

abbrev pub sib : ℕ
sib = 0x04

abbrev pub sib_displacement : ℕ
sib_displacement = 0x05

abbrev pub max_instruction_size : ℕ
max_instruction_size = 15
