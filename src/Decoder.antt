-- ===== src/Decoder.antt =====
-- One round of the loop of `disassemble_code` in libs/zone.c: the decoder of one x86-64 instruction.
pub mod Prefix
pub mod Classify
pub mod Vex
pub mod Opcode
pub mod Operand
pub mod Insn
pub mod Bounds
pub mod Moffs
pub mod Length
pub mod InsnLength
pub mod Branches
pub mod Types
pub mod SameBytes
pub mod Locality
