-- ===== src/Tables.antt =====
-- libs/ld.h: the opcode tables, and the tests that the decoder makes of them.
pub mod Mask
pub mod Prefix
pub mod OneByte
pub mod OneByteType
pub mod TwoByte
pub mod TwoByteType
pub mod ThreeByte
pub mod Vex
pub mod Evex
pub mod Tests
