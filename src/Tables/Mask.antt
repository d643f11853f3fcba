-- ===== src/Tables/Mask.antt =====
-- BITMASK32 and CHECK_TABLE of libs/ld.h.
use flow_scanner.Prelude.{ℕ, ◌/◌, ◌%◌, ◌*◌, ◌^◌, bit_or, Bool, List, ◌==◌, get_or}

infixl 40 ◌or◌
abbrev ◌or◌ : ℕ → ℕ → ℕ
a or b = bit_or a b

infix 60 ◌<<◌
abbrev ◌<<◌ : ℕ → ℕ → ℕ
b << k = b * 2 ^ k

-- One word of a table from its 32 bits.
pub bitmask32 :
    (b00 b01 b02 b03 b04 b05 b06 b07 b08 b09 b0a b0b b0c b0d b0e b0f b10 b11 b12 b13 b14 b15 b16 b17
      b18 b19 b1a b1b b1c b1d b1e b1f : ℕ)
    → ℕ
bitmask32 b00 b01 b02 b03 b04 b05 b06 b07 b08 b09 b0a b0b b0c b0d b0e b0f b10 b11 b12 b13 b14 b15
      b16 b17 b18 b19 b1a b1b b1c b1d b1e b1f =
    (b00 << 0)
    or (b01 << 1)
    or (b02 << 2)
    or (b03 << 3)
    or (b04 << 4)
    or (b05 << 5)
    or (b06 << 6)
    or (b07 << 7)
    or (b08 << 8)
    or (b09 << 9)
    or (b0a << 10)
    or (b0b << 11)
    or (b0c << 12)
    or (b0d << 13)
    or (b0e << 14)
    or (b0f << 15)
    or (b10 << 16)
    or (b11 << 17)
    or (b12 << 18)
    or (b13 << 19)
    or (b14 << 20)
    or (b15 << 21)
    or (b16 << 22)
    or (b17 << 23)
    or (b18 << 24)
    or (b19 << 25)
    or (b1a << 26)
    or (b1b << 27)
    or (b1c << 28)
    or (b1d << 29)
    or (b1e << 30)
    or (b1f << 31)

-- ((t[v >> 5] >> (v & 0x1f)) & 1), as a truth value.
unfoldable pub check_table : List ℕ → ℕ → Bool
unfolding bitmask32
check_table t v = get_or t (v / 32) 0 / 2 ^ (v % 32) % 2 == 1
