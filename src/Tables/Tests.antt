-- ===== src/Tables/Tests.antt =====
-- The tests of libs/ld.h that compare a byte with constants.
use flow_scanner.Prelude.{ℕ, ◌/◌, ◌^◌, Bool, not, ◌||◌, ◌==◌, bit_and}

unfoldable pub check_vex_2 : ℕ → Bool
check_vex_2 v = v == 0xC5

unfoldable pub check_vex_3 : ℕ → Bool
check_vex_3 v = v == 0xC4

unfoldable pub check_evex : ℕ → Bool
check_evex v = v == 0x62

unfoldable pub check_rex : ℕ → Bool
check_rex v = v / 2 ^ 4 == 0x4

unfoldable pub check_rexw : ℕ → Bool
check_rexw v = not (bit_and v 0x08 == 0)

unfoldable pub check_prefix_66 : ℕ → Bool
check_prefix_66 v = v == 0x66

unfoldable pub check_prefix_67 : ℕ → Bool
check_prefix_67 v = v == 0x67

unfoldable pub check_0f : ℕ → Bool
check_0f v = v == 0x0f

unfoldable pub check_38 : ℕ → Bool
check_38 v = v == 0x38

unfoldable pub check_3a : ℕ → Bool
check_3a v = v == 0x3a

-- Moves that handle an imm64.
unfoldable pub check_imm64 : ℕ → Bool
check_imm64 v = bit_and v 0xf8 == 0xb8

-- Moves that handle a moffs64.
unfoldable pub check_off64 : ℕ → Bool
check_off64 v = v == 0xa1 || v == 0xa3

unfoldable pub check_test : ℕ → Bool
check_test v = v == 0xf6 || v == 0xf7

unfoldable pub check_mem67 : ℕ → Bool
check_mem67 v = v == 0xa0 || v == 0xa3

unfoldable pub check_data66_2 : ℕ → Bool
check_data66_2 v = bit_and v 0xf0 == 0x80

unfoldable pub check_vex_0f3a_no_imm8 : ℕ → Bool
check_vex_0f3a_no_imm8 v = v == 0x4a || v == 0x4b || v == 0x4c

unfoldable pub check_vex_0f38_imm8 : ℕ → Bool
check_vex_0f38_imm8 v = v == 0x13

unfoldable pub check_vex_0f_imm8 : ℕ → Bool
check_vex_0f_imm8 v =
    v == 0x70
    || v == 0x71
    || v == 0x72
    || v == 0x73
    || v == 0xc2
    || v == 0xc4
    || v == 0xc5
    || v == 0xc6

unfoldable pub check_m_mmmm_field : ℕ → ℕ
check_m_mmmm_field v = bit_and v 0x1F

unfoldable pub check_evex_0f_imm8 : ℕ → Bool
check_evex_0f_imm8 v =
    v == 0x70
    || v == 0x71
    || v == 0x72
    || v == 0x73
    || v == 0xc2
    || v == 0xc4
    || v == 0xc5
    || v == 0xc6

unfoldable pub check_mm_field : ℕ → ℕ
check_mm_field v = bit_and v 0x03

unfoldable pub vex_no_modrm : ℕ → Bool
vex_no_modrm v = v == 0x77

unfoldable pub check_80_81_83 : ℕ → Bool
check_80_81_83 v = bit_and v 0xf8 == 0x80

unfoldable pub check_f6_f7 : ℕ → Bool
check_f6_f7 v = bit_and v 0xfc == 0xf6

unfoldable pub check_ff : ℕ → Bool
check_ff v = v == 0xff
