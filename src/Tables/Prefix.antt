-- ===== src/Tables/Prefix.antt =====
-- The bit tables of libs/ld.h for Prefix, word for word: bit i of a table speaks of the byte i.
use flow_scanner.Prelude.{ℕ, Bool, List, [], ◌∷◌}
use flow_scanner.Tables.Mask.{bitmask32, check_table}

unfoldable pub prefix_t : List ℕ
prefix_t =
    bitmask32 0 0 0 0 0 0 0 0 0 0 0 0 0 0 0 0 0 0 0 0 0 0 0 0 0 0 0 0 0 0 0 0
    ∷ bitmask32 0 0 0 0 0 0 1 0 0 0 0 0 0 0 1 0 0 0 0 0 0 0 1 0 0 0 0 0 0 0 1 0
    ∷ bitmask32 0 0 0 0 0 0 0 0 0 0 0 0 0 0 0 0 0 0 0 0 0 0 0 0 0 0 0 0 0 0 0 0
    ∷ bitmask32 0 0 1 0 1 1 1 1 0 0 0 0 0 0 0 0 0 0 0 0 0 0 0 0 0 0 0 0 0 0 0 0
    ∷ bitmask32 0 0 0 0 0 0 0 0 0 0 0 0 0 0 0 0 0 0 0 0 0 0 0 0 0 0 0 1 0 0 0 0
    ∷ bitmask32 0 0 0 0 0 0 0 0 0 0 0 0 0 0 0 0 0 0 0 0 0 0 0 0 0 0 0 0 0 0 0 0
    ∷ bitmask32 0 0 0 0 1 1 0 0 0 0 0 0 0 0 0 0 0 0 0 0 0 0 0 0 0 0 0 0 0 0 0 0
    ∷ bitmask32 0 0 0 0 0 0 0 0 0 0 0 0 0 0 0 0 1 0 1 1 0 0 0 0 0 0 0 0 0 0 0 0
    ∷ []

unfoldable pub check_prefix : ℕ → Bool
unfolding check_table prefix_t
check_prefix v = check_table prefix_t v
