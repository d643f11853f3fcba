-- ===== src/Mappings/Denied.antt =====
-- What the loop of do_mmap_ret_handler_f of libs/fprobes/fprober_mmap.c leaves of the pages of a new
-- mapping.

use flow_scanner.Prelude.{ℕ, ◌/◌, ◌≡◌, ◌≢◌, true, ◌⊎◌, some, none}
use flow_scanner.Paging.Walk.{PageTables, Slot, entry, walk, mapping}
use flow_scanner.Paging.Layers.{IsLayered}
use flow_scanner.Mappings.Pages.{is_denied}

-- What get_user_pages does with the page tables: they stay in layers, what is mapped stays mapped by
-- the same entry, and no other page is mapped by it.
pub record IsMaterialise (level : ℕ → ℕ) (pgd : ℕ) (materialise : ℕ → PageTables → PageTables)
    : Type 0 where
  pub layers :
      (v : ℕ) (tables : PageTables)
      → IsLayered level tables
      → IsLayered level (materialise v tables)
  pub mapped :
      (v at : ℕ) (tables : PageTables) (slot : Slot)
      → mapping (walk tables pgd at) ≡ some slot
      → (mapping (walk (materialise v tables) pgd at) ≡ some slot)
        × (entry (materialise v tables) slot ≡ entry tables slot)
  pub unmapped :
      (v at : ℕ) (tables : PageTables)
      → v / 4096 ≢ at / 4096
      → mapping (walk tables pgd at) ≡ none
      → mapping (walk (materialise v tables) pgd at) ≡ none

-- The page is not mapped, or its entry is denied.
abbrev IsSettled : PageTables → (pgd at : ℕ) → Type 0
IsSettled tables pgd at =
    (mapping (walk tables pgd at) ≡ none)
    ⊎ ((slot : Slot) × (mapping (walk tables pgd at) ≡ some slot)
        × (is_denied (entry tables slot) ≡ true))
