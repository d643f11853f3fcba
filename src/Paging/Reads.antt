-- ===== src/Paging/Reads.antt =====
-- What the reading functions answer, by where the walk ends.
use flow_scanner.Prelude.{
  ℕ, ◌≡◌, ◌≢◌, refl, sym, true, arith, ◌⊎◌, Bool-cases, inl, inr, some, none, some_eq, Option-cases,
}
use flow_scanner.Paging.Bits.{test_bit}
use flow_scanner.Paging.Walk.{
  PageTables, Slot, entry, pml4_index, pdp_index, pde_index, pte_index, valid, lh_mapping,
  pt_address, Walk, unmapped, large, absent, page, walk, walk_pdp, walk_pde, walk_pte,
  page_table_address, no_map, is_mapped, mapping, is_mapped_addr, bit_value, is_bit_set_on_other,
  is_bit_set, get_page_table_entry, get_page_table_entry_force,
}

pub is_bit_set_on_other_mapped :
    (tables : PageTables) (pgd vaddr bit_position : ℕ) (slot : Slot)
    → mapping (walk tables pgd vaddr) ≡ some slot
    → is_bit_set_on_other tables pgd vaddr bit_position
      ≡ bit_value (test_bit (entry tables slot) bit_position)
unfolding is_bit_set_on_other
is_bit_set_on_other_mapped tables pgd vaddr bit_position slot e = rw (e, is_bit_set_on_other) refl

module _ (tables : PageTables) (cr3 vaddr : ℕ) where
  pub is_mapped_addr_unmapped :
      mapping (walk tables (page_table_address cr3) vaddr) ≡ none
      → is_mapped_addr tables cr3 vaddr ≡ no_map
  unfolding is_mapped_addr
  is_mapped_addr_unmapped e = rw (e, is_mapped_addr) refl

  pub is_mapped_addr_mapped :
      (slot : Slot)
      → mapping (walk tables (page_table_address cr3) vaddr) ≡ some slot
      → is_mapped_addr tables cr3 vaddr ≡ is_mapped
  unfolding is_mapped_addr
  is_mapped_addr_mapped slot e = rw (e, is_mapped_addr) refl

  pub is_bit_set_mapped :
      (bit_position : ℕ) (slot : Slot)
      → mapping (walk tables (page_table_address cr3) vaddr) ≡ some slot
      → is_bit_set tables cr3 vaddr bit_position
        ≡ bit_value (test_bit (entry tables slot) bit_position)
  unfolding is_bit_set
  is_bit_set_mapped bit_position slot e =
      is_bit_set_on_other_mapped tables (page_table_address cr3) vaddr bit_position slot e

-- The entry that the functions find has VALID set.
module _ (tables : PageTables) (vaddr : ℕ) (slot : Slot) where
  walk_pte-valid :
      (pte : ℕ) → mapping (walk_pte tables pte vaddr) ≡ some slot → valid (entry tables slot) ≡ true
  unfolding mapping walk_pte
  walk_pte-valid pte e =
      let found : Slot = record { table = pte; index = pte_index vaddr } in
      elim (Bool-cases (valid (entry tables found))) [
        | inl v ↦
            let same : some found ≡ some slot = rw v at e in
            let eq : found ≡ slot = some_eq same in rw (sym eq) v
        | inr v ↦ let same : none ≡ some slot = rw v at e in cc
      ]

  walk_pde-valid :
      (pde : ℕ) → mapping (walk_pde tables pde vaddr) ≡ some slot → valid (entry tables slot) ≡ true
  unfolding mapping walk_pde
  walk_pde-valid pde e =
      let found : Slot = record { table = pde; index = pde_index vaddr } in
      elim (Bool-cases (valid (entry tables found))) [
        | inl v ↦ elim (Bool-cases (lh_mapping (entry tables found))) [
          | inl b ↦
              let same : some found ≡ some slot = rw (v, b) at e in
              let eq : found ≡ slot = some_eq same in rw (sym eq) v
          | inr b ↦ walk_pte-valid (pt_address (entry tables found)) (rw (v, b) at e)
        ]
        | inr v ↦ let same : none ≡ some slot = rw v at e in cc
      ]

  walk_pdp-valid :
      (pdp : ℕ) → mapping (walk_pdp tables pdp vaddr) ≡ some slot → valid (entry tables slot) ≡ true
  unfolding mapping walk_pdp
  walk_pdp-valid pdp e =
      let w = tables pdp (pdp_index vaddr) in
      elim (Bool-cases (valid w)) [
        | inl v ↦ walk_pde-valid (pt_address w) (rw v at e)
        | inr v ↦ let same : none ≡ some slot = rw v at e in cc
      ]

  pub walk-valid :
      (pgd : ℕ) → mapping (walk tables pgd vaddr) ≡ some slot → valid (entry tables slot) ≡ true
  unfolding mapping walk
  walk-valid pgd e =
      let w = tables pgd (pml4_index vaddr) in
      elim (Bool-cases (valid w)) [
        | inl v ↦ walk_pdp-valid (pt_address w) (rw v at e)
        | inr v ↦ let same : none ≡ some slot = rw v at e in cc
      ]

valid-nonzero : (w : ℕ) → valid w ≡ true → w ≢ 0
unfolding test_bit
valid-nonzero w v z = ground arith

module _ (tables : PageTables) (cr3 vaddr : ℕ) where
  force_mapped :
      (slot : Slot) (ends : Walk)
      → walk tables (page_table_address cr3) vaddr ≡ ends
      → mapping ends ≡ some slot
      → get_page_table_entry_force tables cr3 vaddr ≡ entry tables slot
  unfolding mapping get_page_table_entry_force
  force_mapped slot unmapped e h = cc
  force_mapped slot (large found) e h = rw (e, get_page_table_entry_force, some_eq h) refl
  force_mapped slot (absent found) e h = cc
  force_mapped slot (page found) e h = rw (e, get_page_table_entry_force, some_eq h) refl

  -- `get_page_table_entry` answers 0 if the address is not mapped. Otherwise it answers the entry,
  -- which is not 0 and whose bits are those that `is_bit_set` answers, and
  -- `get_page_table_entry_force` answers the same.
  pub get_page_table_entry_reads :
      ((is_mapped_addr tables cr3 vaddr ≡ no_map)
        × (get_page_table_entry tables cr3 vaddr ≡ 0)
        × ((k : ℕ) → is_bit_set tables cr3 vaddr k ≡ no_map))
      ⊎ ((is_mapped_addr tables cr3 vaddr ≡ is_mapped)
          × (get_page_table_entry tables cr3 vaddr ≢ 0)
          × ((k : ℕ)
              → is_bit_set tables cr3 vaddr k
                ≡ bit_value (test_bit (get_page_table_entry tables cr3 vaddr) k))
          × (get_page_table_entry_force tables cr3 vaddr ≡ get_page_table_entry tables cr3 vaddr))
  unfolding get_page_table_entry is_bit_set is_bit_set_on_other
  get_page_table_entry_reads =
      let pgd = page_table_address cr3 in
      elim (Option-cases (mapping (walk tables pgd vaddr))) [
        | inl e ↦ inl (
          is_mapped_addr_unmapped tables cr3 vaddr e,
          rw (e, get_page_table_entry) refl,
          λ k. rw (e, is_bit_set, is_bit_set_on_other) refl,
        )
        | inr (slot, e) ↦
            let got : get_page_table_entry tables cr3 vaddr ≡ entry tables slot =
              rw (e, get_page_table_entry) refl in
            inr (
              is_mapped_addr_mapped tables cr3 vaddr slot e,
              rw got (valid-nonzero (entry tables slot) (walk-valid tables vaddr slot pgd e)),
              λ k. rw got (is_bit_set_mapped tables cr3 vaddr k slot e),
              rw got (force_mapped slot (walk tables pgd vaddr) refl e),
            )
      ]
