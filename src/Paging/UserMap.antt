-- ===== src/Paging/UserMap.antt =====
-- What `map_user_address` makes of an address of the kernel.

use flow_scanner.Prelude.{
  negation, ℕ, zero, suc, ◌+◌, ◌*◌, ◌%◌, ◌^◌, ◌≤◌, ◌<◌, ◌≡◌, ◌≢◌, refl, sym, ap, Bool, true, false,
  arith, ◌⊎◌, lt→ltb, Bool-cases, inl, inr, not,
}
use flow_scanner.Paging.Walk.{
  PageTables, Slot, pml4_index, pdp_index, pde_index, pte_index, valid, lh_mapping, pt_address,
  walk, walk_pdp, walk_pde, walk_pte, page_table_address,
}
use flow_scanner.Paging.Flip.{
  store, first_entry, get_free_pdg_offset, leads_to_same, map_user_address,
}
use flow_scanner.Paging.Layers.{IsLayered}
use flow_scanner.Paging.Change.{store_same, store_cases}

first_entry_cases :
    (count i : ℕ) (test : ℕ → Bool)
    → (first_entry count i test ≡ i + count)
      ⊎ ((test (first_entry count i test) ≡ true) × (first_entry count i test < i + count))
unfolding first_entry
first_entry_cases zero i test = inl (omega arith)
first_entry_cases (suc count) i test = elim (Bool-cases (test i)) [
  | inl e ↦ inr (rw (e, first_entry, e) refl, rw (e, first_entry) (omega arith))
  | inr e ↦
      let later : first_entry count (i + 1) test ≡ first_entry (suc count) i test =
        rw (e, first_entry) refl in
      rw (sym later) (elim (first_entry_cases count (i + 1) test) [
        | inl f ↦ inl (omega arith)
        | inr (t, l) ↦ inr (t, omega arith)
      ])
]

module _ (tables : PageTables) (slot : Slot) (w : ℕ) where
  store_elsewhere : (t i : ℕ) → t ≢ slot.table → store tables slot w t i ≡ tables t i
  store_elsewhere t i ne = elim (store_cases tables slot w t i) [
    | inl (et, ei, e) ↦ absurd (ne et)
    | inr e ↦ e
  ]

module _ (level : ℕ → ℕ) (tables : PageTables) (layered : IsLayered level tables) (slot : Slot)
    (w : ℕ) (top : level slot.table ≡ 4) (a b : ℕ) where
  below : (t i : ℕ) → level t ≤ 3 → store tables slot w t i ≡ tables t i
  below t i low = store_elsewhere tables slot w t i (λ e. absurd (omega (arith, ap level e)))

  walk_pte_below :
      (pte : ℕ)
      → level pte ≡ 1
      → pte_index a ≡ pte_index b
      → walk_pte (store tables slot w) pte a ≡ walk_pte tables pte b
  unfolding walk_pte
  walk_pte_below pte l e = let same = below pte (pte_index b) (omega arith) in rw (e, same) refl

  walk_pde_below :
      (pde : ℕ)
      → level pde ≡ 2
      → pde_index a ≡ pde_index b
      → pte_index a ≡ pte_index b
      → walk_pde (store tables slot w) pde a ≡ walk_pde tables pde b
  unfolding walk_pde
  walk_pde_below pde l e f =
      let same = below pde (pde_index b) (omega arith) in
      let here = tables pde (pde_index b) in
      elim (Bool-cases (valid here)) [
        | inl v ↦ elim (Bool-cases (lh_mapping here)) [
          | inl big ↦ rw (e, same, v, big) refl
          | inr big ↦
              let next = layered.below_pde pde (pde_index b) l v big in
              rw (e, same, v, big) (walk_pte_below (pt_address here) next f)
        ]
        | inr v ↦ rw (e, same, v) refl
      ]

  walk_pdp_below :
      (pdp : ℕ)
      → level pdp ≡ 3
      → pdp_index a ≡ pdp_index b
      → pde_index a ≡ pde_index b
      → pte_index a ≡ pte_index b
      → walk_pdp (store tables slot w) pdp a ≡ walk_pdp tables pdp b
  unfolding walk_pdp
  walk_pdp_below pdp l e f g =
      let same = below pdp (pdp_index b) (omega arith) in
      let here = tables pdp (pdp_index b) in
      elim (Bool-cases (valid here)) [
        | inl v ↦
            let next = layered.below_pdp pdp (pdp_index b) l v in
            rw (e, same, v) (walk_pde_below (pt_address here) next f g)
        | inr v ↦ rw (e, same, v) refl
      ]

module _ (tables : PageTables) (pgd kernel_addr : ℕ) where
  pub offset_cases :
      ((get_free_pdg_offset tables pgd kernel_addr < 255)
        × (leads_to_same tables pgd kernel_addr (get_free_pdg_offset tables pgd kernel_addr)
            ≡ true))
      ⊎ (((get_free_pdg_offset tables pgd kernel_addr < 255)
            × (valid (tables pgd (get_free_pdg_offset tables pgd kernel_addr)) ≡ false))
          ⊎ (get_free_pdg_offset tables pgd kernel_addr ≡ 255))
  unfolding get_free_pdg_offset
  offset_cases =
      let test = leads_to_same tables pgd kernel_addr in
      let same = first_entry 255 0 test in
      let free_test : ℕ → Bool = λ i. not (valid (tables pgd i)) in
      let free = first_entry 255 0 free_test in
      elim (first_entry_cases 255 0 test) [
        | inl e ↦ rw e (elim (first_entry_cases 255 0 free_test) [
          | inl f ↦ inr (inr f)
          | inr (t, l) ↦ inr (inl (l, negation (valid (tables pgd free)) t))
        ])
        | inr (t, l) ↦ rw (lt→ltb same 255 l) (inl (l, t))
      ]

  pub offset_small : get_free_pdg_offset tables pgd kernel_addr ≤ 255
  offset_small = elim offset_cases [
    | inl (l, _) ↦ omega arith
    | inr (inl (l, _)) ↦ omega arith
    | inr (inr e) ↦ omega arith
  ]

user_indices :
    (kernel_addr off : ℕ)
    → off ≤ 255
    → (pml4_index (kernel_addr % 2 ^ 39 + off * 2 ^ 39) ≡ off)
      × (pdp_index (kernel_addr % 2 ^ 39 + off * 2 ^ 39) ≡ pdp_index kernel_addr)
      × (pde_index (kernel_addr % 2 ^ 39 + off * 2 ^ 39) ≡ pde_index kernel_addr)
      × (pte_index (kernel_addr % 2 ^ 39 + off * 2 ^ 39) ≡ pte_index kernel_addr)
user_indices kernel_addr off h = (omega arith, omega arith, omega arith, omega arith)

module _ (level : ℕ → ℕ) (tables : PageTables) (layered : IsLayered level tables)
    (cr3 kernel_addr : ℕ) (top : level (page_table_address cr3) ≡ 4) where
  -- If the page tables stand in four layers, the walk of the address that map_user_address answers
  -- ends, behind it, where the walk of the kernel address ended before, and the address lies below
  -- 2 ^ 47.
  pub map_user_address_reaches :
      (walk
          (map_user_address tables cr3 kernel_addr).0
          (page_table_address cr3)
          (map_user_address tables cr3 kernel_addr).1
        ≡ walk tables (page_table_address cr3) kernel_addr)
      × ((map_user_address tables cr3 kernel_addr).1 < 2 ^ 47)
  unfolding map_user_address walk
  map_user_address_reaches =
      let pgd = page_table_address cr3 in
      let off = get_free_pdg_offset tables pgd kernel_addr in
      let small : off ≤ 255 = offset_small tables pgd kernel_addr in
      let slot : Slot = record { table = pgd; index = off } in
      let w = tables pgd (pml4_index kernel_addr) in
      let user = kernel_addr % 2 ^ 39 + off * 2 ^ 39 in
      let (i4, i3, i2, i1) = user_indices kernel_addr off small in
      let written : store tables slot w pgd off ≡ w = store_same tables slot w in
      let reaches : walk (store tables slot w) pgd user ≡ walk tables pgd kernel_addr =
        elim (Bool-cases (valid w)) [
          | inl v ↦
              rw (i4, written, v)
                (walk_pdp_below level tables layered slot w top user kernel_addr (pt_address w)
                  (layered.below_pgd pgd (pml4_index kernel_addr) top v) i3 i2 i1)
          | inr v ↦ rw (i4, written, v) refl
        ] in
      (reaches, omega arith)
