-- ===== src/Paging/Loops.antt =====
-- What the loops over the pages of vm areas keep, and what they reach.

use flow_scanner.Prelude.{
  ℕ, zero, suc, ◌+◌, ◌*◌, ◌<◌, ◌≡◌, refl, Bool, true, arith, inl, inr, some, none, Option-cases,
}
use flow_scanner.Paging.Walk.{PageTables, Slot, entry, walk, mapping}
use flow_scanner.Paging.Flip.{store, change_entry, change_pages}
use flow_scanner.Paging.Layers.{
  IsLayered, Similar, unchanged-Similar, then-Similar, Similar-IsLayered, walk-Similar,
}
use flow_scanner.Paging.Change.{
  Keeps, Preserves, store_same, store_cases, store-Similar, walk-IsLeaf,
}

module _ (change : ℕ → ℕ) (tables : PageTables) (pgd vaddr : ℕ) where
  pub change_entry_idle :
      mapping (walk tables pgd vaddr) ≡ none → change_entry change tables pgd vaddr ≡ tables
  unfolding change_entry
  change_entry_idle e = rw (e, change_entry) refl

  pub change_entry_at :
      (slot : Slot)
      → mapping (walk tables pgd vaddr) ≡ some slot
      → change_entry change tables pgd vaddr ≡ store tables slot (change (entry tables slot))
  unfolding change_entry
  change_entry_at slot e = rw (e, change_entry) refl

module _ (level : ℕ → ℕ) (change : ℕ → ℕ) (keeps : Keeps change) (pgd : ℕ)
    (top : level pgd ≡ 4) where
  pub change_entry-Similar :
      (tables : PageTables) (vaddr : ℕ)
      → IsLayered level tables
      → Similar level tables (change_entry change tables pgd vaddr)
  change_entry-Similar tables vaddr layered =
      elim (Option-cases (mapping (walk tables pgd vaddr))) [
        | inl e ↦ rw (change_entry_idle change tables pgd vaddr e) (unchanged-Similar level tables)
        | inr (slot, e) ↦ rw (change_entry_at change tables pgd vaddr slot e) (
            store-Similar level tables slot (change (entry tables slot))
              (walk-IsLeaf layered pgd vaddr slot top e) (keeps (entry tables slot)).0
              (keeps (entry tables slot)).1)
      ]

  pub change_pages-Similar :
      (pages : ℕ) (tables : PageTables) (address : ℕ)
      → IsLayered level tables
      → Similar level tables (change_pages pages change tables pgd address)
  unfolding change_pages
  change_pages-Similar zero tables address layered = unchanged-Similar level tables
  change_pages-Similar (suc pages) tables address layered =
      let first = change_entry-Similar tables address layered in
      then-Similar first (
        change_pages-Similar pages (change_entry change tables pgd address) (address + 4096)
          (Similar-IsLayered first layered))

-- An entry with a property that the change keeps still has it behind the loop.
module _ (p : ℕ → Bool) (change : ℕ → ℕ) (preserves : Preserves p change) (pgd t i : ℕ) where
  pub change_entry_stays :
      (tables : PageTables) (vaddr : ℕ)
      → p (tables t i) ≡ true
      → p (change_entry change tables pgd vaddr t i) ≡ true
  change_entry_stays tables vaddr h = elim (Option-cases (mapping (walk tables pgd vaddr))) [
    | inl e ↦ rw (change_entry_idle change tables pgd vaddr e) h
    | inr (slot, e) ↦ elim (store_cases tables slot (change (entry tables slot)) t i) [
      | inl (et, ei, written) ↦
          let old : p (entry tables slot) ≡ true = rw (et, ei) at h in
          rw (change_entry_at change tables pgd vaddr slot e, written)
            (preserves (entry tables slot) old)
      | inr same ↦ rw (change_entry_at change tables pgd vaddr slot e, same) h
    ]
  ]

  pub change_pages_stays :
      (pages : ℕ) (tables : PageTables) (address : ℕ)
      → p (tables t i) ≡ true
      → p (change_pages pages change tables pgd address t i) ≡ true
  unfolding change_pages
  change_pages_stays zero tables address h = h
  change_pages_stays (suc pages) tables address h =
      change_pages_stays pages (change_entry change tables pgd address) (address + 4096)
        (change_entry_stays tables address h)

-- Every page of the loop has a property that the change brings about and keeps.
module _ (p : ℕ → Bool) (change : ℕ → ℕ) (brings : (w : ℕ) → p (change w) ≡ true) (pgd : ℕ) where
  change_entry_reaches :
      (tables : PageTables) (vaddr : ℕ) (slot : Slot)
      → mapping (walk tables pgd vaddr) ≡ some slot
      → p (entry (change_entry change tables pgd vaddr) slot) ≡ true
  change_entry_reaches tables vaddr slot e =
      rw
        (
          change_entry_at change tables pgd vaddr slot e,
          store_same tables slot (change (entry tables slot)),
        )
        (brings (entry tables slot))

  pub change_pages_reaches :
      (level : ℕ → ℕ) (keeps : Keeps change) (top : level pgd ≡ 4) (pages j : ℕ)
      (tables : PageTables) (address : ℕ) (slot : Slot)
      → IsLayered level tables
      → j < pages
      → mapping (walk tables pgd (address + 4096 * j)) ≡ some slot
      → p (entry (change_pages pages change tables pgd address) slot) ≡ true
  unfolding change_pages
  change_pages_reaches level keeps top zero j tables address slot layered inside e =
      absurd (omega arith)
  change_pages_reaches level keeps top (suc pages) zero tables address slot layered inside e =
      let at : address + 4096 * 0 ≡ address = omega arith in
      let here : mapping (walk tables pgd address) ≡ some slot = rw at at e in
      change_pages_stays p change (λ w h. brings w) pgd slot.table slot.index pages
        (change_entry change tables pgd address) (address + 4096)
        (change_entry_reaches tables address slot here)
  change_pages_reaches level keeps top (suc pages) (suc j) tables address slot layered inside e =
      let first = change_entry-Similar level change keeps pgd top tables address layered in
      let at : address + 4096 * (suc j) ≡ address + 4096 + 4096 * j = omega arith in
      let there : mapping (walk tables pgd (address + 4096 + 4096 * j)) ≡ some slot = rw at at e in
      change_pages_reaches level keeps top pages j (change_entry change tables pgd address)
        (address + 4096) slot (Similar-IsLayered first layered) (omega arith)
        (rw (walk-Similar first layered pgd (address + 4096 + 4096 * j) top) there)
