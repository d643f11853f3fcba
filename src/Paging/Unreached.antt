-- ===== src/Paging/Unreached.antt =====
-- What the loops over the vm areas leave alone: the tables of another process.
use flow_scanner.Prelude.{
  ℕ, zero, suc, ◌+◌, ◌≡◌, ◌≢◌, refl, sym, ap, ◌∙◌, inl, inr, Option, some, List, [], ◌∷◌,
  Option-cases,
}
use flow_scanner.Paging.Walk.{PageTables, Slot, entry, walk, mapping}
use flow_scanner.Paging.Flip.{
  VmArea, change_entry, change_pages, change_area, vma_pages, for_each_vma,
}
use flow_scanner.Paging.Layers.{IsLayered, Similar, Similar-IsLayered, walk-Similar}
use flow_scanner.Paging.Change.{Keeps, store_cases}
use flow_scanner.Paging.Loops.{change_entry_idle, change_entry_at, change_entry-Similar}
use flow_scanner.Paging.Areas.{
  RuleKeeps, for_each_vma_skips, for_each_vma_applies, change_area-Similar,
}

-- No address leads from the first table `pgd` to an entry in the table `t`.
abbrev pub IsUnreached : PageTables → (pgd t : ℕ) → Type 0
IsUnreached tables pgd t =
    (vaddr : ℕ) (slot : Slot) → mapping (walk tables pgd vaddr) ≡ some slot → slot.table ≢ t

change_entry_unreached :
    (change : ℕ → ℕ) (tables : PageTables) (pgd vaddr t i : ℕ)
    → IsUnreached tables pgd t
    → change_entry change tables pgd vaddr t i ≡ tables t i
change_entry_unreached change tables pgd vaddr t i apart =
    elim (Option-cases (mapping (walk tables pgd vaddr))) [
      | inl e ↦ rw (change_entry_idle change tables pgd vaddr e) refl
      | inr (slot, e) ↦
          rw (change_entry_at change tables pgd vaddr slot e)
            (elim (store_cases tables slot (change (entry tables slot)) t i) [
              | inl (et, ei, written) ↦ absurd (apart vaddr slot e (sym et))
              | inr same ↦ same
            ])
    ]

module _ (level : ℕ → ℕ) (pgd : ℕ) (top : level pgd ≡ 4) (t : ℕ) where
  Similar-IsUnreached :
      (tables changed : PageTables)
      → Similar level tables changed
      → IsLayered level tables
      → IsUnreached tables pgd t
      → IsUnreached changed pgd t
  Similar-IsUnreached tables changed similar layered apart vaddr slot e =
      apart vaddr slot (ap mapping (sym (walk-Similar similar layered pgd vaddr top)) ∙ e)

  change_pages_unreached :
      (change : ℕ → ℕ)
      → Keeps change
      → (pages : ℕ) (tables : PageTables) (address i : ℕ) → IsLayered level tables
      → IsUnreached tables pgd t
      → change_pages pages change tables pgd address t i ≡ tables t i
  unfolding change_pages
  change_pages_unreached change keeps zero tables address i layered apart = refl
  change_pages_unreached change keeps (suc pages) tables address i layered apart =
      let next : PageTables = change_entry change tables pgd address in
      let first = change_entry-Similar level change keeps pgd top tables address layered in
      change_pages_unreached change keeps pages next (address + 4096) i
        (Similar-IsLayered first layered) (Similar-IsUnreached tables next first layered apart)
      ∙ change_entry_unreached change tables pgd address t i apart

  pub for_each_vma_unreached :
      (rule : VmArea → Option (ℕ → ℕ))
      → RuleKeeps rule
      → (tables : PageTables) (vmas : List VmArea) (i : ℕ) → IsLayered level tables
      → IsUnreached tables pgd t
      → for_each_vma rule tables pgd vmas t i ≡ tables t i
  unfolding for_each_vma change_area
  for_each_vma_unreached rule keeps tables [] i layered apart = refl
  for_each_vma_unreached rule keeps tables (vma ∷ vmas) i layered apart =
      elim (Option-cases (rule vma)) [
        | inl e ↦
            rw (for_each_vma_skips rule pgd tables vma vmas e)
              (for_each_vma_unreached rule keeps tables vmas i layered apart)
        | inr (change, e) ↦
            let next : PageTables = change_area change tables pgd vma in
            let area = change_area-Similar level rule keeps pgd top tables vma change e layered in
            rw (for_each_vma_applies rule pgd tables vma vmas change e) (
              for_each_vma_unreached rule keeps next vmas i (Similar-IsLayered area layered)
                (Similar-IsUnreached tables next area layered apart)
              ∙ change_pages_unreached change (keeps vma change e) (vma_pages vma) tables
                  vma.vm_start i layered apart)
      ]
