-- ===== src/Paging/Areas.antt =====
-- What the loops over the vm areas of a process keep, and what they reach.

use flow_scanner.Prelude.{
  ℕ, ◌+◌, ◌*◌, ◌<◌, ◌≡◌, refl, Bool, true, inl, inr, Option, some, none, List, [], ◌∷◌, ◌++◌,
  Option-cases,
}
use flow_scanner.Paging.Walk.{PageTables, Slot, entry, walk, mapping}
use flow_scanner.Paging.Flip.{VmArea, vma_pages, change_area, for_each_vma}
use flow_scanner.Paging.Layers.{
  IsLayered, Similar, unchanged-Similar, then-Similar, Similar-IsLayered, walk-Similar,
}
use flow_scanner.Paging.Change.{Keeps, Preserves}
use flow_scanner.Paging.Loops.{change_pages-Similar, change_pages_stays, change_pages_reaches}

-- Each change of the rule keeps what a walk reads.
abbrev pub RuleKeeps : (VmArea → Option (ℕ → ℕ)) → Type 0
RuleKeeps rule = (vma : VmArea) (change : ℕ → ℕ) → rule vma ≡ some change → Keeps change

abbrev pub RulePreserves : (p : ℕ → Bool) → (VmArea → Option (ℕ → ℕ)) → Type 0
RulePreserves p rule = (vma : VmArea) (change : ℕ → ℕ) → rule vma ≡ some change → Preserves p change

module _ (rule : VmArea → Option (ℕ → ℕ)) (pgd : ℕ) (tables : PageTables) (vma : VmArea)
    (vmas : List VmArea) where
  pub for_each_vma_skips :
      rule vma ≡ none
      → for_each_vma rule tables pgd (vma ∷ vmas) ≡ for_each_vma rule tables pgd vmas
  unfolding for_each_vma
  for_each_vma_skips e = rw (e, for_each_vma) refl

  pub for_each_vma_applies :
      (change : ℕ → ℕ)
      → rule vma ≡ some change
      → for_each_vma rule tables pgd (vma ∷ vmas)
        ≡ for_each_vma rule (change_area change tables pgd vma) pgd vmas
  unfolding for_each_vma
  for_each_vma_applies change e = rw (e, for_each_vma) refl

module _ (level : ℕ → ℕ) (rule : VmArea → Option (ℕ → ℕ)) (keeps : RuleKeeps rule) (pgd : ℕ)
    (top : level pgd ≡ 4) where
  pub change_area-Similar :
      (tables : PageTables) (vma : VmArea) (change : ℕ → ℕ)
      → rule vma ≡ some change
      → IsLayered level tables
      → Similar level tables (change_area change tables pgd vma)
  unfolding change_area
  change_area-Similar tables vma change e layered =
      change_pages-Similar level change (keeps vma change e) pgd top (vma_pages vma) tables
        vma.vm_start layered

  pub for_each_vma-Similar :
      (tables : PageTables) (vmas : List VmArea)
      → IsLayered level tables
      → Similar level tables (for_each_vma rule tables pgd vmas)
  unfolding for_each_vma
  for_each_vma-Similar tables [] layered = unchanged-Similar level tables
  for_each_vma-Similar tables (vma ∷ vmas) layered = elim (Option-cases (rule vma)) [
    | inl e ↦
        rw (for_each_vma_skips rule pgd tables vma vmas e)
          (for_each_vma-Similar tables vmas layered)
    | inr (change, e) ↦
        let area = change_area-Similar tables vma change e layered in
        rw (for_each_vma_applies rule pgd tables vma vmas change e) (
          then-Similar area (
            for_each_vma-Similar (change_area change tables pgd vma) vmas
              (Similar-IsLayered area layered)))
  ]

module _ (p : ℕ → Bool) (rule : VmArea → Option (ℕ → ℕ)) (preserves : RulePreserves p rule)
    (pgd t i : ℕ) where
  pub for_each_vma_stays :
      (tables : PageTables) (vmas : List VmArea)
      → p (tables t i) ≡ true
      → p (for_each_vma rule tables pgd vmas t i) ≡ true
  unfolding for_each_vma change_area
  for_each_vma_stays tables [] h = h
  for_each_vma_stays tables (vma ∷ vmas) h = elim (Option-cases (rule vma)) [
    | inl e ↦ rw (for_each_vma_skips rule pgd tables vma vmas e) (for_each_vma_stays tables vmas h)
    | inr (change, e) ↦ rw (for_each_vma_applies rule pgd tables vma vmas change e) (
        for_each_vma_stays (change_area change tables pgd vma) vmas (
          change_pages_stays p change (preserves vma change e) pgd t i (vma_pages vma) tables
            vma.vm_start h))
  ]

module _ (p : ℕ → Bool) (rule : VmArea → Option (ℕ → ℕ)) (preserves : RulePreserves p rule)
    (level : ℕ → ℕ) (keeps : RuleKeeps rule) (pgd : ℕ) (top : level pgd ≡ 4) (vma : VmArea)
    (change : ℕ → ℕ) (chosen : rule vma ≡ some change)
    (brings : (w : ℕ) → p (change w) ≡ true) where
  pub for_each_vma_reaches :
      (tables : PageTables) (before after : List VmArea) (j : ℕ) (slot : Slot)
      → IsLayered level tables
      → j < vma_pages vma
      → mapping (walk tables pgd (vma.vm_start + 4096 * j)) ≡ some slot
      → p (entry (for_each_vma rule tables pgd (before ++ vma ∷ after)) slot) ≡ true
  unfolding for_each_vma change_area
  for_each_vma_reaches tables [] after j slot layered inside e =
      rw (for_each_vma_applies rule pgd tables vma after change chosen) (
        for_each_vma_stays p rule preserves pgd slot.table slot.index
          (change_area change tables pgd vma) after
          (change_pages_reaches p change brings pgd level (keeps vma change chosen) top
            (vma_pages vma) j tables vma.vm_start slot layered inside e))
  for_each_vma_reaches tables (other ∷ before) after j slot layered inside e =
      elim (Option-cases (rule other)) [
        | inl skipped ↦
            rw (for_each_vma_skips rule pgd tables other (before ++ vma ∷ after) skipped)
              (for_each_vma_reaches tables before after j slot layered inside e)
        | inr (its, taken) ↦
            let area =
              change_area-Similar level rule keeps pgd top tables other its taken layered in
            rw (for_each_vma_applies rule pgd tables other (before ++ vma ∷ after) its taken) (
              for_each_vma_reaches (change_area its tables pgd other) before after j slot
                (Similar-IsLayered area layered) inside
                (rw (walk-Similar area layered pgd (vma.vm_start + 4096 * j) top) e))
      ]
