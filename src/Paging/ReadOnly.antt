-- ===== src/Paging/ReadOnly.antt =====
-- What the functions that deny writing guarantee, and what all four leave alone.

use flow_scanner.Prelude.{
  negation, ℕ, ◌≡◌, refl, Bool, true, false, arith, ◌==◌, ◌⊎◌, inl, inr, not, ==_iff, Option, some,
  List, ◌∷◌, ◌++◌,
}
use flow_scanner.Prelude.Int.{pos}
use flow_scanner.Paging.Bits.{test_bit}
use flow_scanner.Paging.Walk.{
  PageTables, entry, page_table_address, no_map, is_mapped_addr, bit_value, is_bit_set,
}
use flow_scanner.Paging.Flip.{
  VmArea, deny_execution, deny_write, for_each_vma, executable_rule, set_all_pages_non_executable,
  writable_rule, set_all_pages_non_writable, is_shared_wx, shared_rule,
  set_all_sh_pages_non_writable, inherited_rule, manage_inherited_pages,
}
use flow_scanner.Paging.Layers.{IsLayered}
use flow_scanner.Paging.Areas.{RulePreserves, for_each_vma_stays}
use flow_scanner.Paging.Rules.{
  deny_execution-other, deny_execution_read_only, deny_write_untouched, deny_write-denied, IsDenial,
  executable_rule-IsDenial, writable_rule-IsDenial, shared_rule-IsDenial, inherited_rule-IsDenial,
  IsDenial-RulePreserves,
}
use flow_scanner.Paging.Reads.{is_mapped_addr_unmapped, is_bit_set_mapped}
use flow_scanner.Paging.Denied.{InArea, area_reached}

abbrev read_only : ℕ → Bool
read_only w = not (test_bit w 1)

deny_write_clears : (w : ℕ) → read_only (deny_write w) ≡ true
deny_write_clears w = rw (deny_write-denied w) refl

deny_execution_same : (w : ℕ) → test_bit (deny_execution w) 1 ≡ test_bit w 1
deny_execution_same w =
    deny_execution-other w 1 (λ e. absurd (omega (arith, e))) (λ e. absurd (omega (arith, e)))

read_only_rule : (rule : VmArea → Option (ℕ → ℕ)) → IsDenial rule → RulePreserves read_only rule
read_only_rule rule denial =
    IsDenial-RulePreserves rule denial read_only (λ w h. rw (deny_execution_same w) h)
      (λ w h. deny_write_clears w)

-- Not mapped or not writable.
abbrev pub IsReadOnly : PageTables → (cr3 vaddr : ℕ) → Type 0
IsReadOnly tables cr3 vaddr =
    (is_mapped_addr tables cr3 vaddr ≡ no_map) ⊎ (is_bit_set tables cr3 vaddr 1 ≡ pos 0)

module _ (level : ℕ → ℕ) (tables : PageTables) (layered : IsLayered level tables) (cr3 : ℕ)
    (top : level (page_table_address cr3) ≡ 4) (before after : List VmArea) (vma : VmArea)
    (vaddr : ℕ) (inside : InArea vma vaddr) where
  denied_area :
      (rule : VmArea → Option (ℕ → ℕ))
      → IsDenial rule
      → rule vma ≡ some deny_write
      → IsReadOnly
          (for_each_vma rule tables (page_table_address cr3) (before ++ vma ∷ after))
          cr3
          vaddr
  unfolding bit_value
  denied_area rule denial chosen =
      let pgd = page_table_address cr3 in
      let final : PageTables = for_each_vma rule tables pgd (before ++ vma ∷ after) in
      elim (area_reached read_only rule denial (read_only_rule rule denial) level pgd top vma
        deny_write chosen deny_write_clears tables before after vaddr layered inside) [
          | inl e ↦ inl (is_mapped_addr_unmapped final cr3 vaddr e)
          | inr (slot, e, g) ↦
              let b = negation (test_bit (entry final slot) 1) g in
              inr (rw (is_bit_set_mapped final cr3 vaddr 1 slot e, b) refl)
        ]

  -- If the page tables stand in four layers, no address of a writable vm area that starts at a
  -- page is mapped and writable behind set_all_pages_non_writable.
  pub set_all_pages_non_writable-IsReadOnly :
      vma.vm_write ≡ true
      → IsReadOnly (set_all_pages_non_writable tables cr3 (before ++ vma ∷ after)) cr3 vaddr
  unfolding set_all_pages_non_writable writable_rule
  set_all_pages_non_writable-IsReadOnly w =
      denied_area writable_rule writable_rule-IsDenial (rw w refl)

  -- If the page tables stand in four layers, no address of a shared, writable and executable vm
  -- area that starts at a page is mapped and writable behind set_all_sh_pages_non_writable, nor
  -- behind manage_inherited_pages.
  pub manage_inherited_pages-IsReadOnly :
      is_shared_wx vma ≡ true
      → IsReadOnly (set_all_sh_pages_non_writable tables cr3 (before ++ vma ∷ after)) cr3 vaddr
        × IsReadOnly (manage_inherited_pages tables cr3 (before ++ vma ∷ after)) cr3 vaddr
  unfolding set_all_sh_pages_non_writable manage_inherited_pages shared_rule inherited_rule
  manage_inherited_pages-IsReadOnly w = (
    denied_area shared_rule shared_rule-IsDenial (rw w refl),
    denied_area inherited_rule inherited_rule-IsDenial (rw w refl),
  )

module _ (tables : PageTables) (t i : ℕ) (clear : test_bit (tables t i) 1 ≡ false) where
  same_entry_rule :
      (rule : VmArea → Option (ℕ → ℕ)) → IsDenial rule → RulePreserves (λ w. w == tables t i) rule
  same_entry_rule rule denial =
      let same : (w : ℕ) → (w == tables t i) ≡ true → test_bit w 1 ≡ false =
        λ w h. rw ((==_iff w (tables t i)).0 h) clear in
      IsDenial-RulePreserves rule denial (λ w. w == tables t i)
        (λ w h. rw (deny_execution_read_only w (same w h)) h)
        (λ w h. rw (deny_write_untouched w (same w h)) h)

  untouched :
      (rule : VmArea → Option (ℕ → ℕ))
      → IsDenial rule
      → (pgd : ℕ) (vmas : List VmArea) → for_each_vma rule tables pgd vmas t i ≡ tables t i
  untouched rule denial pgd vmas = (==_iff (for_each_vma rule tables pgd vmas t i) (tables t i)).0 (
      for_each_vma_stays (λ w. w == tables t i) rule (same_entry_rule rule denial) pgd t i tables
        vmas ((==_iff (tables t i) (tables t i)).1 refl))

  -- An entry without WRITE_BIT is left as it is by all four functions, whatever the vm areas are:
  -- a page that is executable and not writable stays executable.
  pub deny_read_only_untouched :
      (cr3 : ℕ) (vmas : List VmArea)
      → (set_all_pages_non_executable tables cr3 vmas t i ≡ tables t i)
        × (set_all_pages_non_writable tables cr3 vmas t i ≡ tables t i)
        × (set_all_sh_pages_non_writable tables cr3 vmas t i ≡ tables t i)
        × (manage_inherited_pages tables cr3 vmas t i ≡ tables t i)
  unfolding set_all_pages_non_executable set_all_pages_non_writable set_all_sh_pages_non_writable
      manage_inherited_pages
  deny_read_only_untouched cr3 vmas =
      let pgd = page_table_address cr3 in
      (
        untouched executable_rule executable_rule-IsDenial pgd vmas,
        untouched writable_rule writable_rule-IsDenial pgd vmas,
        untouched shared_rule shared_rule-IsDenial pgd vmas,
        untouched inherited_rule inherited_rule-IsDenial pgd vmas,
      )
