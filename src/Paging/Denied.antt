-- ===== src/Paging/Denied.antt =====
-- What the functions that deny writing or execution guarantee for the pages of vm areas.

use flow_scanner.Prelude.{
  ℕ, ◌+◌, ◌-◌, ◌*◌, ◌/◌, ◌%◌, ◌≤◌, ◌<◌, ◌≡◌, refl, Bool, true, false, arith, ◌⊎◌, Bool-cases, inl,
  inr, ◌||◌, not, Option, some, none, List, ◌∷◌, ◌++◌, Option-cases,
}
use flow_scanner.Prelude.Int.{pos}
use flow_scanner.Paging.Bits.{test_bit}
use flow_scanner.Paging.Walk.{
  PageTables, Slot, entry, pml4_index, pdp_index, pde_index, pte_index, walk, walk_pdp, walk_pde,
  walk_pte, page_table_address, no_map, mapping, is_mapped_addr, bit_value, is_bit_set,
}
use flow_scanner.Paging.Flip.{
  VmArea, deny_execution, deny_write, vma_pages, for_each_vma, executable_rule,
  set_all_pages_non_executable, is_shared_wx, inherited_rule, manage_inherited_pages,
}
use flow_scanner.Paging.Layers.{IsLayered, walk-Similar}
use flow_scanner.Paging.Areas.{RulePreserves, for_each_vma-Similar, for_each_vma_reaches}
use flow_scanner.Paging.Rules.{
  deny_execution-denied, deny_execution_read_only, deny_write-denied, IsDenial,
  executable_rule-IsDenial, inherited_rule-IsDenial, IsDenial-RuleKeeps, IsDenial-RulePreserves,
}
use flow_scanner.Paging.Reads.{is_mapped_addr_unmapped, is_bit_set_mapped}

-- An address inside a vm area that starts at a page.
pub record InArea (vma : VmArea) (vaddr : ℕ) : Type 0 where
  pub aligned : vma.vm_start % 4096 ≡ 0
  pub from : vma.vm_start ≤ vaddr
  pub before : vaddr < vma.vm_end

-- Addresses in one page have one walk.
walk_page :
    (tables : PageTables) (pgd a b : ℕ)
    → a / 4096 ≡ b / 4096
    → walk tables pgd a ≡ walk tables pgd b
unfolding walk walk_pdp walk_pde walk_pte
walk_page tables pgd a b e =
    let pte : pte_index a ≡ pte_index b = omega arith in
    let pde : pde_index a ≡ pde_index b = omega arith in
    let pdp : pdp_index a ≡ pdp_index b = omega arith in
    let pml4 : pml4_index a ≡ pml4_index b = omega arith in rw (pte, pde, pdp, pml4) refl

area_page :
    (vma : VmArea) (vaddr : ℕ)
    → InArea vma vaddr
    → (j : ℕ) × (j < vma_pages vma) × ((vma.vm_start + 4096 * j) / 4096 ≡ vaddr / 4096)
unfolding vma_pages
area_page vma vaddr inside =
    let a = inside.aligned in
    let f = inside.from in
    let b = inside.before in (vaddr / 4096 - vma.vm_start / 4096, omega arith, omega arith)

module _ (p : ℕ → Bool) (rule : VmArea → Option (ℕ → ℕ)) (denial : IsDenial rule)
    (preserves : RulePreserves p rule) (level : ℕ → ℕ) (pgd : ℕ) (top : level pgd ≡ 4)
    (vma : VmArea) (change : ℕ → ℕ) (chosen : rule vma ≡ some change)
    (brings : (w : ℕ) → p (change w) ≡ true) where
  pub area_reached :
      (tables : PageTables) (before after : List VmArea) (vaddr : ℕ)
      → IsLayered level tables
      → InArea vma vaddr
      → (mapping (walk (for_each_vma rule tables pgd (before ++ vma ∷ after)) pgd vaddr) ≡ none)
        ⊎ ((slot : Slot) × (mapping
                (walk (for_each_vma rule tables pgd (before ++ vma ∷ after)) pgd vaddr)
              ≡ some slot)
            × (p (entry (for_each_vma rule tables pgd (before ++ vma ∷ after)) slot) ≡ true))
  area_reached tables before after vaddr layered inside =
      let keeps = IsDenial-RuleKeeps rule denial in
      let similar =
        for_each_vma-Similar level rule keeps pgd top tables (before ++ vma ∷ after) layered in
      let (j, low, same) = area_page vma vaddr inside in
      rw (walk-Similar similar layered pgd vaddr top)
        (elim (Option-cases (mapping (walk tables pgd vaddr))) [
          | inl e ↦ inl e
          | inr (slot, e) ↦
              let here : mapping (walk tables pgd (vma.vm_start + 4096 * j)) ≡ some slot =
                rw (walk_page tables pgd (vma.vm_start + 4096 * j) vaddr same) e in
              inr (
                slot,
                e,
                for_each_vma_reaches p rule preserves level keeps pgd top vma change chosen brings
                    tables before after j slot layered low here,
              )
        ])

-- Not mapped, not writable or not executable.
abbrev pub IsGuarded : PageTables → (cr3 vaddr : ℕ) → Type 0
IsGuarded tables cr3 vaddr =
    (is_mapped_addr tables cr3 vaddr ≡ no_map)
    ⊎ ((is_bit_set tables cr3 vaddr 1 ≡ pos 0) ⊎ (is_bit_set tables cr3 vaddr 63 ≡ pos 1))

abbrev guarded : ℕ → Bool
guarded w = not (test_bit w 1) || test_bit w 63

or_true : (b : Bool) → (b || true) ≡ true
or_true true = refl
or_true false = refl

deny_execution_guards : (w : ℕ) → guarded (deny_execution w) ≡ true
deny_execution_guards w = elim (Bool-cases (test_bit w 1)) [
  | inl e ↦ rw (deny_execution-denied w e) (or_true (not (test_bit (deny_execution w) 1)))
  | inr e ↦ rw (deny_execution_read_only w e, e) refl
]

deny_write_guards : (w : ℕ) → guarded (deny_write w) ≡ true
deny_write_guards w = rw (deny_write-denied w) refl

guarded_rule : (rule : VmArea → Option (ℕ → ℕ)) → IsDenial rule → RulePreserves guarded rule
guarded_rule rule denial =
    IsDenial-RulePreserves rule denial guarded (λ w h. deny_execution_guards w)
      (λ w h. deny_write_guards w)

unguarded : (b x : Bool) → (not b || x) ≡ true → (b ≡ false) ⊎ (x ≡ true)
unguarded true x h = inr h
unguarded false x h = inl refl

guarded_slot :
    (tables : PageTables) (cr3 vaddr : ℕ) (slot : Slot)
    → mapping (walk tables (page_table_address cr3) vaddr) ≡ some slot
    → guarded (entry tables slot) ≡ true
    → IsGuarded tables cr3 vaddr
unfolding bit_value
guarded_slot tables cr3 vaddr slot e g =
    let w = entry tables slot in
    elim (unguarded (test_bit w 1) (test_bit w 63) g) [
      | inl b ↦ inr (inl (rw (is_bit_set_mapped tables cr3 vaddr 1 slot e, b) refl))
      | inr b ↦ inr (inr (rw (is_bit_set_mapped tables cr3 vaddr 63 slot e, b) refl))
    ]

module _ (level : ℕ → ℕ) (tables : PageTables) (layered : IsLayered level tables) (cr3 : ℕ)
    (top : level (page_table_address cr3) ≡ 4) (before after : List VmArea) (vma : VmArea)
    (vaddr : ℕ) (inside : InArea vma vaddr) where
  guarded_area :
      (rule : VmArea → Option (ℕ → ℕ)) (change : ℕ → ℕ)
      → IsDenial rule
      → rule vma ≡ some change
      → ((w : ℕ) → guarded (change w) ≡ true)
      → IsGuarded
          (for_each_vma rule tables (page_table_address cr3) (before ++ vma ∷ after))
          cr3
          vaddr
  guarded_area rule change denial chosen brings =
      let pgd = page_table_address cr3 in
      let final : PageTables = for_each_vma rule tables pgd (before ++ vma ∷ after) in
      elim (area_reached guarded rule denial (guarded_rule rule denial) level pgd top vma change
        chosen brings tables before after vaddr layered inside) [
          | inl e ↦ inl (is_mapped_addr_unmapped final cr3 vaddr e)
          | inr (slot, e, g) ↦ guarded_slot final cr3 vaddr slot e g
        ]

  -- If the page tables stand in four layers, no address of an executable vm area that starts at a
  -- page is mapped, writable and executable behind set_all_pages_non_executable.
  pub set_all_pages_non_executable-IsGuarded :
      vma.vm_exec ≡ true
      → IsGuarded (set_all_pages_non_executable tables cr3 (before ++ vma ∷ after)) cr3 vaddr
  unfolding set_all_pages_non_executable executable_rule
  set_all_pages_non_executable-IsGuarded x =
      guarded_area executable_rule deny_execution executable_rule-IsDenial (rw x refl)
        deny_execution_guards

  -- If the page tables stand in four layers, no address of an executable vm area that is private
  -- or writable and starts at a page is mapped, writable and executable behind
  -- manage_inherited_pages.
  pub manage_inherited_pages-IsGuarded :
      vma.vm_exec ≡ true
      → (vma.vm_shared ≡ false) ⊎ (vma.vm_write ≡ true)
      → IsGuarded (manage_inherited_pages tables cr3 (before ++ vma ∷ after)) cr3 vaddr
  unfolding manage_inherited_pages inherited_rule is_shared_wx
  manage_inherited_pages-IsGuarded x which = elim (Bool-cases vma.vm_shared) [
    | inl s ↦ elim which [
      | inl n ↦ cc
      | inr w ↦
          guarded_area inherited_rule deny_write inherited_rule-IsDenial (rw (s, w, x) refl)
            deny_write_guards
    ]
    | inr s ↦
        guarded_area inherited_rule deny_execution inherited_rule-IsDenial (rw (s, x) refl)
          deny_execution_guards
  ]
