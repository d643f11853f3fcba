-- ===== src/Clone/Shared.antt =====
-- Which page tables kernel_clone_ret_handler_f of libs/fprobes/fprober_proc_mngmt.c finds for a shared
-- vm area, and which ones it makes read-only.
use flow_scanner.Prelude.{
  ℕ, ◌≡◌, refl, Bool, true, false, arith, ◌==◌, Bool-cases, inl, inr, ◌&&◌, ◌||◌, not, ==_iff, some,
  List, [], ◌∷◌, ◌++◌, sym, ap, ◌∙◌,
}
use flow_scanner.Prelude.Int.{pos}
use flow_scanner.Paging.Walk.{
  PageTables, page_table_address, Slot, entry, walk, mapping, is_bit_set, bit_value,
}
use flow_scanner.Paging.Flip.{
  set_all_sh_pages_non_writable, is_shared_wx, shared_rule, for_each_vma,
}
use flow_scanner.Paging.Layers.{IsLayered, walk-Similar}
use flow_scanner.Paging.Bits.{test_bit}
use flow_scanner.Paging.Areas.{for_each_vma-Similar}
use flow_scanner.Paging.Rules.{shared_rule-IsDenial, IsDenial-RuleKeeps}
use flow_scanner.Paging.Reads.{is_bit_set_mapped}
use flow_scanner.Paging.Unreached.{IsUnreached, for_each_vma_unreached}
use flow_scanner.Paging.Denied.{InArea}
use flow_scanner.Paging.ReadOnly.{IsReadOnly, manage_inherited_pages-IsReadOnly}
use flow_scanner.HookedPids.{is_hooked}
use flow_scanner.Clone.{
  MappedArea, SharedMaps, CloneState, CloneContext, other_tables, file_tables, add_shared,
  add_shared_to_hash, vm_areas, kernel_clone_ret_handler,
}

unfoldable pub has_table : (pgd : ℕ) → List ℕ → Bool
has_table pgd [] = false
has_table pgd (t ∷ ts) = let rest = has_table pgd ts in t == pgd || rest

unfoldable pub in_nodes : (pgd : ℕ) → List (List ℕ) → Bool
in_nodes pgd [] = false
in_nodes pgd (node ∷ nodes) = let rest = in_nodes pgd nodes in has_table pgd node || rest

-- The page tables are in a node of the bucket of the vm area, where shared_flip_bit goes through all
-- nodes.
unfoldable pub is_shared_with : CloneContext → SharedMaps → (vma pgd : ℕ) → Bool
is_shared_with context maps vma pgd = in_nodes pgd (maps (context.shared_bucket_of vma))

other_tables_has :
    (vma : ℕ) (other : MappedArea)
    → other.area.vm_shared ≡ true
    → (other.vma == vma) ≡ false
    → (before after : List MappedArea)
    → has_table other.pgd (other_tables vma (before ++ other ∷ after)) ≡ true
unfolding has_table other_tables
other_tables_has vma other shared differs [] after =
    let same : (other.pgd == other.pgd) ≡ true = (==_iff other.pgd other.pgd).1 refl in
    rw (shared, differs, same) refl
other_tables_has vma other shared differs (first ∷ before) after =
    let ih = other_tables_has vma other shared differs before after in
    elim (Bool-cases (first.area.vm_shared && not (first.vma == vma))) [
      | inl e ↦ rw (e, ih) (ground arith)
      | inr e ↦ rw (e, ih) refl
    ]

add_shared_keeps :
    (context : CloneContext) (maps : SharedMaps) (a : MappedArea) (vma pgd : ℕ)
    → is_shared_with context maps vma pgd ≡ true
    → is_shared_with context (add_shared context maps a) vma pgd ≡ true
unfolding is_shared_with add_shared in_nodes
add_shared_keeps context maps a vma pgd h =
    elim (Bool-cases
      (a.area.vm_shared && (context.shared_bucket_of vma == context.shared_bucket_of a.vma))) [
        | inl e ↦ rw (e, h) (ground arith)
        | inr e ↦ rw (e, h) refl
      ]

add_shared_to_hash_keeps :
    (context : CloneContext) (areas : List MappedArea) (maps : SharedMaps) (vma pgd : ℕ)
    → is_shared_with context maps vma pgd ≡ true
    → is_shared_with context (add_shared_to_hash context maps areas) vma pgd ≡ true
unfolding add_shared_to_hash
add_shared_to_hash_keeps context [] maps vma pgd h = h
add_shared_to_hash_keeps context (a ∷ areas) maps vma pgd h =
    add_shared_to_hash_keeps context areas (add_shared context maps a) vma pgd
      (add_shared_keeps context maps a vma pgd h)

add_shared_finds :
    (context : CloneContext) (maps : SharedMaps) (a : MappedArea) (pgd : ℕ)
    → a.area.vm_shared ≡ true
    → has_table pgd (a.pgd ∷ file_tables context a.vma a.file) ≡ true
    → is_shared_with context (add_shared context maps a) a.vma pgd ≡ true
unfolding is_shared_with add_shared in_nodes
add_shared_finds context maps a pgd shared h =
    let b = context.shared_bucket_of a.vma in
    let same : (b == b) ≡ true = (==_iff b b).1 refl in rw (shared, same) (rw h refl)

add_shared_to_hash_finds :
    (context : CloneContext) (before : List MappedArea) (a : MappedArea) (after : List MappedArea)
    (maps : SharedMaps) (pgd : ℕ)
    → a.area.vm_shared ≡ true
    → has_table pgd (a.pgd ∷ file_tables context a.vma a.file) ≡ true
    → is_shared_with context (add_shared_to_hash context maps (before ++ a ∷ after)) a.vma pgd
      ≡ true
unfolding add_shared_to_hash
add_shared_to_hash_finds context [] a after maps pgd shared h =
    add_shared_to_hash_keeps context after (add_shared context maps a) a.vma pgd
      (add_shared_finds context maps a pgd shared h)
add_shared_to_hash_finds context (first ∷ before) a after maps pgd shared h =
    add_shared_to_hash_finds context before a after (add_shared context maps first) pgd shared h

vm_areas-++ :
    (before : List MappedArea) (a : MappedArea) (after : List MappedArea)
    → vm_areas (before ++ a ∷ after) ≡ vm_areas before ++ a.area ∷ vm_areas after
unfolding vm_areas
vm_areas-++ [] a after = refl
vm_areas-++ (first ∷ before) a after = rw (vm_areas-++ before a after) refl

module _ (context : CloneContext) (s : CloneState) (pid cr3 child_pid : ℕ)
    (parent_mm before after : List MappedArea) (a : MappedArea)
    (hooked : is_hooked context.bucket_of s.hooks pid ≡ true) where
  -- If a hooked thread forks or starts a thread, and the child has a shared vm area of a file, then
  -- behind kernel_clone_ret_handler shared_map_hash has, for this vm area, the page tables of the
  -- child and those of each other shared vm area of the file.
  pub kernel_clone_ret_handler_finds :
      (clone_thread : Bool) (file : ℕ) (others_before others_after : List MappedArea)
      (other : MappedArea)
      → a.area.vm_shared ≡ true
      → a.file ≡ some file
      → context.i_mmap file ≡ others_before ++ other ∷ others_after
      → other.area.vm_shared ≡ true
      → (other.vma == a.vma) ≡ false
      → (is_shared_with context
            (kernel_clone_ret_handler context s pid cr3 clone_thread
              (pos child_pid)
              parent_mm
              (before ++ a ∷ after)).shared_map_hash
            a.vma
            a.pgd
          ≡ true)
        × (is_shared_with context
              (kernel_clone_ret_handler context s pid cr3 clone_thread
                (pos child_pid)
                parent_mm
                (before ++ a ∷ after)).shared_map_hash
              a.vma
              other.pgd
            ≡ true)
  unfolding kernel_clone_ret_handler has_table file_tables
  kernel_clone_ret_handler_finds clone_thread file others_before others_after other shared of_file
        mapped other_shared differs =
      let maps = add_shared_to_hash context s.shared_map_hash parent_mm in
      let find = λ (pgd : ℕ). add_shared_to_hash_finds context before a after maps pgd shared in
      let own : (a.pgd == a.pgd) ≡ true = (==_iff a.pgd a.pgd).1 refl in
      let there : has_table other.pgd (other_tables a.vma (context.i_mmap file)) ≡ true =
        rw mapped (other_tables_has a.vma other other_shared differs others_before others_after) in
      rw hooked (find a.pgd (rw own refl), find other.pgd (rw (of_file, there) (ground arith)))

  -- If a hooked process forks, the page tables stand in four layers, and the child has a shared,
  -- writable and executable vm area that starts at a page, then behind kernel_clone_ret_handler no
  -- address of it is mapped and writable in the page tables of the parent, the CR3 of which is in
  -- force. In the page tables of the child each bit of each mapped address is what it was, WRITE_BIT
  -- included, if no address of the parent leads to the table with its entry.
  pub kernel_clone_ret_handler_changes_parent :
      (level : ℕ → ℕ) (vaddr : ℕ)
      → IsLayered level s.tables
      → level (page_table_address cr3) ≡ 4
      → InArea a.area vaddr
      → is_shared_wx a.area ≡ true
      → (child_cr3 child_vaddr : ℕ) (slot : Slot) → level (page_table_address child_cr3) ≡ 4
      → mapping (walk s.tables (page_table_address child_cr3) child_vaddr) ≡ some slot
      → IsUnreached s.tables (page_table_address cr3) slot.table
      → IsReadOnly
          (kernel_clone_ret_handler context s pid cr3 false
            (pos child_pid)
            parent_mm
            (before ++ a ∷ after)).tables
          cr3
          vaddr
        × ((k : ℕ)
            → is_bit_set
                (kernel_clone_ret_handler context s pid cr3 false
                  (pos child_pid)
                  parent_mm
                  (before ++ a ∷ after)).tables
                child_cr3
                child_vaddr
                k
              ≡ is_bit_set s.tables child_cr3 child_vaddr k)
  unfolding kernel_clone_ret_handler set_all_sh_pages_non_writable
  kernel_clone_ret_handler_changes_parent level vaddr layered top inside wx child_cr3 child_vaddr
        slot child_top e apart =
      let denied =
        (manage_inherited_pages-IsReadOnly level s.tables layered cr3 top (vm_areas before)
          (vm_areas after) a.area vaddr inside wx).0 in
      let areas = vm_areas before ++ a.area ∷ vm_areas after in
      let pgd = page_table_address cr3 in
      let keeps = IsDenial-RuleKeeps shared_rule shared_rule-IsDenial in
      let final : PageTables = for_each_vma shared_rule s.tables pgd areas in
      let similar = for_each_vma-Similar level shared_rule keeps pgd top s.tables areas layered in
      let same_walk =
        walk-Similar similar layered (page_table_address child_cr3) child_vaddr child_top in
      let mapped : mapping (walk final (page_table_address child_cr3) child_vaddr) ≡ some slot =
        ap mapping same_walk ∙ e in
      let kept : entry final slot ≡ entry s.tables slot =
        for_each_vma_unreached level pgd top slot.table shared_rule keeps s.tables areas slot.index
          layered apart in
      rw (hooked, vm_areas-++ before a after)
        (
          denied,
          λ k.
              is_bit_set_mapped final child_cr3 child_vaddr k slot mapped
              ∙ ap (λ w. bit_value (test_bit w k)) kept
              ∙ sym (is_bit_set_mapped s.tables child_cr3 child_vaddr k slot e),
        )
