-- ===== src/Clone.antt =====
-- kernel_clone_ret_handler_f of libs/fprobes/fprober_proc_mngmt.c, in a build with SHARED_DEFENCE:
-- what a fork does to the table shared_map_hash and to the page tables. Every kmalloc is taken to
-- succeed, since the source does not test it.
use flow_scanner.Prelude.{
  ℕ, zero, suc, ◌+◌, ◌-◌, ◌*◌, ◌/◌, ◌%◌, ◌^◌, ◌≤◌, ◌<◌, ◌≡◌, ◌≢◌, ◌↔◌, refl, sym, ap, ◌∙◌, Bool,
  true, false, arith, tests, ltb, leb, ◌==◌, ◌⊎◌, if◌then◌else◌, Bool-cases, inl, inr, ◌&&◌, ◌||◌,
  not, ==_iff, Option, some, none, List, [], ◌∷◌, ◌++◌, some_eq, Option-cases,
}
use flow_scanner.Prelude.Int.{ℤ, pos, negsuc}
use flow_scanner.Paging.Walk.{PageTables}
use flow_scanner.Paging.Flip.{VmArea, set_all_sh_pages_non_writable}
use flow_scanner.HookedPids.{Hooks, is_hooked}
pub mod Shared

-- A vm area at the address `vma`, the page tables of its process, and the mapping of its file.
pub record MappedArea : Type 0 where
  pub vma : ℕ
  pub area : VmArea
  pub pgd : ℕ
  pub file : Option ℕ

-- shared_map_hash by bucket: of each node, `page_tables`.
abbrev pub SharedMaps : Type 0
SharedMaps = ℕ → List (List ℕ)

pub record CloneState : Type 0 where
  pub hooks : Hooks
  pub shared_map_hash : SharedMaps
  pub tables : PageTables

-- The buckets of a pid and of a vm area, and the vm areas of a file, in the order of the tree i_mmap.
pub record CloneContext : Type 0 where
  pub bucket_of : ℕ → ℕ
  pub shared_bucket_of : ℕ → ℕ
  pub i_mmap : ℕ → List MappedArea

-- The loop over the other vm areas of the file.
unfoldable pub other_tables : (vma : ℕ) → List MappedArea → List ℕ
other_tables vma [] = []
other_tables vma (other ∷ others) =
    let rest = other_tables vma others in
    if other.area.vm_shared && not (other.vma == vma) then other.pgd ∷ rest else rest

unfoldable pub file_tables : CloneContext → (vma : ℕ) → (file : Option ℕ) → List ℕ
file_tables context vma none = []
file_tables context vma (some file) = other_tables vma (context.i_mmap file)

-- The node goes to the front of its bucket, also if there is one: the `continue` for a mapping that
-- is already saved continues the search of the bucket.
unfoldable pub add_shared : CloneContext → SharedMaps → MappedArea → SharedMaps
add_shared context maps a b =
    if a.area.vm_shared && (b == context.shared_bucket_of a.vma)
    then (a.pgd ∷ file_tables context a.vma a.file) ∷ maps b
    else maps b

unfoldable pub add_shared_to_hash : CloneContext → SharedMaps → List MappedArea → SharedMaps
add_shared_to_hash context maps [] = maps
add_shared_to_hash context maps (a ∷ areas) =
    add_shared_to_hash context (add_shared context maps a) areas

unfoldable pub vm_areas : List MappedArea → List VmArea
vm_areas [] = []
vm_areas (a ∷ areas) = a.area ∷ vm_areas areas

-- `cr3` is the register of the processor, which still runs the parent.
unfoldable pub kernel_clone_ret_handler :
    CloneContext
    → CloneState
    → (pid cr3 : ℕ) → (clone_thread : Bool) → (child_pid : ℤ)
    → (parent_mm child_mm : List MappedArea) → CloneState
kernel_clone_ret_handler context s pid cr3 clone_thread (negsuc n) parent_mm child_mm = s
kernel_clone_ret_handler context s pid cr3 clone_thread (pos child_pid) parent_mm child_mm =
    let maps =
      add_shared_to_hash context (add_shared_to_hash context s.shared_map_hash parent_mm)
        child_mm in
    if is_hooked context.bucket_of s.hooks pid
    then record {
      hooks = s.hooks;
      shared_map_hash = maps;
      tables =
          if clone_thread
          then s.tables
          else set_all_sh_pages_non_writable s.tables cr3 (vm_areas child_mm);
    }
    else s
