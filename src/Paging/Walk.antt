-- ===== src/Paging/Walk.antt =====
-- The walk through the four levels of page tables that every function of
-- libs/page_table_libs/page_table_utils.c spells out, and the functions that only read an entry.

use flow_scanner.Prelude.{ℕ, ◌/◌, ◌%◌, ◌^◌, Bool, if◌then◌else◌, ◌&&◌, Option, some, none}
use flow_scanner.Prelude.Int.{ℤ, pos, negsuc}
use flow_scanner.Paging.Bits.{test_bit}

-- The page tables in memory: the entry at an index of the table in a page frame.
abbrev pub PageTables : Type 0
PageTables = ℕ → ℕ → ℕ

pub record Slot : Type 0 where
  pub table : ℕ
  pub index : ℕ

abbrev pub entry : PageTables → Slot → ℕ
entry tables slot = tables slot.table slot.index

-- `PML4`, `PDP`, `PDE` and `PTE`.
abbrev pub pml4_index : ℕ → ℕ
pml4_index vaddr = vaddr / 2 ^ 39 % 512

abbrev pub pdp_index : ℕ → ℕ
pdp_index vaddr = vaddr / 2 ^ 30 % 512

abbrev pub pde_index : ℕ → ℕ
pde_index vaddr = vaddr / 2 ^ 21 % 512

abbrev pub pte_index : ℕ → ℕ
pte_index vaddr = vaddr / 2 ^ 12 % 512

-- `VALID`, `LH_MAPPING` and the field of `PT_ADDRESS_MASK`.
abbrev pub valid : ℕ → Bool
valid w = test_bit w 0

abbrev pub lh_mapping : ℕ → Bool
lh_mapping w = test_bit w 7

abbrev pub pt_address : ℕ → ℕ
pt_address w = w / 2 ^ 12 % 2 ^ 51

-- Where a walk ends: at a level above the last without a valid entry, at an entry of the second
-- level that maps a large page, or at an entry of the last level, which is valid or not.
pub data Walk : Type 0 where
  unmapped : Walk
  large : Slot → Walk
  absent : Slot → Walk
  page : Slot → Walk

unfoldable pub walk_pte : PageTables → (pte vaddr : ℕ) → Walk
walk_pte tables pte vaddr =
    let slot : Slot = record { table = pte; index = pte_index vaddr } in
    if valid (entry tables slot) then page slot else absent slot

unfoldable pub walk_pde : PageTables → (pde vaddr : ℕ) → Walk
walk_pde tables pde vaddr =
    let slot : Slot = record { table = pde; index = pde_index vaddr } in
    let e = entry tables slot in
    if valid e
    then (if lh_mapping e then large slot else walk_pte tables (pt_address e) vaddr)
    else unmapped

unfoldable pub walk_pdp : PageTables → (pdp vaddr : ℕ) → Walk
walk_pdp tables pdp vaddr =
    let e = tables pdp (pdp_index vaddr) in
    if valid e then walk_pde tables (pt_address e) vaddr else unmapped

-- `pgd` is the page frame of the first table.
unfoldable pub walk : PageTables → (pgd vaddr : ℕ) → Walk
walk tables pgd vaddr =
    let e = tables pgd (pml4_index vaddr) in
    if valid e then walk_pdp tables (pt_address e) vaddr else unmapped

-- `PAGE_TABLE_ADDRESS`.
abbrev pub page_table_address : (cr3 : ℕ) → ℕ
page_table_address cr3 = cr3 / 2 ^ 12

-- -EFAULT and 1.
abbrev pub no_map : ℤ
no_map = negsuc 13

abbrev pub is_mapped : ℤ
is_mapped = pos 1

-- The entry of a mapped address.
unfoldable pub mapping : Walk → Option Slot
mapping unmapped = none
mapping (large slot) = some slot
mapping (absent slot) = none
mapping (page slot) = some slot

unfoldable pub is_mapped_addr : PageTables → (cr3 vaddr : ℕ) → ℤ
is_mapped_addr tables cr3 vaddr = elim (mapping (walk tables (page_table_address cr3) vaddr)) [
  | none ↦ no_map
  | some _ ↦ is_mapped
]

unfoldable pub bit_value : Bool → ℤ
bit_value b = pos (if b then 1 else 0)

unfoldable pub is_bit_set_on_other : PageTables → (pgd vaddr bit_position : ℕ) → ℤ
is_bit_set_on_other tables pgd vaddr bit_position = elim (mapping (walk tables pgd vaddr)) [
  | none ↦ no_map
  | some slot ↦ bit_value (test_bit (entry tables slot) bit_position)
]

unfoldable pub is_bit_set : PageTables → (cr3 vaddr bit_position : ℕ) → ℤ
is_bit_set tables cr3 vaddr bit_position =
    is_bit_set_on_other tables (page_table_address cr3) vaddr bit_position

unfoldable pub get_page_table_entry : PageTables → (cr3 vaddr : ℕ) → ℕ
get_page_table_entry tables cr3 vaddr =
    elim (mapping (walk tables (page_table_address cr3) vaddr)) [
      | none ↦ 0
      | some slot ↦ entry tables slot
    ]

unfoldable pub get_page_table_entry_force : PageTables → (cr3 vaddr : ℕ) → ℕ
get_page_table_entry_force tables cr3 vaddr = elim (walk tables (page_table_address cr3) vaddr) [
  | unmapped ↦ 0
  | large slot ↦ entry tables slot
  | absent slot ↦ entry tables slot
  | page slot ↦ entry tables slot
]

-- `lock_of` is the kernel's `pte_lockptr`, which is given the address of the first entry of the
-- table: a slot with index 0.
unfoldable pub get_pte_lock :
    {Lock : Type 0} → (lock_of : Slot → Lock) → PageTables → (cr3 vaddr : ℕ) → Option Lock
get_pte_lock lock_of tables cr3 vaddr =
    let pgd = tables (page_table_address cr3) (pml4_index vaddr) in
    let pud = tables (pt_address pgd) (pdp_index vaddr) in
    let pmd = tables (pt_address pud) (pde_index vaddr) in
    if valid pgd
    then (if valid pud
        then (if valid pmd
            then some (lock_of record { table = pt_address pud; index = 0 })
            else none)
        else none)
    else none

-- `check_mode`, on CR0, CR4 and EFER: bits PE, PAE and LMA.
pub data ExecutionMode : Type 0 where
  real_mode : ExecutionMode
  protected_mode : ExecutionMode
  long_mode : ExecutionMode

unfoldable pub check_mode : (cr0 cr4 efer : ℕ) → ExecutionMode
check_mode cr0 cr4 efer =
    if test_bit cr0 0
    then (if test_bit cr4 5 && test_bit efer 10 then long_mode else protected_mode)
    else real_mode
