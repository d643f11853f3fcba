-- ===== src/Paging/Flip.antt =====
-- The functions of libs/page_table_libs/page_table_utils.c that change bits of the entry of a
-- mapped address, and `shared_flip_bit` of libs/utils.c.

use flow_scanner.Prelude.{
  ℕ, zero, suc, ◌+◌, ◌-◌, ◌*◌, ◌/◌, ◌%◌, ◌^◌, Bool, true, ltb, ◌==◌, if◌then◌else◌, ◌&&◌, ◌||◌, not,
  Option, some, none, List, [], ◌∷◌,
}
use flow_scanner.Prelude.Int.{ℤ, pos, negsuc}
use flow_scanner.Paging.Bits.{test_bit, put_bit, set_bit, clear_bit}
use flow_scanner.Paging.Walk.{
  PageTables, Slot, entry, pml4_index, valid, pt_address, walk, page_table_address, no_map,
  is_mapped, mapping, is_bit_set_on_other,
}

-- The tables with another word in a slot.
unfoldable pub store : PageTables → Slot → ℕ → PageTables
store tables slot w table index =
    if table == slot.table && index == slot.index then w else tables table index

unfoldable pub flip_bit_on_other :
    PageTables → (pgd vaddr bit_position : ℕ) → (set : Bool) → PageTables × ℤ
flip_bit_on_other tables pgd vaddr bit_position set = elim (mapping (walk tables pgd vaddr)) [
  | none ↦ (tables, no_map)
  | some slot ↦ (store tables slot (put_bit (entry tables slot) bit_position set), is_mapped)
]

unfoldable pub flip_bit : PageTables → (cr3 vaddr bit_position : ℕ) → (set : Bool) → PageTables × ℤ
flip_bit tables cr3 vaddr bit_position set =
    flip_bit_on_other tables (page_table_address cr3) vaddr bit_position set

-- A vm area: its addresses, and VM_SHARED, VM_WRITE and VM_EXEC of `vm_flags`.
pub record VmArea : Type 0 where
  pub vm_start : ℕ
  pub vm_end : ℕ
  pub vm_shared : Bool
  pub vm_write : Bool
  pub vm_exec : Bool

-- What is done with the word of an entry.
-- In `USER_BIT` a position stands for a mask: the test `& USER_BIT` reads bit 1, WRITE_BIT.
unfoldable pub user_bit : ℕ → Bool
user_bit w = test_bit w 1

unfoldable pub deny_execution : ℕ → ℕ
deny_execution w = if user_bit w then set_bit (set_bit w 63) 56 else w

unfoldable pub deny_write : ℕ → ℕ
deny_write w = if user_bit w then set_bit (clear_bit w 1) 57 else w

-- One address of a loop over the pages of a vm area.
unfoldable pub change_entry : (ℕ → ℕ) → PageTables → (pgd vaddr : ℕ) → PageTables
change_entry change tables pgd vaddr = elim (mapping (walk tables pgd vaddr)) [
  | none ↦ tables
  | some slot ↦ store tables slot (change (entry tables slot))
]

-- The addresses of the loop: from `address` on in steps of PAGE_SIZE.
unfoldable pub change_pages : (pages : ℕ) → (ℕ → ℕ) → PageTables → (pgd address : ℕ) → PageTables
change_pages zero change tables pgd address = tables
change_pages (suc pages) change tables pgd address =
    change_pages pages change (change_entry change tables pgd address) pgd (address + 4096)

unfoldable pub vma_pages : VmArea → ℕ
vma_pages vma = (vma.vm_end - vma.vm_start + 4095) / 4096

unfoldable pub change_area : (ℕ → ℕ) → PageTables → (pgd : ℕ) → VmArea → PageTables
change_area change tables pgd vma = change_pages (vma_pages vma) change tables pgd vma.vm_start

-- `for_each_vma`: `rule` is what is done with the entries of a vm area, if anything.
unfoldable pub for_each_vma :
    (rule : VmArea → Option (ℕ → ℕ)) → PageTables → (pgd : ℕ) → List VmArea → PageTables
for_each_vma rule tables pgd [] = tables
for_each_vma rule tables pgd (vma ∷ vmas) = elim (rule vma) [
  | none ↦ for_each_vma rule tables pgd vmas
  | some change ↦ for_each_vma rule (change_area change tables pgd vma) pgd vmas
]

unfoldable pub executable_rule : VmArea → Option (ℕ → ℕ)
executable_rule vma = if vma.vm_exec then some deny_execution else none

unfoldable pub set_all_pages_non_executable : PageTables → (cr3 : ℕ) → List VmArea → PageTables
set_all_pages_non_executable tables cr3 vmas =
    for_each_vma executable_rule tables (page_table_address cr3) vmas

unfoldable pub writable_rule : VmArea → Option (ℕ → ℕ)
writable_rule vma = if vma.vm_write then some deny_write else none

unfoldable pub set_all_pages_non_writable : PageTables → (cr3 : ℕ) → List VmArea → PageTables
set_all_pages_non_writable tables cr3 vmas =
    for_each_vma writable_rule tables (page_table_address cr3) vmas

unfoldable pub is_shared_wx : VmArea → Bool
is_shared_wx vma = vma.vm_shared && vma.vm_write && vma.vm_exec

unfoldable pub shared_rule : VmArea → Option (ℕ → ℕ)
shared_rule vma = if is_shared_wx vma then some deny_write else none

unfoldable pub set_all_sh_pages_non_writable : PageTables → (cr3 : ℕ) → List VmArea → PageTables
set_all_sh_pages_non_writable tables cr3 vmas =
    for_each_vma shared_rule tables (page_table_address cr3) vmas

unfoldable pub inherited_rule : VmArea → Option (ℕ → ℕ)
inherited_rule vma =
    if is_shared_wx vma
    then some deny_write
    else (if not vma.vm_shared && vma.vm_exec then some deny_execution else none)

unfoldable pub manage_inherited_pages : PageTables → (cr3 : ℕ) → List VmArea → PageTables
manage_inherited_pages tables cr3 vmas =
    for_each_vma inherited_rule tables (page_table_address cr3) vmas

-- `shared_flip_bit` in a build with SHARED_DEFENCE, on the page tables in the nodes of the bucket and the one of the vm area. A
-- result of `is_bit_set_on_other` other than 0 counts as true, -EFAULT as well.
unfoldable pub is_nonzero : ℤ → Bool
is_nonzero (pos n) = not (n == 0)
is_nonzero (negsuc n) = true

unfoldable pub shared_flip_one :
    PageTables → (pgd vaddr bit_position : ℕ) → (set : Bool) → PageTables
shared_flip_one tables pgd vaddr bit_position set =
    let flipped = (flip_bit_on_other tables pgd vaddr bit_position set).0 in
    let reading = is_nonzero (is_bit_set_on_other tables pgd vaddr bit_position) in
    if not set || (bit_position == 63 && set)
    then flipped
    else (if reading || (bit_position == 63 && not reading) then flipped else tables)

unfoldable pub shared_flip_bit :
    PageTables → (pgds : List ℕ) → (own vaddr bit_position : ℕ) → (set : Bool) → PageTables
shared_flip_bit tables [] own vaddr bit_position set = tables
shared_flip_bit tables (pgd ∷ pgds) own vaddr bit_position set =
    let next = if pgd == own then tables else shared_flip_one tables pgd vaddr bit_position set in
    shared_flip_bit next pgds own vaddr bit_position set

-- `get_free_pdg_offset`: the first of the `count` entries from `i` on that passes a test, else
-- the index behind them.
unfoldable pub first_entry : (count i : ℕ) → (ℕ → Bool) → ℕ
first_entry zero i test = i
first_entry (suc count) i test =
    let rest = first_entry count (i + 1) test in if test i then i else rest

-- Whether an entry leads to the table of the kernel's address.
unfoldable pub leads_to_same : PageTables → (pgd kernel_addr i : ℕ) → Bool
leads_to_same tables pgd kernel_addr i =
    valid (tables pgd i)
    && pt_address (tables pgd i) == pt_address (tables pgd (pml4_index kernel_addr))

unfoldable pub get_free_pdg_offset : PageTables → (pgd kernel_addr : ℕ) → ℕ
get_free_pdg_offset tables pgd kernel_addr =
    let same : ℕ = first_entry 255 0 (leads_to_same tables pgd kernel_addr) in
    if ltb same 255 then same else first_entry 255 0 (λ i. not (valid (tables pgd i)))

unfoldable pub map_user_address : PageTables → (cr3 kernel_addr : ℕ) → PageTables × ℕ
map_user_address tables cr3 kernel_addr =
    let pgd = page_table_address cr3 in
    let pgd_offset = get_free_pdg_offset tables pgd kernel_addr in
    (
      store tables record { table = pgd; index = pgd_offset } (tables pgd (pml4_index kernel_addr)),
      kernel_addr % 2 ^ 39 + pgd_offset * 2 ^ 39,
    )
