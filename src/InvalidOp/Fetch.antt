-- ===== src/InvalidOp/Fetch.antt =====
-- How invalid_op_handler of libs/fprobes/fprober_invalid_op.c finds the master copy of a page:
-- register_page_fetched_before_fork, page_not_fetched_yet, and the lookups of the loop.
use flow_scanner.Prelude.{ℕ, ◌+◌, Bool, ◌==◌, if◌then◌else◌, ◌||◌, not, Option, some, none}
use flow_scanner.Paging.Bits.{test_bit}
use flow_scanner.Paging.Walk.{get_page_table_entry}
use flow_scanner.Paging.Flip.{VmArea}
use flow_scanner.Writers.{Data, Pages, UserArea}
use flow_scanner.Writers.Fill.{close_outer_zone}
use flow_scanner.PageRegistry.{
  Registry, PageInfo, page_mask, first_node, is_page_of, find_current_page, register_private_page,
  register_shared_page, page_shared_not_registered_yet,
}
use flow_scanner.Faults.{exe_deny_bit, orig_exe_bit}
use flow_scanner.InvalidOp.{OpState, Environment}

-- The bytes of a registered page. A page_info is allocated as long as a node leads to it.
unfoldable pub info_bytes : Option PageInfo → Data
info_bytes none = λ _. 0
info_bytes (some info) = info.bytes

-- Registers the bytes as a shared or as a private page of the current process.
unfoldable pub register_bytes :
    Environment → Registry → VmArea → Data → (page_addr : ℕ) → Registry × Option ℕ
register_bytes env r vma bytes page_addr =
    let a = env.allocations in
    if vma.vm_shared
    then register_shared_page env.bucket_of r a.bytes a.node env.shared_allocated env.uninitialised
        env.process.tgid (some bytes) page_addr
    else register_private_page env.bucket_of r a.bytes a.node env.process.tgid (some bytes)
        page_addr

unfoldable pub register_page_fetched_before_fork :
    Environment → Registry → (address : ℕ) → VmArea → Registry × Option ℕ
register_page_fetched_before_fork env r address vma =
    let parent = env.task.parent_pid in
    elim (first_node (is_page_of parent (page_mask address))
      (r.page_hash_table (env.bucket_of parent))) [
        | none ↦ (r, none)
        | some node ↦
            register_bytes env r vma (info_bytes (r.page_infos node.info)) (page_mask address)
      ]

-- The page is executable: it can be fetched already, or it will be checked at its first fetch.
unfoldable pub is_executable : (pte : ℕ) → Bool
is_executable pte = not (test_bit pte exe_deny_bit) || test_bit pte orig_exe_bit

-- NULL, ERR_PTR(PAGE_NOT_EXE), or the page_info.
pub data NotFetched : Type 0 where
  failed : NotFetched
  page_not_exe : NotFetched
  fetched : (info : ℕ) → NotFetched

unfoldable pub user_area : Environment → VmArea → UserArea
user_area env vma = record { vm_write = vma.vm_write; is_cow_mapping = env.is_cow_mapping vma }

-- The page of the process is filled with the illegal opcode; the result is only printed.
unfoldable pub close_page : Environment → Pages → VmArea → Data → (page_addr : ℕ) → Pages
close_page env memory vma bytes page_addr =
    (close_outer_zone env.writer memory env.kmalloc bytes page_addr (page_addr + 4096) 1
      (some (user_area env vma))).0

-- An executable page: it is registered, then closed.
unfoldable pub register_and_close :
    Environment → OpState → VmArea → Data → (page_addr : ℕ) → OpState × NotFetched
register_and_close env s vma bytes page_addr =
    let (registered, info) = register_bytes env s.registry vma bytes page_addr in
    elim info [
      | none ↦ (record s { registry = registered }, failed)
      | some at ↦ (
        record s { registry = registered; memory = close_page env s.memory vma bytes page_addr },
        fetched at,
      )
    ]

-- Behind copy_from_user, which has materialised the page.
unfoldable pub fetch_copied :
    Environment → OpState → VmArea → Data → (page_addr : ℕ) → OpState × NotFetched
fetch_copied env s vma bytes page_addr =
    let pte = get_page_table_entry s.tables env.process.cr3 page_addr in
    if pte == 0
    then (s, failed)
    else (if is_executable pte
        then register_and_close env s vma bytes page_addr
        else (s, page_not_exe))

unfoldable pub page_not_fetched_yet :
    Environment → OpState → (address : ℕ) → VmArea → OpState × NotFetched
page_not_fetched_yet env s address vma =
    let page_addr = page_mask address in
    let read : OpState = record s { tables = env.materialise page_addr s.tables } in
    elim (env.user_page page_addr) [
      | none ↦ (if env.kmalloc then read else s, failed)
      | some bytes ↦ if env.kmalloc then fetch_copied env read vma bytes page_addr else (s, failed)
    ]

-- What the loop comes to for a page: no vm area (the handler gives up), no master copy, or the
-- page_info, with whether the page was fetched before.
pub data Lookup : Type 0 where
  unmapped_page : Lookup
  missing_page : Option VmArea → Lookup
  page_at : (info : ℕ) → (not_fetched : Option VmArea) → Lookup

unfoldable pub lookup_of : VmArea → OpState × NotFetched → OpState × Lookup
lookup_of vma (s, failed) = (s, missing_page (some vma))
lookup_of vma (s, page_not_exe) = (s, missing_page (some vma))
lookup_of vma (s, fetched info) = (s, page_at info (some vma))

unfoldable pub shared_page : Environment → Registry → VmArea → (page_addr : ℕ) → Registry × Option ℕ
shared_page env r vma page_addr =
    if vma.vm_shared
    then page_shared_not_registered_yet env.bucket_of r env.allocations.node env.process.tgid
        page_addr
    else (r, none)

-- The searches for a page that is not registered, in their order.
unfoldable pub lookup_elsewhere :
    Environment → OpState → (page_addr : ℕ) → VmArea → OpState × Lookup
lookup_elsewhere env s page_addr vma =
    let (after_shared, shared) = shared_page env s.registry vma page_addr in
    let (after_fork, inherited) =
      register_page_fetched_before_fork env after_shared page_addr vma in
    let searched : OpState = record s { registry = after_fork } in
    elim shared [
      | some info ↦ (record s { registry = after_shared }, page_at info (some vma))
      | none ↦ elim inherited [
        | some info ↦ (searched, page_at info (some vma))
        | none ↦ lookup_of vma (page_not_fetched_yet env searched page_addr vma)
      ]
    ]

unfoldable pub lookup_page : Environment → OpState → (page_addr : ℕ) → OpState × Lookup
lookup_page env s page_addr =
    elim (find_current_page env.bucket_of s.registry env.process.tgid page_addr) [
      | some info ↦ (s, page_at info none)
      | none ↦ elim (env.find_vma page_addr) [
        | none ↦ (s, unmapped_page)
        | some vma ↦ lookup_elsewhere env s page_addr vma
      ]
    ]
