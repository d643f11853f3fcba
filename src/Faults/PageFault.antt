-- ===== src/Faults/PageFault.antt =====
-- What a page fault leaves behind, through do_fault_handler_f and do_fault_ret_handler_f of
-- libs/fprobes/fprober_handle_mm.c together.
use flow_scanner.Prelude.{
  ne→==, ℕ, ◌≡◌, ◌≢◌, refl, Bool, true, false, arith, ◌==◌, ◌⊎◌, Bool-cases, inl, inr, ◌&&◌, ◌||◌,
  ==_iff, Option, some,
}
use flow_scanner.Faults.{
  restore_written, FaultResult, AddrInfo, FaultState, Process, Surroundings, allow_write, handle_wx,
  handle_page, is_handled, do_fault_handler, do_fault_ret_handler, page_fault, is_excluded,
  is_watched, was_writable, write_page, write_bit,
}
use flow_scanner.Paging.Bits.{test_bit}
use flow_scanner.Paging.Walk.{PageTables, Slot, entry, page_table_address, get_page_table_entry}
use flow_scanner.Paging.Flip.{VmArea}
use flow_scanner.PageRegistry.{page_mask}
use flow_scanner.Faults.Steps.{IsMappedAt, AreTop}
use flow_scanner.Faults.Executable.{
  IsDenied, ReadsDenied, IsDenied-reads, deny_wx-IsDenied, deny_x-IsDenied, allow_write_writes,
}

-- The page may be written behind the fault: it could be before, or the fault is a write that
-- stopped at an entry with ORIG_WRITE_BIT.
abbrev pub is_written : VmArea → (flags_write : Bool) → (pte : ℕ) → Bool
is_written vma flags_write pte = vma.vm_write && (flags_write && was_writable pte)

module _ (level : ℕ → ℕ) (process : Process) (top : level (page_table_address process.cr3) ≡ 4)
    (around : Surroundings) (tops : AreTop level around.pgds) (slot : Slot) (info : AddrInfo)
    (s : FaultState) (m : IsMappedAt level process info.addr slot s.tables) where
  handle_wx-IsDenied :
      IsMappedAt level process info.addr slot (handle_wx around process info s).tables
      × IsDenied
          (handle_wx around process info s).tables
          slot
          ((info.flags_write && was_writable info.pte) || test_bit (entry s.tables slot) write_bit)
  unfolding handle_wx write_page
  handle_wx-IsDenied = elim (Bool-cases (info.flags_write && was_writable info.pte)) [
    | inl e ↦
        let allowed = allow_write around process info.addr s.tables in
        let (ma, written) =
          allow_write_writes level process top around tops info.addr slot s.tables m in
        let (md, d) = deny_wx-IsDenied level process top around tops info.addr slot allowed ma in
        rw e (md, rw written at d)
    | inr e ↦ rw e (deny_wx-IsDenied level process top around tops info.addr slot s.tables m)
  ]

  handle_page-IsDenied :
      info.vma.vm_exec ≡ true
      → IsMappedAt level process info.addr slot (handle_page around process info s).tables
        × IsDenied (handle_page around process info s).tables slot (
            is_written info.vma info.flags_write info.pte
            || test_bit (entry s.tables slot) write_bit)
  unfolding handle_page handle_wx write_page restore_written
  handle_page-IsDenied x = elim (Bool-cases info.vma.vm_write) [
    | inl w ↦ rw (x, w) handle_wx-IsDenied
    | inr w ↦ rw (x, w) (deny_x-IsDenied level process top around tops info.addr slot s.tables m)
  ]

  -- If the page tables stand in four layers, the page is mapped, the vm area is executable, and the
  -- fault was handled by the kernel and is a write or a materialisation, then execution of the page
  -- is denied behind do_fault_ret_handler, the page is marked as executable and as not checked, and
  -- it may be written exactly if it could be before, or if the vm area is writable and the fault is
  -- a write that stopped at an entry with ORIG_WRITE_BIT.
  pub do_fault_ret_handler-denied :
      (result : FaultResult)
      → info.vma.vm_exec ≡ true
      → is_handled info result ≡ true
      → ReadsDenied
          (do_fault_ret_handler around process info result s).tables
          process.cr3
          (page_mask info.addr)
          (is_written info.vma info.flags_write info.pte
            || test_bit (entry s.tables slot) write_bit)
  unfolding do_fault_ret_handler
  do_fault_ret_handler-denied result x h =
      let (md, d) = handle_page-IsDenied x in
      let writable =
        is_written info.vma info.flags_write info.pte || test_bit (entry s.tables slot) write_bit in
      rw h (
        IsDenied-reads level process info.addr slot (handle_page around process info s).tables
          writable md d)

-- The first handler watches the fault of this process in this vm area.
module _ {Name : Type 0} (names_library : Name → Bool) (process : Process) (addr_info : AddrInfo)
    (vma : VmArea) (vm_file : Option Name) (address : ℕ) (flags_write : Bool)
    (tables : PageTables) where
  do_fault_handler_watched :
      (process.tgid == 1) ≡ false
      → process.hooked ≡ true
      → is_excluded names_library vm_file ≡ false
      → vma.vm_exec ≡ true
      → do_fault_handler names_library tables process addr_info
          (some vma)
          vm_file
          address
          flags_write
        ≡ record {
          vma = vma;
          flags_write = flags_write;
          addr = address;
          pte = get_page_table_entry tables process.cr3 (page_mask address);
        }
  unfolding do_fault_handler is_watched
  do_fault_handler_watched init hooked excluded x = rw (init, hooked, excluded, x) refl

  do_fault_handler_idle :
      ((process.tgid == 1) ≡ true)
        ⊎ ((process.hooked ≡ false) ⊎ (is_excluded names_library vm_file ≡ true))
      → (do_fault_handler names_library tables process addr_info
          (some vma)
          vm_file
          address
          flags_write).addr
        ≡ 0
  unfolding do_fault_handler
  do_fault_handler_idle why = ground arith

-- The second handler does nothing if the first one left no address.
pub not_watched :
    (around : Surroundings) (process : Process) (info : AddrInfo) (result : FaultResult)
    (s : FaultState)
    → info.addr ≡ 0
    → do_fault_ret_handler around process info result s ≡ s
unfolding do_fault_ret_handler is_handled
not_watched around process info result s e =
    let zero_address : (info.addr == 0) ≡ true = (==_iff info.addr 0).1 e in rw zero_address refl

module _ {Name : Type 0} (names_library : Name → Bool)
    (kernel : FaultState → FaultState × FaultResult) (around : Surroundings) (process : Process)
    (addr_info : AddrInfo) (vma : VmArea) (vm_file : Option Name) (address : ℕ) (flags_write : Bool)
    (s : FaultState) where
  -- A page fault of init, of a process that is not hooked or in a vm area of an excluded file
  -- leaves the page tables and the registered pages as the kernel left them.
  pub page_fault_excluded :
      ((process.tgid == 1) ≡ true)
        ⊎ ((process.hooked ≡ false) ⊎ (is_excluded names_library vm_file ≡ true))
      → page_fault names_library kernel around process addr_info
          (some vma)
          vm_file
          address
          flags_write
          s
        ≡ (kernel s).0
  unfolding page_fault
  page_fault_excluded why =
      not_watched around process
        (do_fault_handler names_library s.tables process addr_info (some vma) vm_file address
          flags_write)
        (kernel s).1 (kernel s).0
        (do_fault_handler_idle names_library process addr_info vma vm_file address flags_write
          s.tables why)

  -- If a hooked process other than init has a page fault in an executable vm area of no excluded
  -- file, at an address other than 0, the kernel handles it without error and retry as a write or a
  -- materialisation, and the page tables stand in four layers behind the kernel and map the page
  -- there, then behind the page fault execution of the page is denied, the page is marked as
  -- executable and as not checked, and it may be written exactly if the kernel left it writable or
  -- if the vm area is writable and the fault is a write at an entry that had ORIG_WRITE_BIT.
  pub page_fault_executable :
      (level : ℕ → ℕ) (slot : Slot)
      → level (page_table_address process.cr3) ≡ 4
      → AreTop level around.pgds
      → IsMappedAt level process address slot (kernel s).0.tables
      → (process.tgid == 1) ≡ false
      → process.hooked ≡ true
      → is_excluded names_library vm_file ≡ false
      → vma.vm_exec ≡ true
      → address ≢ 0
      → (kernel s).1.fault_error ≡ false
      → (kernel s).1.fault_retry ≡ false
      → (flags_write || (kernel s).1.fault_nopage) ≡ true
      → ReadsDenied
          (page_fault names_library kernel around process addr_info
            (some vma)
            vm_file
            address
            flags_write
            s).tables
          process.cr3
          (page_mask address)
          (is_written vma flags_write
              (get_page_table_entry s.tables process.cr3 (page_mask address))
            || test_bit (entry (kernel s).0.tables slot) write_bit)
  unfolding page_fault is_handled
  page_fault_executable level slot top tops m init hooked excluded x some_address no_error no_retry
        kind =
      let info : AddrInfo = record {
        vma = vma;
        flags_write = flags_write;
        addr = address;
        pte = get_page_table_entry s.tables process.cr3 (page_mask address);
      } in
      let watched =
        do_fault_handler_watched names_library process addr_info vma vm_file address flags_write
          s.tables init hooked excluded x in
      let not_zero : (address == 0) ≡ false = ne→== address 0 some_address in
      let handled : is_handled info (kernel s).1 ≡ true =
        rw (not_zero, no_error, no_retry, kind) refl in
      rw watched (
        do_fault_ret_handler-denied level process top around tops slot info (kernel s).0 m
          (kernel s).1 x handled)
