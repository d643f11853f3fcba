-- ===== src/Faults/WriteOnly.antt =====
-- Page faults in vm areas that are not executable: the last branch of do_fault_ret_handler_f of
-- libs/fprobes/fprober_handle_mm.c.

use flow_scanner.Prelude.{
  ℕ, ◌≡◌, refl, ap, ◌∙◌, Bool, false, ◌==◌, ◌⊎◌, Bool-cases, inl, inr, Option, some,
}
use flow_scanner.Paging.Walk.{PageTables, get_page_table_entry}
use flow_scanner.Paging.Flip.{VmArea}
use flow_scanner.PageRegistry.{page_mask}
use flow_scanner.Faults.{
  FaultResult, AddrInfo, FaultState, Process, Surroundings, handle_wx, handle_page, is_handled,
  do_fault_handler, do_fault_ret_handler, page_fault, is_excluded, is_watched, write_page,
  restore_written, handle_w,
}
use flow_scanner.Faults.PageFault.{not_watched}

handle_page_unexecutable :
    (around : Surroundings) (process : Process) (info : AddrInfo) (s : FaultState)
    → info.vma.vm_exec ≡ false
    → handle_page around process info s ≡ s
unfolding handle_page handle_wx handle_w write_page restore_written
handle_page_unexecutable around process info s x = elim (Bool-cases info.vma.vm_write) [
  | inl w ↦ elim (Bool-cases info.flags_write) [
    | inl f ↦ rw (x, w, f) refl
    | inr f ↦ rw (x, w, f) refl
  ]
  | inr w ↦ rw (x, w) refl
]

module _ {Name : Type 0} (names_library : Name → Bool) (process : Process) (addr_info : AddrInfo)
    (vma : VmArea) (vm_file : Option Name) (address : ℕ) (flags_write : Bool)
    (tables : PageTables) where
  -- The vm area that the first handler leaves, unless it leaves no address.
  watched_area :
      ((do_fault_handler names_library tables process addr_info
          (some vma)
          vm_file
          address
          flags_write).addr
        ≡ 0)
      ⊎ ((do_fault_handler names_library tables process addr_info
            (some vma)
            vm_file
            address
            flags_write).vma
          ≡ vma)
  unfolding do_fault_handler
  watched_area =
      let pte = get_page_table_entry tables process.cr3 (page_mask address) in
      elim (Bool-cases (process.tgid == 1)) [
        | inl a ↦ inl (rw a refl)
        | inr a ↦ elim (Bool-cases process.hooked) [
          | inr b ↦ inl (rw (a, b) refl)
          | inl b ↦ elim (Bool-cases (is_excluded names_library vm_file)) [
            | inl c ↦ inl (rw (a, b, c) refl)
            | inr c ↦ elim (Bool-cases (is_watched vma flags_write pte)) [
              | inl d ↦ inr (rw (a, b, c, d) refl)
              | inr d ↦ inl (rw (a, b, c, d) refl)
            ]
          ]
        ]
      ]

module _ {Name : Type 0} (names_library : Name → Bool)
    (kernel : FaultState → FaultState × FaultResult) (around : Surroundings) (process : Process)
    (addr_info : AddrInfo) (vma : VmArea) (vm_file : Option Name) (address : ℕ) (flags_write : Bool)
    (s : FaultState) where
  -- A page fault in a vm area that is not executable leaves the page tables and the registered pages
  -- as the kernel left them, also if it is a write that stopped at an entry with ORIG_WRITE_BIT.
  pub page_fault_unexecutable :
      vma.vm_exec ≡ false
      → page_fault names_library kernel around process addr_info
          (some vma)
          vm_file
          address
          flags_write
          s
        ≡ (kernel s).0
  unfolding page_fault do_fault_ret_handler
  page_fault_unexecutable x =
      let info : AddrInfo =
        do_fault_handler names_library s.tables process addr_info (some vma) vm_file address
          flags_write in
      elim (watched_area names_library process addr_info vma vm_file address flags_write s.tables) [
        | inl e ↦ not_watched around process info (kernel s).1 (kernel s).0 e
        | inr e ↦
            let not_exec : info.vma.vm_exec ≡ false = ap (λ (a : VmArea). a.vm_exec) e ∙ x in
            let same = handle_page_unexecutable around process info (kernel s).0 not_exec in
            elim (Bool-cases (is_handled info (kernel s).1)) [
              | inl h ↦ rw h same
              | inr h ↦ rw h refl
            ]
      ]
