-- ===== src/Tests/Faults.antt =====
-- The theorems on page faults and on changes of protections, at a process with two mapped pages.

use flow_scanner.Prelude.{
  ℕ, ◌+◌, ◌%◌, ◌≡◌, refl, Bool, true, false, arith, ltb, ◌==◌, if◌then◌else◌, inl, inr, ◌&&◌, ◌||◌,
  not, some, none, [], ◌∷◌,
}
use flow_scanner.Paging.Bits.{test_bit}
use flow_scanner.Paging.Walk.{
  PageTables, entry, walk, walk_pdp, walk_pde, walk_pte, mapping, get_page_table_entry,
}
use flow_scanner.Paging.Flip.{VmArea}
use flow_scanner.PageRegistry.{Registry, page_mask}
use flow_scanner.Faults.{
  Process, Surroundings, FaultState, FaultResult, AddrInfo, page_fault, is_excluded,
}
use flow_scanner.Faults.Steps.{IsMappedAt}
use flow_scanner.Faults.Executable.{ReadsDenied}
use flow_scanner.Faults.PageFault.{is_written, page_fault_executable, page_fault_excluded}
use flow_scanner.Faults.WriteOnly.{page_fault_unexecutable}
use flow_scanner.Protections.{VmFlags, change_protection_handler}
use flow_scanner.Protections.Change.{protected_bit, change_protection_handler_bits}
use flow_scanner.Mappings.{MmapInfo}
use flow_scanner.HookedPids.{Hooks, is_hooked, exec_handler, handle_exit}
use flow_scanner.HookedPids.Threads.{times_hooked, count_matches, exec_handler-handle_exit}
use flow_scanner.Tests.Paging.{tables, level, text_area, text_slot, tables-IsLayered}

abbrev hooked_process : Process
hooked_process = record { tgid = 7; cr3 = 4096; hooked = true }

abbrev free_process : Process
free_process = record { tgid = 7; cr3 = 4096; hooked = false }

abbrev nobody : Surroundings
nobody = record { bucket_of = λ pid. pid % 16; written = true; pgds = 1 ∷ []; own = 9 }

abbrev no_pages : Registry
no_pages = record {
  page_hash_table = λ b. [];
  page_infos = λ at. none;
  next = 0;
  tot_num_of_pages = 0;
}

abbrev state : FaultState
state = record { tables = tables; registry = no_pages }

-- handle_mm_fault finds the page present.
abbrev kernel : FaultState → FaultState × FaultResult
kernel s = (s, record { fault_error = false; fault_retry = false; fault_nopage = true })

abbrev nothing_saved : AddrInfo
nothing_saved = record { vma = text_area; flags_write = false; addr = 0; pte = 0 }

abbrev plain_area : VmArea
plain_area = record {
  vm_start = 4096;
  vm_end = 12288;
  vm_shared = false;
  vm_write = true;
  vm_exec = false;
}

-- No name is one of a library.
abbrev names_library : ℕ → Bool
names_library name = false

text-IsMappedAt : IsMappedAt level hooked_process 5000 text_slot tables
unfolding walk walk_pdp walk_pde walk_pte mapping test_bit
text-IsMappedAt = record { layered = tables-IsLayered; maps = refl }

page_fault_executable_example :
    ReadsDenied
      (page_fault names_library kernel nobody hooked_process nothing_saved
        (some text_area)
        none
        5000
        true
        state).tables
      4096
      (page_mask 5000)
      (is_written text_area true (get_page_table_entry tables 4096 (page_mask 5000))
        || test_bit (entry tables text_slot) 1)
unfolding is_excluded
page_fault_executable_example =
    page_fault_executable names_library kernel nobody hooked_process nothing_saved text_area none
      5000 true state level text_slot refl (refl, tt) text-IsMappedAt refl refl refl refl
      (λ e. absurd (omega (arith, e))) refl refl refl

page_fault_excluded_example :
    page_fault names_library kernel nobody free_process nothing_saved
      (some text_area)
      none
      5000
      true
      state
    ≡ state
page_fault_excluded_example =
    page_fault_excluded names_library kernel nobody free_process nothing_saved text_area none 5000
      true state (inr (inl refl))

page_fault_unexecutable_example :
    page_fault names_library kernel nobody hooked_process nothing_saved
      (some plain_area)
      none
      5000
      true
      state
    ≡ state
page_fault_unexecutable_example =
    page_fault_unexecutable names_library kernel nobody hooked_process nothing_saved plain_area none
      5000 true state refl

abbrev written_code : VmFlags
written_code = record { write = true; exec = false; was_executable = true }

-- The protection 7 is present, writable, of the user.
change_protection_handler_bits_example :
    test_bit (change_protection_handler names_library hooked_process none written_code 7) 1 ≡ (
      if 7 == 1 || not true || is_excluded names_library none
      then test_bit 7 1
      else protected_bit 7 (true && true) 1)
change_protection_handler_bits_example =
    change_protection_handler_bits names_library hooked_process none written_code 7 1

abbrev new_mapping : MmapInfo ℕ
new_mapping = record { name = none; addr = 4096; len = 5000; prot_exec = true; anonymous = true }

-- get_user_pages finds both pages mapped.
abbrev already : ℕ → PageTables → PageTables
already page_addr t = t

abbrev no_hooks : Hooks
no_hooks = record { hooked_pids = λ b. []; started = false; finished = false }

-- A name contains itself.
exec_handler-handle_exit_example :
    is_hooked
      (λ pid. pid % 16)
      (handle_exit
        (λ pid. pid % 16)
        (exec_handler ◌==◌ (λ pid. pid % 16) (5 ∷ 5 ∷ []) no_hooks 7 (some 5))
        7
        true
        false)
      7
    ≡ (if 7 == 7
        then ltb 1 (times_hooked (λ pid. pid % 16) no_hooks 7 + count_matches ◌==◌ 5 (5 ∷ 5 ∷ []))
        else is_hooked (λ pid. pid % 16) no_hooks 7)
exec_handler-handle_exit_example =
    exec_handler-handle_exit ◌==◌ (λ pid. pid % 16) 7 7 5 (5 ∷ 5 ∷ []) no_hooks true false
