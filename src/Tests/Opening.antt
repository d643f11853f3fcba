-- ===== src/Tests/Opening.antt =====
-- The theorems on the handler of an invalid opcode, at a page whose master copy has a branch at the
-- offset 8.
use flow_scanner.Prelude.{
  ℕ, ◌+◌, ◌%◌, ◌≡◌, refl, true, false, arith, ltb, leb, ◌==◌, if◌then◌else◌, ◌&&◌, ◌||◌, not, some,
  none, [], ◌∷◌,
}
use flow_scanner.Prelude.Int.{pos}
use flow_scanner.Disassemble.Block.{disassemble_code-Block}
use flow_scanner.Checks.Registry.{at_least_one, run_kernel_check, count_results, decide_check}
use flow_scanner.Paging.Bits.{test_bit}
use flow_scanner.Paging.Walk.{entry, walk, walk_pdp, walk_pde, walk_pte, mapping}
use flow_scanner.Writers.{Kernel}
use flow_scanner.Writers.Zone.{Writable, first_flags}
use flow_scanner.PageRegistry.{
  Registry, PageInfo, PageHashNode, page_mask, find_current_page, first_node, is_page_of, info_of,
}
use flow_scanner.UserLimits.{check_bytes_limit, check_limit, charge_user, first_request}
use flow_scanner.Faults.Steps.{IsMappedAt}
use flow_scanner.InvalidOp.{
  Environment, OpState, memory_at, find_first_invalid_opcode_byte, first_opened, in_page,
}
use flow_scanner.InvalidOp.Fetch.{info_bytes}
use flow_scanner.InvalidOp.Blocks.{limit_of}
use flow_scanner.InvalidOp.Search.{search_zone}
use flow_scanner.InvalidOp.Handler.{
  opened, passes_check, is_writable, allow_execution, invalid_op_handler,
}
use flow_scanner.InvalidOp.Ends.{is_ended, search_zone-ends}
use flow_scanner.InvalidOp.Checked.{IsAllowed, invalid_op_handler-IsAllowed}
use flow_scanner.InvalidOp.Opening.{Opening, master_copy, user_end}
use flow_scanner.InvalidOp.Opens.{invalid_op_handler-opens}
use flow_scanner.InvalidOp.Allowed.{ReadsAllowed, allow_execution-reads}
use flow_scanner.Tests.Paging.{tables, level, text_area, text_slot, tables-IsLayered}
use flow_scanner.Tests.Zones.{page, closed_code, branch_found, no_stats}
use flow_scanner.Tests.Runs.{runs}

abbrev master : PageInfo
master = record { bytes = page; ref_count = 1; is_shared = false }

abbrev page_node : PageHashNode
page_node = record { pid = 7; address = 8192; info = 0 }

abbrev one_page : Registry
one_page = record {
  page_hash_table = λ b. if b == 7 then page_node ∷ [] else [];
  page_infos = λ at. some master;
  next = 1;
  tot_num_of_pages = 1;
}

abbrev kernel : Kernel
kernel = record {
  get_user_pages_fast = λ calls page_addr num_pages flags. (pos num_pages, λ i. some (7 + i));
  kmap_local_page = λ frame. true;
}

abbrev frames_from_7 : ℕ → ℕ
frames_from_7 i = 7 + i

page-Writable : Writable kernel 8192 1 first_flags (λ i. some (7 + i)) frames_from_7
page-Writable = record {
  answer = refl;
  mapped = record {
    found = λ i h. refl;
    maps = λ i h. refl;
    distinct = λ i j h l e. absurd (omega (arith, e));
  };
}

-- One check function, which accepts every zone; the bytes behind the branch are open.
abbrev environment : Environment
environment = record {
  task = record { tgid = 7; pid = 8; parent_pid = 1; uid = 5 };
  process = record { tgid = 7; cr3 = 4096; hooked = true };
  bucket_of = λ pid. pid % 64;
  allocations = record { zone = true; bytes = true; node = true };
  shared_allocated = true;
  uninitialised = 0;
  data_address = λ info. 92;
  buff = some 50000;
  kmalloc = true;
  materialise = λ page_addr t. t;
  user_page = λ page_addr. none;
  user_bytes = λ address. some closed_code;
  find_vma = λ page_addr. none;
  is_cow_mapping = λ vma. true;
  writer = kernel;
  written = true;
  restored = λ page_addr bytes memory. memory;
  around = record { bucket_of = λ pid. pid % 64; written = true; pgds = 1 ∷ []; own = 9 };
  mode = at_least_one;
  check_functions = record { check = 0; active = true } ∷ [];
  results = λ bytes start end check. 1;
  num_of_contiguous_block = 1;
}

abbrev closed_state : OpState
closed_state = record {
  registry = one_page;
  tables = tables;
  memory = record { frames = λ frame offset. 14; pins = 0 };
  cross = [];
  zones = record { zone_hash_table = λ b. []; total_zones_size = 0; tot_num_of_zones = 0 };
  users = [];
}

branch-Opening :
    Opening environment closed_state 8200 0 17 114 branch_found.stats
      (λ i. some (7 + i))
      frames_from_7
unfolding find_current_page first_node is_page_of info_of find_first_invalid_opcode_byte
    first_opened in_page limit_of info_bytes passes_check run_kernel_check count_results
    decide_check check_bytes_limit check_limit charge_user first_request
branch-Opening = record {
  hooked = refl;
  nonzero = omega arith;
  registered = refl;
  one_block = refl;
  placed = omega arith;
  in_memory = omega arith;
  exits = omega arith;
  short = omega arith;
  block =
      (disassemble_code-Block (memory_at 92 page) 100 114 no_stats branch_found (omega arith)
          (omega arith) (omega arith)).0
        runs.page_run;
  accepted = refl;
  within = refl;
  writable = page-Writable;
  opcode = λ e. absurd (omega (arith, e));
}

invalid_op_handler-opens_example :
    ((invalid_op_handler environment closed_state 6 8200 4).1
      ≡ opened 8200 (user_end environment 8200 0 114))
    × ((invalid_op_handler environment closed_state 6 8200 4).0.tables ≡ tables)
    × ((invalid_op_handler environment closed_state 6 8200 4).0.memory.frames (frames_from_7 0) 10
        ≡ (if leb 8200 (page_mask 8200 + 10)
              && ltb (page_mask 8200 + 10) (user_end environment 8200 0 114)
            then master_copy closed_state 0 10
            else 14))
invalid_op_handler-opens_example =
    invalid_op_handler-opens environment closed_state 8200 0 17 114 branch_found.stats
      (λ i. some (7 + i)) frames_from_7 branch-Opening 10 (omega arith)

invalid_op_handler-IsAllowed_example :
    IsAllowed environment 8200
      (search_zone environment closed_state 8200)
      (invalid_op_handler environment closed_state 6 8200 4).0
      (invalid_op_handler environment closed_state 6 8200 4).1
invalid_op_handler-IsAllowed_example =
    invalid_op_handler-IsAllowed environment closed_state 6 8200 4

search_zone-ends_example : is_ended (search_zone environment closed_state 8200).1 ≡ true
search_zone-ends_example = search_zone-ends environment (λ info. omega arith) closed_state 8200

text-IsMappedAt : IsMappedAt level environment.process 5000 text_slot tables
unfolding walk walk_pdp walk_pde walk_pte mapping test_bit
text-IsMappedAt = record { layered = tables-IsLayered; maps = refl }

allow_execution-reads_example :
    ReadsAllowed
      (allow_execution environment (some text_area) 5000 tables)
      4096
      (page_mask 5000)
      (not (is_writable (some text_area)) && test_bit (entry tables text_slot) 1)
      (is_writable (some text_area) || test_bit (entry tables text_slot) 57)
allow_execution-reads_example =
    allow_execution-reads level environment refl (refl, tt) 5000 text_slot tables (some text_area)
      text-IsMappedAt
