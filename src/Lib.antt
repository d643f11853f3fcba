-- ===== src/Lib.antt =====
-- FlowScanner: a kernel module that watches the machine code a process writes at run time. It lets
-- such code run zone by zone, from an entry to the next transfer of control, and looks at each zone
-- before it lets it run.
--
-- What is modelled, by file:
-- - Prelude: numbers, Boolean tests, lists, and the type of a jump to an exit label (Prelude/Exits).
-- - Tables: the opcode tables of libs/ld.h, bit for bit, with BITMASK32 and CHECK_TABLE (Tables/Mask)
--   and the tests of single bytes (Tables/Tests).
-- - Instruction: the enum and the fields of the ModR/M and SIB bytes of libs/instruction.h.
-- - Decoder: one round of the loop of disassemble_code in libs/zone.c. Decoder/Prefix is the scan of
--   the prefixes, Decoder/Vex, Decoder/Classify and Decoder/Opcode are the opcode up to the label
--   check_mod_rm_byte, Decoder/Operand is the ModR/M and SIB bytes and REX.W, Decoder/Insn composes
--   them up to the label next. The locals of the function are the records Prefixes and Operands; a
--   local stands in the record of the stage that sets it. `goto cross_page_exit` and
--   `goto error_exit` are the exits of the type Flow.
-- - Disassemble: the loop over the instructions, its counters and its three exits, as
--   disassemble_code. Disassemble/Block has the specification: a relation for a run of instructions
--   up to the first transfer of control.
-- - FindRet: find_ret of libs/utils.c, a second copy of the decoder without a limit (FindRet/Decode),
--   with its loop. FindRet/Opcode and FindRet/Alike compare the two copies, FindRet/Path has the
--   specification.
-- - Checks: the checks of a zone before it is opened. Checks/Registry is libs/kernel_checks.c (the list
--   of check functions, and run_kernel_check), Checks/Search is libs/check_functions (dumb_memmem and
--   check_function_1); Checks/Modes, Checks/Find and Checks/Windows have their theorems. What a
--   registered function answers is a parameter.
-- - Paging: libs/page_table_libs/page_table_utils.c and shared_flip_bit of libs/utils.c. Paging/Walk is
--   the walk through the four levels, which each function of the source spells out, and the functions
--   that read an entry; Paging/Flip the functions that change entries. The page tables are a function
--   from a page frame and an index to an entry; the address of an entry is a Slot, and bit positions
--   are below 64. Paging/Layers, Paging/Change, Paging/Loops and Paging/Areas carry the proofs from a
--   word to an entry, a page, a vm area and all vm areas, and Paging/Unreached has what these leave
--   alone.
-- - Writers: write_pages_on_not_writable_user_pages and write_zone_on_not_writable_user_pages of
--   libs/utils.c, and close_outer_zone, close_inner_zone and restore_zone_bytes of libs/zone.c. The
--   kernel's answers are the record Kernel; the functions of libs/zone.c stand in Writers/Fill.
--   Writers/Copies has what the copies leave in the frames,
--   Writers/Zone, Writers/Whole, Writers/Pins and Writers/Close the theorems.
-- - PageRegistry: the table of the pages that have been fetched and their master copies, from
--   libs/fprobes/fprobes_helper.c, libs/utils.c and libs/zone.c. A page_info has an address in a
--   store, so that nodes can share it and outlive it. PageRegistry/Removal has restore_page and
--   restore_sh_page. PageRegistry/Find, PageRegistry/Shared and
--   PageRegistry/Restore have the theorems.
-- - UserLimits: check_bytes_limit and check_page_limit of libs/fprobes/fprobes_helper.c;
--   UserLimits/Accounts and UserLimits/Blocking have the theorems.
-- - CrossPages: the table of pages with instructions that cross a page, from
--   libs/fprobes/fprobes_helper.c and libs/utils.c; CrossPages/Flags has its theorem.
-- - ZoneTable: transfer_zone and create_zone of libs/zone.c; ZoneTable/Create has their theorem.
-- - HookedPids: hooked_pids of mod.c, with exec_handler and handle_exit of
--   libs/fprobes/fprober_proc_mngmt.c; HookedPids/Threads has the theorems.
-- - Clone: kernel_clone_ret_handler_f with add_shared_to_hash, of the same file; Clone/Shared has the
--   theorems.
-- - Faults: do_fault_handler_f and do_fault_ret_handler_f of libs/fprobes/fprober_handle_mm.c, and the
--   page fault that they enclose, with handle_mm_fault as a function. Faults/Steps has the single
--   changes of an entry, Faults/Executable the denial of execution, Faults/PageFault and
--   Faults/WriteOnly the theorems.
-- - Protections: libs/fprobes/fprobe_change_prot.c; Protections/Change has the theorems. A vm area's
--   flags are the Booleans that the handlers read.
-- - Mappings: libs/fprobes/fprober_mmap.c and libs/fprobes/fprober_new.c; Mappings/Pages and
--   Mappings/Denied have the theorems. get_user_pages is a function on page tables.
-- - InvalidOp: invalid_op_handler of libs/fprobes/fprober_invalid_op.c, which puts the parts above
--   together. InvalidOp itself has the state and the functions on bytes, InvalidOp/Fetch the lookups
--   of a master copy, InvalidOp/Blocks and InvalidOp/Search the search for the end of the zone,
--   InvalidOp/Handler the rest, with the labels exit, error_exit and restore_page as definitions. What
--   the kernel answers is the record Environment. InvalidOp/Settled has the end of the loop over the
--   blocks, InvalidOp/Opening what the search finds behind a trap; InvalidOp/Ends, InvalidOp/Checked,
--   InvalidOp/Opens and InvalidOp/Allowed have the theorems.
-- - Tests: runs, and the theorems at concrete zones.
--
-- Numbers: addresses are natural numbers, a byte is taken modulo 256, the counters of instructions wrap
-- at 8 bits, and the size of a zone, its end and what a user has allocated are computed modulo 2 ^ 64.
-- The cursor itself is not reduced: it stays within a few bytes of the end of a zone, and a zone in
-- user memory ends far below 2 ^ 64. A page has 4096 bytes, and a zone lies on one or two pages, as
-- MAX_PAGES says.
--
-- How the parts interact: exec_handler decides which threads are watched. do_mmap_ret_handler,
-- change_protection_handler and do_fault_ret_handler deny the execution of their pages, and a write to
-- code gives up its execution again. invalid_op_handler finds the master copy of the page of a trap,
-- disassemble_code gives the end of a zone, create_zone registers it, the
-- writers put its bytes in place of the opcode 0E with which close_outer_zone fills the rest of its
-- pages, and close_inner_zone takes them away again. The bits of the page tables decide which faults
-- the kernel reports to the module, and the page registry keeps what the pages held.
--
-- Fuel: the scan of the prefixes gets the distance to the limit, since each prefix takes a byte; the
-- loop over the instructions gets the size of the zone and one, since each instruction takes a byte.
-- The search for the end of a zone gets 4097 blocks for each page, since each block takes a byte.
-- find_ret does not bound the prefixes of an instruction, so their longest run is a parameter there.
-- Running out of fuel is a value of its own (`stuck`, `none`, `endless`), which the theorems exclude.
-- All other loops are over lists and numbers of pages.
--
-- What the kernel answers is a parameter: get_user_pages_fast, kmap_local_page, pte_lockptr, the bucket
-- of a pid in a hash table, and whether an allocation succeeds.
--
-- Not modelled: the printk and print_hex_dump calls, and locals that only those read. Of the module,
-- these parts are not modelled: the handlers of signals, the registration of the probes,
-- cleanup_process, which nothing calls, the device driver, and the locking, which belongs to the
-- kernel. Of libs/page_table_libs/page_table_utils.c, the functions that only read or write control
-- registers or copy a whole table are left out.
pub mod Prelude
pub mod Tables
pub mod Instruction
pub mod Decoder
pub mod Disassemble
pub mod FindRet
pub mod Checks
pub mod Paging
pub mod Writers
pub mod PageRegistry
pub mod UserLimits
pub mod CrossPages
pub mod ZoneTable
pub mod HookedPids
pub mod Faults
pub mod Protections
pub mod Mappings
pub mod Clone
pub mod InvalidOp
mod Tests
