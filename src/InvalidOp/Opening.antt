-- ===== src/InvalidOp/Opening.antt =====
-- A trap of invalid_op_handler of libs/fprobes/fprober_invalid_op.c in a page that is registered, and
-- the zone that the search finds there.

use flow_scanner.Prelude.{
  ℕ, suc, ◌+◌, ◌-◌, ◌*◌, ◌/◌, ◌%◌, ◌≤◌, ◌<◌, ◌≡◌, ◌≢◌, refl, true, false, arith, ◌==◌, inl, inr,
  Option, some, none, IsU64, ne→==,
}
use flow_scanner.Prelude.Int.{pos}
use flow_scanner.Disassemble.{Stats, disassemble_code, disassembly}
use flow_scanner.Disassemble.Block.{Block, disassemble_code-Block}
use flow_scanner.Writers.{Data}
use flow_scanner.InvalidOp.{
  OpState, Environment, memory_at, answer_of, is_error, find_first_invalid_opcode_byte,
}
use flow_scanner.InvalidOp.Blocks.{
  ends_at, is_zero, found_exit, limit_of, after_block, search_blocks, search_page,
}
use flow_scanner.PageRegistry.{page_mask, find_current_page}
use flow_scanner.UserLimits.{check_bytes_limit}
use flow_scanner.Writers.Zone.{first_flags, Writable}
use flow_scanner.InvalidOp.Fetch.{info_bytes, lookup_page}
use flow_scanner.InvalidOp.Search.{
  zone_ends, zone_page, mark_cross, search_zone, search_first, after_first, no_stats, is_some,
}
use flow_scanner.InvalidOp.Settled.{Advances, answer_of-Advances, limit_short}
use flow_scanner.InvalidOp.Handler.{passes_check}

-- The bytes of the master copy, and the address behind the last one that the disassembler may read.
abbrev pub master_copy : OpState → (info : ℕ) → Data
master_copy s info = info_bytes (s.registry.page_infos info)

abbrev pub next_zone_at : Environment → (address : ℕ) → Option ℕ
next_zone_at env address =
    find_first_invalid_opcode_byte (env.user_bytes (page_mask address + address % 4096))
      (page_mask address + address % 4096)

abbrev pub zone_limit : Environment → (address info : ℕ) → ℕ
zone_limit env address info = env.data_address info + limit_of (next_zone_at env address)

-- The bytes from the offset of the address on.
abbrev pub zone_bytes : OpState → (address info : ℕ) → Data
zone_bytes s address info o = master_copy s info (address % 4096 + o)

-- The address in the process of the address `e` in the master copy.
abbrev pub user_end : Environment → (address info e : ℕ) → ℕ
user_end env address info e = page_mask address + (e - env.data_address info)

-- A trap of a hooked process in a page that is registered. In its master copy the instructions from
-- the address on lead to a transfer of control that ends at `e`; a zone has one block. The checks
-- accept it, the user stays within the limit, and the kernel has the page for the writer.
pub record Opening (env : Environment) (s : OpState) (address info v e : ℕ) (stats : Stats)
    (pages : ℕ → Option ℕ) (frame : ℕ → ℕ) : Type 0 where
  pub hooked : env.process.hooked ≡ true
  pub nonzero : 0 < address
  pub registered :
      find_current_page env.bucket_of s.registry env.process.tgid (page_mask address) ≡ some info
  pub one_block : env.num_of_contiguous_block ≡ 1
  pub placed : 0 < env.data_address info
  pub in_memory : IsU64 (env.data_address info + 4096)
  pub exits : 0 < v
  pub short : env.data_address info + address % 4096 < zone_limit env address info
  pub block :
      Block
        (memory_at (env.data_address info) (master_copy s info))
        (zone_limit env address info)
        (zone_limit env address info)
        (env.data_address info + address % 4096)
        no_stats
        (disassembly (pos v) e stats)
  pub accepted :
      passes_check env (zone_bytes s address info) address (user_end env address info e) ≡ true
  pub within :
      (check_bytes_limit env.kmalloc s.users env.task.uid (user_end env address info e - address)).1
      ≡ 0
  pub writable : Writable env.writer (address / 4096 * 4096) 1 first_flags pages frame
  pub opcode : master_copy s info (address % 4096) ≢ 14

module _ (env : Environment) (s : OpState) (address info v e : ℕ) (stats : Stats)
    (pages : ℕ → Option ℕ) (frame : ℕ → ℕ)
    (o : Opening env s address info v e stats pages frame) where
  limit_IsU64 : IsU64 (zone_limit env address info)
  limit_IsU64 =
      let start = page_mask address + address % 4096 in
      let low = limit_short (env.user_bytes start) start in let all = o.in_memory in omega arith

  disassembled :
      answer_of
        (disassemble_code
          (memory_at (env.data_address info) (master_copy s info))
          (env.data_address info + address % 4096)
          (zone_limit env address info)
          no_stats)
        (zone_limit env address info)
        no_stats
      ≡ disassembly (pos v) e stats
  unfolding answer_of
  disassembled =
      let placed = o.placed in
      let run =
        (disassemble_code-Block (memory_at (env.data_address info) (master_copy s info))
            (env.data_address info + address % 4096) (zone_limit env address info) no_stats
            (disassembly (pos v) e stats) (omega arith) o.short limit_IsU64).1
          o.block in
      rw run refl

  pub end_between : (env.data_address info + address % 4096 < e) × (e ≤ zone_limit env address info)
  unfolding is_error is_zero
  end_between =
      let d = disassembled in
      let exits = o.exits in
      let advances : Advances (env.data_address info + address % 4096) (zone_limit env address info)
          (disassembly (pos v) e stats) =
        rw d at (
          answer_of-Advances (memory_at (env.data_address info) (master_copy s info))
            (env.data_address info + address % 4096) (zone_limit env address info) no_stats
            limit_IsU64) in
      elim advances [ inl x ↦ cc | inr (inl x) ↦ ground arith | inr (inr x) ↦ x ]

  search_found :
      (fuel : ℕ)
      → search_blocks
          (suc fuel)
          (env.data_address info)
          (master_copy s info)
          (next_zone_at env address)
          false
          env.num_of_contiguous_block
          (address % 4096)
          0
          no_stats
        ≡ ends_at (e - env.data_address info) false stats
  unfolding search_blocks after_block found_exit is_error is_zero
  search_found fuel =
      let d = disassembled in
      let exits : (v == 0) ≡ false =
        ne→== v 0 (let x = o.exits in λ z. absurd (omega (arith, z))) in
      rw (d, exits, o.one_block) refl

  pub opening_search : search_zone env s address ≡ (
    mark_cross env s (page_mask address) false,
    zone_ends
        (zone_page s info (page_mask address) none)
        none
        (e - env.data_address info)
        none
        stats,
  )
  unfolding search_zone lookup_page search_first search_page after_first zone_page is_some
  opening_search = let found = search_found 4096 in rw (o.registered, lookup_page) (rw found refl)
