-- ===== src/InvalidOp/Allowed.antt =====
-- The label `exit` of invalid_op_handler of libs/fprobes/fprober_invalid_op.c: what it makes of the
-- entry of a page that was not fetched before.

use flow_scanner.Prelude.{
  ℕ, ◌≡◌, refl, ◌∙◌, Bool, true, false, ◌==◌, if◌then◌else◌, Bool-cases, inl, inr, ◌&&◌, ◌||◌, not,
  Option,
}
use flow_scanner.Prelude.Int.{pos}
use flow_scanner.InvalidOp.Handler.{is_writable, make_executable, make_read_only, allow_execution}
use flow_scanner.Paging.Bits.{test_bit}
use flow_scanner.Paging.Walk.{PageTables, Slot, entry, page_table_address, is_bit_set, bit_value}
use flow_scanner.Paging.Flip.{VmArea}
use flow_scanner.Paging.Reads.{is_bit_set_mapped}
use flow_scanner.PageRegistry.{page_mask}
use flow_scanner.Faults.{
  Process, flip, shared_flip, exe_deny_bit, write_bit, orig_write_bit, check_deny_bit,
}
use flow_scanner.Faults.Steps.{
  IsMappedAt, AreTop, shared_flip-IsMappedAt, shared_flip_other, shared_flip_stays,
}
use flow_scanner.Faults.Executable.{differs, flip_other_than_walk}
use flow_scanner.InvalidOp.{Environment}

-- The entry allows execution and is marked as checked, and WRITE_BIT and ORIG_WRITE_BIT have the
-- given values.
abbrev pub ReadsAllowed : PageTables → (cr3 vaddr : ℕ) → (writable was_writable : Bool) → Type 0
ReadsAllowed tables cr3 vaddr writable was_writable =
    (is_bit_set tables cr3 vaddr exe_deny_bit ≡ pos 0)
    × (is_bit_set tables cr3 vaddr check_deny_bit ≡ pos 1)
    × (is_bit_set tables cr3 vaddr write_bit ≡ bit_value writable)
    × (is_bit_set tables cr3 vaddr orig_write_bit ≡ bit_value was_writable)

module _ (level : ℕ → ℕ) (env : Environment) (top : level (page_table_address env.process.cr3) ≡ 4)
    (tops : AreTop level env.around.pgds) (addr : ℕ) (slot : Slot) where
  own :
      (b : ℕ) (set : Bool) (t : PageTables)
      → IsMappedAt level env.process addr slot t
      → (b == 0) ≡ false
      → (b == 7) ≡ false
      → IsMappedAt level env.process addr slot (flip env.process addr b set t)
        × ((k : ℕ)
            → test_bit (entry (flip env.process addr b set t) slot) k
              ≡ (if k == b then set else test_bit (entry t slot) k))
  own b set t mt not_valid not_large =
      flip_other_than_walk level env.process top env.around tops addr slot t mt b set not_valid
        not_large

  shared :
      (b : ℕ) (t : PageTables)
      → IsMappedAt level env.process addr slot t
      → (b == 0) ≡ false
      → (b == 7) ≡ false
      → IsMappedAt level env.process addr slot (shared_flip env.around addr b false t)
        × ((k : ℕ)
            → (k == b) ≡ false
            → test_bit (entry (shared_flip env.around addr b false t) slot) k
              ≡ test_bit (entry t slot) k)
  shared b t mt not_valid not_large = (
    shared_flip-IsMappedAt level env.process top env.around tops addr slot b false
        (differs b 0 not_valid) (differs b 7 not_large) t mt,
    λ k e. shared_flip_other env.around addr b false t slot k (differs k b e),
  )

-- What is known of an entry that may be executed.
record IsExecutable (level : ℕ → ℕ) (process : Process) (addr : ℕ) (slot : Slot)
    (tables : PageTables) (write orig_write : Bool) : Type 0 where
  place : IsMappedAt level process addr slot tables
  exe_deny : test_bit (entry tables slot) exe_deny_bit ≡ false
  writes : test_bit (entry tables slot) write_bit ≡ write
  wrote : test_bit (entry tables slot) orig_write_bit ≡ orig_write

module _ (level : ℕ → ℕ) (env : Environment) (top : level (page_table_address env.process.cr3) ≡ 4)
    (tops : AreTop level env.around.pgds) (addr : ℕ) (slot : Slot) (tables : PageTables) where
  checked_reads :
      {write orig_write : Bool}
      → IsExecutable level env.process addr slot tables write orig_write
      → ReadsAllowed
          (flip env.process addr check_deny_bit true tables)
          env.process.cr3
          (page_mask addr)
          write
          orig_write
  unfolding bit_value
  checked_reads x =
      let final : PageTables = flip env.process addr check_deny_bit true tables in
      let (m, r) = own level env top tops addr slot check_deny_bit true tables x.place refl refl in
      let read =
        λ (k : ℕ). is_bit_set_mapped final env.process.cr3 (page_mask addr) k slot m.maps in
      (
        rw (read exe_deny_bit, r exe_deny_bit, x.exe_deny) refl,
        rw (read check_deny_bit, r check_deny_bit) refl,
        rw (read write_bit, r write_bit, x.writes) refl,
        rw (read orig_write_bit, r orig_write_bit, x.wrote) refl,
      )

  make_executable-IsExecutable :
      IsMappedAt level env.process addr slot tables
      → IsExecutable level env.process addr slot
          (make_executable env addr tables)
          (test_bit (entry tables slot) write_bit)
          (test_bit (entry tables slot) orig_write_bit)
  unfolding make_executable
  make_executable-IsExecutable m =
      let a : PageTables = flip env.process addr exe_deny_bit false tables in
      let (ma, ra) = own level env top tops addr slot exe_deny_bit false tables m refl refl in
      let (mb, rb) = shared level env top tops addr slot exe_deny_bit a ma refl refl in
      record {
        place = mb;
        exe_deny = shared_flip_stays env.around addr exe_deny_bit false a slot (ra exe_deny_bit);
        writes = rb write_bit refl ∙ ra write_bit;
        wrote = rb orig_write_bit refl ∙ ra orig_write_bit;
      }

  make_read_only-IsExecutable :
      {write orig_write : Bool}
      → IsExecutable level env.process addr slot tables write orig_write
      → IsExecutable level env.process addr slot (make_read_only env addr tables) false true
  unfolding make_read_only
  make_read_only-IsExecutable x =
      let a : PageTables = flip env.process addr write_bit false tables in
      let (ma, ra) = own level env top tops addr slot write_bit false tables x.place refl refl in
      let b : PageTables = flip env.process addr orig_write_bit true a in
      let (mb, rb) = own level env top tops addr slot orig_write_bit true a ma refl refl in
      let (mc, rc) = shared level env top tops addr slot write_bit b mb refl refl in
      record {
        place = mc;
        exe_deny = rc exe_deny_bit refl ∙ rb exe_deny_bit ∙ ra exe_deny_bit ∙ x.exe_deny;
        writes =
            shared_flip_stays env.around addr write_bit false b slot (rb write_bit ∙ ra write_bit);
        wrote = rc orig_write_bit refl ∙ rb orig_write_bit;
      }

module _ (level : ℕ → ℕ) (env : Environment) (top : level (page_table_address env.process.cr3) ≡ 4)
    (tops : AreTop level env.around.pgds) (addr : ℕ) (slot : Slot) (tables : PageTables) where
  -- If the page tables stand in four layers and the page is mapped, then the end of
  -- invalid_op_handler for a page that was not fetched clears EXE_DENY_BIT and sets CHECK_DENY_BIT of
  -- its entry; if the vm area that it looks at is writable, WRITE_BIT is cleared and ORIG_WRITE_BIT
  -- set, and otherwise both stay as they are.
  pub allow_execution-reads :
      (vma : Option VmArea)
      → IsMappedAt level env.process addr slot tables
      → ReadsAllowed
          (allow_execution env vma addr tables)
          env.process.cr3
          (page_mask addr)
          (not (is_writable vma) && test_bit (entry tables slot) write_bit)
          (is_writable vma || test_bit (entry tables slot) orig_write_bit)
  unfolding allow_execution
  allow_execution-reads vma m = elim (Bool-cases (is_writable vma)) [
    | inl e ↦ rw e (
        checked_reads level env top tops addr slot
          (make_read_only env addr (make_executable env addr tables))
          (make_read_only-IsExecutable level env top tops addr slot
            (make_executable env addr tables)
            (make_executable-IsExecutable level env top tops addr slot tables m)))
    | inr e ↦ rw e (
        checked_reads level env top tops addr slot (make_executable env addr tables)
          (make_executable-IsExecutable level env top tops addr slot tables m))
  ]
