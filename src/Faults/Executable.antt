-- ===== src/Faults/Executable.antt =====
-- The denial of the execution of a page in do_fault_ret_handler_f of
-- libs/fprobes/fprober_handle_mm.c, and that it may be written.
use flow_scanner.Prelude.{ℕ, ◌≡◌, ◌≢◌, refl, ◌∙◌, Bool, true, false, ◌==◌, if◌then◌else◌, ==_iff}
use flow_scanner.Prelude.Int.{pos}
use flow_scanner.Paging.Bits.{test_bit}
use flow_scanner.Paging.Walk.{PageTables, Slot, entry, page_table_address, is_bit_set, bit_value}
use flow_scanner.Paging.Reads.{is_bit_set_mapped}
use flow_scanner.PageRegistry.{page_mask}
use flow_scanner.Faults.{
  Process, Surroundings, flip, shared_flip, allow_write, deny_wx, deny_x, exe_deny_bit, write_bit,
  orig_exe_bit, check_deny_bit,
}
use flow_scanner.Faults.Steps.{
  IsMappedAt, AreTop, flip-IsMappedAt, shared_flip-IsMappedAt, flip_at, shared_exe_deny_other,
  shared_exe_deny_stays, shared_write_same,
}

-- The entry of the page denies execution, is marked as executable and as not checked, and WRITE_BIT
-- has the given value.
pub record IsDenied (tables : PageTables) (slot : Slot) (writable : Bool) : Type 0 where
  pub exe_deny : test_bit (entry tables slot) exe_deny_bit ≡ true
  pub orig_exe : test_bit (entry tables slot) orig_exe_bit ≡ true
  pub check_deny : test_bit (entry tables slot) check_deny_bit ≡ false
  pub write : test_bit (entry tables slot) write_bit ≡ writable

-- What can be read of a page whose execution is denied.
abbrev pub ReadsDenied : PageTables → (cr3 vaddr : ℕ) → (writable : Bool) → Type 0
ReadsDenied tables cr3 vaddr writable =
    (is_bit_set tables cr3 vaddr exe_deny_bit ≡ pos 1)
    × (is_bit_set tables cr3 vaddr orig_exe_bit ≡ pos 1)
    × (is_bit_set tables cr3 vaddr check_deny_bit ≡ pos 0)
    × (is_bit_set tables cr3 vaddr write_bit ≡ bit_value writable)

pub differs : (a b : ℕ) → (a == b) ≡ false → a ≢ b
differs a b h e = let same : (a == b) ≡ true = (==_iff a b).1 e in cc

pub IsDenied-reads :
    (level : ℕ → ℕ) (process : Process) (addr : ℕ) (slot : Slot) (tables : PageTables)
    (writable : Bool)
    → IsMappedAt level process addr slot tables
    → IsDenied tables slot writable
    → ReadsDenied tables process.cr3 (page_mask addr) writable
unfolding bit_value
IsDenied-reads level process addr slot tables writable m d =
    let read = λ (k : ℕ). is_bit_set_mapped tables process.cr3 (page_mask addr) k slot m.maps in
    (
      rw (read exe_deny_bit, d.exe_deny) refl,
      rw (read orig_exe_bit, d.orig_exe) refl,
      rw (read check_deny_bit, d.check_deny) refl,
      rw (read write_bit, d.write) refl,
    )

module _ (level : ℕ → ℕ) (process : Process) (top : level (page_table_address process.cr3) ≡ 4)
    (around : Surroundings) (tops : AreTop level around.pgds) (addr : ℕ) (slot : Slot) where
  module _ (tables : PageTables) (m : IsMappedAt level process addr slot tables) where
    pub flip_other_than_walk :
        (b : ℕ) (set : Bool)
        → (b == 0) ≡ false
        → (b == 7) ≡ false
        → IsMappedAt level process addr slot (flip process addr b set tables)
          × ((k : ℕ)
              → test_bit (entry (flip process addr b set tables) slot) k
                ≡ (if k == b then set else test_bit (entry tables slot) k))
    flip_other_than_walk b set not_valid not_large =
        let v = differs b 0 not_valid in
        let l = differs b 7 not_large in
        (
          flip-IsMappedAt level process top around tops addr slot b set v l tables m,
          flip_at level process top around tops addr slot b set v l tables m,
        )

    pub shared_flip_mapped :
        (b : ℕ)
        → (b == 0) ≡ false
        → (b == 7) ≡ false
        → IsMappedAt level process addr slot (shared_flip around addr b true tables)
    shared_flip_mapped b not_valid not_large =
        shared_flip-IsMappedAt level process top around tops addr slot b true
          (differs b 0 not_valid) (differs b 7 not_large) tables m

  pub deny_wx-IsDenied :
      (tables : PageTables)
      → IsMappedAt level process addr slot tables
      → IsMappedAt level process addr slot (deny_wx around process addr tables)
        × IsDenied
            (deny_wx around process addr tables)
            slot
            (test_bit (entry tables slot) write_bit)
  unfolding deny_wx
  deny_wx-IsDenied tables m =
      let a : PageTables = flip process addr orig_exe_bit true tables in
      let (ma, ra) = flip_other_than_walk tables m orig_exe_bit true refl refl in
      let b : PageTables = flip process addr exe_deny_bit true a in
      let (mb, rb) = flip_other_than_walk a ma exe_deny_bit true refl refl in
      let c : PageTables = shared_flip around addr exe_deny_bit true b in
      let mc = shared_flip_mapped b mb exe_deny_bit refl refl in
      let rc = λ (k : ℕ) (e : (k == exe_deny_bit) ≡ false).
        shared_exe_deny_other around addr b slot k (differs k exe_deny_bit e) in
      let (md, rd) = flip_other_than_walk c mc check_deny_bit false refl refl in
      (
        md,
        record {
          exe_deny = rd exe_deny_bit ∙ shared_exe_deny_stays around addr b slot (rb exe_deny_bit);
          orig_exe = rd orig_exe_bit ∙ rc orig_exe_bit refl ∙ rb orig_exe_bit ∙ ra orig_exe_bit;
          check_deny = rd check_deny_bit;
          write = rd write_bit ∙ rc write_bit refl ∙ rb write_bit ∙ ra write_bit;
        },
      )

  pub deny_x-IsDenied :
      (tables : PageTables)
      → IsMappedAt level process addr slot tables
      → IsMappedAt level process addr slot (deny_x around process addr tables)
        × IsDenied (deny_x around process addr tables) slot (test_bit (entry tables slot) write_bit)
  unfolding deny_x
  deny_x-IsDenied tables m =
      let a : PageTables = flip process addr orig_exe_bit true tables in
      let (ma, ra) = flip_other_than_walk tables m orig_exe_bit true refl refl in
      let b : PageTables = flip process addr exe_deny_bit true a in
      let (mb, rb) = flip_other_than_walk a ma exe_deny_bit true refl refl in
      let c : PageTables = flip process addr check_deny_bit false b in
      let (mc, rc) = flip_other_than_walk b mb check_deny_bit false refl refl in
      let rd = λ (k : ℕ) (e : (k == exe_deny_bit) ≡ false).
        shared_exe_deny_other around addr c slot k (differs k exe_deny_bit e) in
      (
        shared_flip_mapped c mc exe_deny_bit refl refl,
        record {
          exe_deny = shared_exe_deny_stays around addr c slot (rc exe_deny_bit ∙ rb exe_deny_bit);
          orig_exe = rd orig_exe_bit refl ∙ rc orig_exe_bit ∙ rb orig_exe_bit ∙ ra orig_exe_bit;
          check_deny = rd check_deny_bit refl ∙ rc check_deny_bit;
          write = rd write_bit refl ∙ rc write_bit ∙ rb write_bit ∙ ra write_bit;
        },
      )

  pub allow_write_writes :
      (tables : PageTables)
      → IsMappedAt level process addr slot tables
      → IsMappedAt level process addr slot (allow_write around process addr tables)
        × (test_bit (entry (allow_write around process addr tables) slot) write_bit ≡ true)
  unfolding allow_write
  allow_write_writes tables m =
      let a : PageTables = flip process addr write_bit true tables in
      let (ma, ra) = flip_other_than_walk tables m write_bit true refl refl in
      (
        shared_flip_mapped a ma write_bit refl refl,
        shared_write_same around addr a slot write_bit ∙ ra write_bit,
      )
