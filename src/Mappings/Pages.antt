-- ===== src/Mappings/Pages.antt =====
-- One page of the loop of do_mmap_ret_handler_f of libs/fprobes/fprober_mmap.c.
use flow_scanner.Prelude.{
  ℕ, ◌≡◌, refl, ◌∙◌, Bool, true, false, arith, ◌==◌, if◌then◌else◌, inl, inr, ◌&&◌, not, some, none,
  Option-cases,
}
use flow_scanner.Faults.Steps.{same_slot_self, flip_stays, flip-Similar}
use flow_scanner.Faults.Executable.{differs}
use flow_scanner.Paging.Bits.{test_bit, put_bit}
use flow_scanner.Paging.Walk.{
  PageTables, Slot, entry, walk, mapping, page_table_address, no_map, is_mapped,
}
use flow_scanner.Paging.Flip.{flip_bit, flip_bit_on_other}
use flow_scanner.Paging.Layers.{
  IsLayered, Similar, unchanged-Similar, then-Similar, Similar-IsLayered, walk-Similar,
}
use flow_scanner.Paging.Change.{Preserves}
use flow_scanner.Paging.Flips.{test_bit-put_bit, flipped_slot}
use flow_scanner.Faults.{Process, exe_deny_bit, orig_exe_bit, check_deny_bit}
use flow_scanner.Mappings.{is_no_map, deny_page}

-- The entry denies execution, is marked as executable and as not checked.
unfoldable pub is_denied : ℕ → Bool
is_denied w = test_bit w exe_deny_bit && test_bit w orig_exe_bit && not (test_bit w check_deny_bit)

exe_deny-Preserves : Preserves is_denied (λ w. put_bit w exe_deny_bit true)
unfolding is_denied
exe_deny-Preserves w h =
    let a = test_bit-put_bit w exe_deny_bit exe_deny_bit true in
    let b = test_bit-put_bit w exe_deny_bit orig_exe_bit true in
    let c = test_bit-put_bit w exe_deny_bit check_deny_bit true in ground arith

orig_exe-Preserves : Preserves is_denied (λ w. put_bit w orig_exe_bit true)
unfolding is_denied
orig_exe-Preserves w h =
    let a = test_bit-put_bit w orig_exe_bit exe_deny_bit true in
    let b = test_bit-put_bit w orig_exe_bit orig_exe_bit true in
    let c = test_bit-put_bit w orig_exe_bit check_deny_bit true in ground arith

check_deny-Preserves : Preserves is_denied (λ w. put_bit w check_deny_bit false)
unfolding is_denied
check_deny-Preserves w h =
    let a = test_bit-put_bit w check_deny_bit exe_deny_bit false in
    let b = test_bit-put_bit w check_deny_bit orig_exe_bit false in
    let c = test_bit-put_bit w check_deny_bit check_deny_bit false in ground arith

flip_answer :
    (tables : PageTables) (pgd vaddr bit_position : ℕ) (set : Bool) (slot : Slot)
    → mapping (walk tables pgd vaddr) ≡ some slot
    → (flip_bit_on_other tables pgd vaddr bit_position set).1 ≡ is_mapped
unfolding flip_bit_on_other
flip_answer tables pgd vaddr bit_position set slot e = rw (e, flip_bit_on_other) refl

flip_idle :
    (tables : PageTables) (pgd vaddr bit_position : ℕ) (set : Bool)
    → mapping (walk tables pgd vaddr) ≡ none
    → flip_bit_on_other tables pgd vaddr bit_position set ≡ (tables, no_map)
unfolding flip_bit_on_other
flip_idle tables pgd vaddr bit_position set e = rw (e, flip_bit_on_other) refl

module _ (process : Process) (page_addr : ℕ) where
  unfoldable flipped : (bit_position : ℕ) → (set : Bool) → PageTables → PageTables
  flipped bit_position set tables =
      (flip_bit_on_other tables (page_table_address process.cr3) page_addr bit_position set).0

  deny_page_idle :
      (tables : PageTables)
      → mapping (walk tables (page_table_address process.cr3) page_addr) ≡ none
      → deny_page process page_addr tables ≡ tables
  unfolding deny_page flip_bit flip_bit_on_other is_no_map
  deny_page_idle tables e =
      let idle : flip_bit_on_other tables (page_table_address process.cr3) page_addr exe_deny_bit
            true
          ≡ (tables, no_map) =
        flip_idle tables (page_table_address process.cr3) page_addr exe_deny_bit true e in
      rw (idle, deny_page) refl

  deny_page_at :
      (tables : PageTables) (slot : Slot)
      → mapping (walk tables (page_table_address process.cr3) page_addr) ≡ some slot
      → deny_page process page_addr tables
        ≡ flipped check_deny_bit false
            (flipped orig_exe_bit true (flipped exe_deny_bit true tables))
  unfolding deny_page flip_bit is_no_map flipped
  deny_page_at tables slot e =
      let answer : (flip_bit_on_other tables (page_table_address process.cr3) page_addr exe_deny_bit
            true).1
          ≡ is_mapped =
        flip_answer tables (page_table_address process.cr3) page_addr exe_deny_bit true slot e in
      rw (answer, deny_page) refl

  flipped_bit :
      (bit_position : ℕ) (set : Bool) (tables : PageTables) (slot : Slot) (k : ℕ)
      → mapping (walk tables (page_table_address process.cr3) page_addr) ≡ some slot
      → test_bit (entry (flipped bit_position set tables) slot) k
        ≡ (if k == bit_position then set else test_bit (entry tables slot) k)
  unfolding flipped
  flipped_bit bit_position set tables slot k e =
      let here =
        flipped_slot tables (page_table_address process.cr3) page_addr bit_position set slot slot k
          e in
      rw (same_slot_self slot) at here

  module _ (level : ℕ → ℕ) (top : level (page_table_address process.cr3) ≡ 4) where
    flipped-Similar :
        (bit_position : ℕ) (set : Bool) (tables : PageTables)
        → (bit_position == 0) ≡ false
        → (bit_position == 7) ≡ false
        → IsLayered level tables
        → Similar level tables (flipped bit_position set tables)
    unfolding flipped
    flipped-Similar bit_position set tables not_valid not_large layered =
        flip-Similar level page_addr bit_position set (differs bit_position 0 not_valid)
          (differs bit_position 7 not_large) tables (page_table_address process.cr3) top layered

    pub deny_page-Similar :
        (tables : PageTables)
        → IsLayered level tables
        → Similar level tables (deny_page process page_addr tables)
    deny_page-Similar tables layered =
        elim (Option-cases (mapping (walk tables (page_table_address process.cr3) page_addr))) [
          | inl e ↦ rw (deny_page_idle tables e) (unchanged-Similar level tables)
          | inr (slot, e) ↦
              let a : PageTables = flipped exe_deny_bit true tables in
              let b : PageTables = flipped orig_exe_bit true a in
              let sa = flipped-Similar exe_deny_bit true tables refl refl layered in
              let la = Similar-IsLayered sa layered in
              let sb = flipped-Similar orig_exe_bit true a refl refl la in
              let sc = flipped-Similar check_deny_bit false b refl refl (Similar-IsLayered sb la) in
              rw (deny_page_at tables slot e) (then-Similar (then-Similar sa sb) sc)
        ]

    pub deny_page-is_denied :
        (tables : PageTables) (slot : Slot)
        → IsLayered level tables
        → mapping (walk tables (page_table_address process.cr3) page_addr) ≡ some slot
        → is_denied (entry (deny_page process page_addr tables) slot) ≡ true
    unfolding is_denied
    deny_page-is_denied tables slot layered e =
        let pgd = page_table_address process.cr3 in
        let a : PageTables = flipped exe_deny_bit true tables in
        let b : PageTables = flipped orig_exe_bit true a in
        let c : PageTables = flipped check_deny_bit false b in
        let sa = flipped-Similar exe_deny_bit true tables refl refl layered in
        let la = Similar-IsLayered sa layered in
        let sb = flipped-Similar orig_exe_bit true a refl refl la in
        let ea : mapping (walk a pgd page_addr) ≡ some slot =
          rw (walk-Similar sa layered pgd page_addr top) e in
        let eb : mapping (walk b pgd page_addr) ≡ some slot =
          rw (walk-Similar sb la pgd page_addr top) ea in
        let exe : test_bit (entry c slot) exe_deny_bit ≡ true =
          flipped_bit check_deny_bit false b slot exe_deny_bit eb
          ∙ flipped_bit orig_exe_bit true a slot exe_deny_bit ea
          ∙ flipped_bit exe_deny_bit true tables slot exe_deny_bit e in
        let orig : test_bit (entry c slot) orig_exe_bit ≡ true =
          flipped_bit check_deny_bit false b slot orig_exe_bit eb
          ∙ flipped_bit orig_exe_bit true a slot orig_exe_bit ea in
        let check : test_bit (entry c slot) check_deny_bit ≡ false =
          flipped_bit check_deny_bit false b slot check_deny_bit eb in
        rw (deny_page_at tables slot e, exe, orig, check) refl

  pub deny_page_stays :
      (tables : PageTables) (t i : ℕ)
      → is_denied (tables t i) ≡ true
      → is_denied (deny_page process page_addr tables t i) ≡ true
  unfolding flipped
  deny_page_stays tables t i h =
      let pgd = page_table_address process.cr3 in
      elim (Option-cases (mapping (walk tables pgd page_addr))) [
        | inl e ↦ rw (deny_page_idle tables e) h
        | inr (slot, e) ↦
            let a : PageTables = flipped exe_deny_bit true tables in
            let b : PageTables = flipped orig_exe_bit true a in
            rw (deny_page_at tables slot e) (
              flip_stays is_denied page_addr check_deny_bit false check_deny-Preserves t i b pgd (
                flip_stays is_denied page_addr orig_exe_bit true orig_exe-Preserves t i a pgd (
                  flip_stays is_denied page_addr exe_deny_bit true exe_deny-Preserves t i tables pgd
                    h)))
      ]
