-- ===== src/Faults/Steps.antt =====
-- The single changes of page tables that do_fault_ret_handler_f of libs/fprobes/fprober_handle_mm.c
-- makes: what they keep, and what they do to the bits of the page.

use flow_scanner.Prelude.{
  negation, ℕ, ◌≡◌, ◌≢◌, refl, Bool, true, false, arith, ◌==◌, ◌⊎◌, if◌then◌else◌, Bool-cases, inl,
  inr, ◌&&◌, ◌||◌, not, some, List, [], ◌∷◌,
}
use flow_scanner.Paging.Bits.{test_bit-put_bit-same, test_bit-put_bit-other, test_bit, put_bit}
use flow_scanner.Faults.{exe_deny_bit, write_bit, Process, Surroundings, flip, shared_flip}
use flow_scanner.Paging.Walk.{
  PageTables, Slot, entry, walk, mapping, page_table_address, is_bit_set_on_other,
}
use flow_scanner.Paging.Flip.{
  flip_bit_on_other, flip_bit, shared_flip_bit, shared_flip_one, is_nonzero,
}
use flow_scanner.Paging.Layers.{
  IsLayered, Similar, unchanged-Similar, then-Similar, Similar-IsLayered, walk-Similar,
}
use flow_scanner.Paging.Change.{Preserves}
use flow_scanner.Paging.Loops.{change_entry_stays, change_entry-Similar}
use flow_scanner.Paging.Flips.{put_bit-Keeps, flipped_entry, flipped_slot, same_slot}
use flow_scanner.Paging.Shared.{shared_flip_bit_sets_nothing}
use flow_scanner.PageRegistry.{page_mask}

-- The tables stand in layers, and the page of the address is mapped by the slot.
pub record IsMappedAt (level : ℕ → ℕ) (process : Process) (addr : ℕ) (slot : Slot)
    (tables : PageTables) : Type 0 where
  pub layered : IsLayered level tables
  pub maps : mapping (walk tables (page_table_address process.cr3) (page_mask addr)) ≡ some slot

-- All of them are first tables of walks.
abbrev pub AreTop : (level : ℕ → ℕ) → List ℕ → Type 0
AreTop level [] = Unit
AreTop level (pgd ∷ pgds) = (level pgd ≡ 4) × AreTop level pgds

pub same_slot_self : (slot : Slot) → same_slot slot slot ≡ true
same_slot_self slot = ground arith

both_ways : (a b : Bool) → (a ≡ true → b ≡ true) → (not a ≡ true → not b ≡ true) → b ≡ a
both_ways true b yes_too no_too = yes_too refl
both_ways false b yes_too no_too = negation b (no_too refl)

abbrev same_value : Bool → Bool → Bool
same_value a b = if a then b else not b

same_value_refl : (a : Bool) → same_value a a ≡ true
same_value_refl true = refl
same_value_refl false = refl

stays_as : (a b : Bool) → same_value a b ≡ true → b ≡ a
stays_as true b h = h
stays_as false b h = negation b h

-- `shared_flip_one` flips the bit or does nothing.
shared_flip_one_cases :
    (tables : PageTables) (pgd vaddr bit_position : ℕ) (set : Bool)
    → (shared_flip_one tables pgd vaddr bit_position set
        ≡ (flip_bit_on_other tables pgd vaddr bit_position set).0)
      ⊎ (shared_flip_one tables pgd vaddr bit_position set ≡ tables)
unfolding shared_flip_one
shared_flip_one_cases tables pgd vaddr bit_position set =
    let reading = is_nonzero (is_bit_set_on_other tables pgd vaddr bit_position) in
    elim (Bool-cases (not set || (bit_position == 63 && set))) [
      | inl e ↦ inl (rw (e, shared_flip_one) refl)
      | inr e ↦ elim (Bool-cases (reading || (bit_position == 63 && not reading))) [
        | inl f ↦ inl (rw (e, f, shared_flip_one) refl)
        | inr f ↦ inr (rw (e, f, shared_flip_one) refl)
      ]
    ]

module _ (p : ℕ → Bool) (vaddr bit_position : ℕ) (set : Bool)
    (preserves : Preserves p (λ w. put_bit w bit_position set)) (t i : ℕ) where
  pub flip_stays :
      (tables : PageTables) (pgd : ℕ)
      → p (tables t i) ≡ true
      → p ((flip_bit_on_other tables pgd vaddr bit_position set).0 t i) ≡ true
  flip_stays tables pgd h =
      rw (flipped_entry tables pgd vaddr bit_position set)
        (change_entry_stays p (λ w. put_bit w bit_position set) preserves pgd t i tables vaddr h)

  shared_flip_bit_stays :
      (tables : PageTables) (pgds : List ℕ) (own : ℕ)
      → p (tables t i) ≡ true
      → p (shared_flip_bit tables pgds own vaddr bit_position set t i) ≡ true
  unfolding shared_flip_bit
  shared_flip_bit_stays tables [] own h = h
  shared_flip_bit_stays tables (pgd ∷ pgds) own h = elim (Bool-cases (pgd == own)) [
    | inl e ↦ rw (e, shared_flip_bit) (shared_flip_bit_stays tables pgds own h)
    | inr e ↦
        let next : PageTables = shared_flip_one tables pgd vaddr bit_position set in
        let kept : p (next t i) ≡ true =
          elim (shared_flip_one_cases tables pgd vaddr bit_position set) [
            | inl f ↦ rw f (flip_stays tables pgd h)
            | inr f ↦ rw f h
          ] in
        rw (e, shared_flip_bit) (shared_flip_bit_stays next pgds own kept)
  ]

module _ (level : ℕ → ℕ) (vaddr bit_position : ℕ) (set : Bool) (not_valid : bit_position ≢ 0)
    (not_large : bit_position ≢ 7) where
  pub flip-Similar :
      (tables : PageTables) (pgd : ℕ)
      → level pgd ≡ 4
      → IsLayered level tables
      → Similar level tables (flip_bit_on_other tables pgd vaddr bit_position set).0
  flip-Similar tables pgd top layered = rw (flipped_entry tables pgd vaddr bit_position set) (
      change_entry-Similar level (λ w. put_bit w bit_position set)
        (put_bit-Keeps bit_position set not_valid not_large) pgd top tables vaddr layered)

  shared_flip_one-Similar :
      (tables : PageTables) (pgd : ℕ)
      → level pgd ≡ 4
      → IsLayered level tables
      → Similar level tables (shared_flip_one tables pgd vaddr bit_position set)
  shared_flip_one-Similar tables pgd top layered =
      elim (shared_flip_one_cases tables pgd vaddr bit_position set) [
        | inl e ↦ rw e (flip-Similar tables pgd top layered)
        | inr e ↦ rw e (unchanged-Similar level tables)
      ]

  shared_flip_bit-Similar :
      (tables : PageTables) (pgds : List ℕ) (own : ℕ)
      → AreTop level pgds
      → IsLayered level tables
      → Similar level tables (shared_flip_bit tables pgds own vaddr bit_position set)
  unfolding shared_flip_bit
  shared_flip_bit-Similar tables [] own tops layered = unchanged-Similar level tables
  shared_flip_bit-Similar tables (pgd ∷ pgds) own tops layered = elim (Bool-cases (pgd == own)) [
    | inl e ↦ rw (e, shared_flip_bit) (shared_flip_bit-Similar tables pgds own tops.1 layered)
    | inr e ↦
        let next : PageTables = shared_flip_one tables pgd vaddr bit_position set in
        let first = shared_flip_one-Similar tables pgd tops.0 layered in
        rw (e, shared_flip_bit)
          (then-Similar first
            (shared_flip_bit-Similar next pgds own tops.1 (Similar-IsLayered first layered)))
  ]

module _ (level : ℕ → ℕ) (process : Process) (top : level (page_table_address process.cr3) ≡ 4)
    (around : Surroundings) (tops : AreTop level around.pgds) (addr : ℕ) (slot : Slot) where
  similar-IsMappedAt :
      (tables changed : PageTables)
      → IsMappedAt level process addr slot tables
      → Similar level tables changed
      → IsMappedAt level process addr slot changed
  similar-IsMappedAt tables changed m similar = record {
    layered = Similar-IsLayered similar m.layered;
    maps =
        let kept : walk changed (page_table_address process.cr3) (page_mask addr)
            ≡ walk tables (page_table_address process.cr3) (page_mask addr) =
          walk-Similar similar m.layered (page_table_address process.cr3) (page_mask addr) top in
        rw kept m.maps;
  }

  module _ (bit_position : ℕ) (set : Bool) (not_valid : bit_position ≢ 0)
      (not_large : bit_position ≢ 7) (tables : PageTables)
      (m : IsMappedAt level process addr slot tables) where
    pub flip-IsMappedAt :
        IsMappedAt level process addr slot (flip process addr bit_position set tables)
    unfolding flip flip_bit
    flip-IsMappedAt = similar-IsMappedAt tables (flip process addr bit_position set tables) m (
        flip-Similar level (page_mask addr) bit_position set not_valid not_large tables
          (page_table_address process.cr3) top m.layered)

    pub shared_flip-IsMappedAt :
        IsMappedAt level process addr slot (shared_flip around addr bit_position set tables)
    unfolding shared_flip
    shared_flip-IsMappedAt =
        similar-IsMappedAt tables (shared_flip around addr bit_position set tables) m (
          shared_flip_bit-Similar level (page_mask addr) bit_position set not_valid not_large tables
            around.pgds around.own tops m.layered)

    pub flip_at :
        (k : ℕ)
        → test_bit (entry (flip process addr bit_position set tables) slot) k
          ≡ (if k == bit_position then set else test_bit (entry tables slot) k)
    unfolding flip flip_bit
    flip_at k =
        let here =
          flipped_slot tables (page_table_address process.cr3) (page_mask addr) bit_position set
            slot slot k m.maps in
        rw (same_slot_self slot) at here

-- What `shared_flip_bit` does to the bits of any entry: the other bits stay as they are, and the bit
-- stays if it has the new value.
module _ (around : Surroundings) (addr bit_position : ℕ) (set : Bool) (tables : PageTables)
    (slot : Slot) where
  pub shared_flip_other :
      (k : ℕ)
      → k ≢ bit_position
      → test_bit (entry (shared_flip around addr bit_position set tables) slot) k
        ≡ test_bit (entry tables slot) k
  unfolding shared_flip
  shared_flip_other k ne =
      let other = λ (w : ℕ). test_bit-put_bit-other w bit_position k set ne in
      both_ways (test_bit (entry tables slot) k)
        (test_bit (entry (shared_flip around addr bit_position set tables) slot) k)
        (shared_flip_bit_stays (λ w. test_bit w k) (page_mask addr) bit_position set
          (λ w h. rw (other w) h) slot.table slot.index tables around.pgds around.own)
        (shared_flip_bit_stays (λ w. not (test_bit w k)) (page_mask addr) bit_position set
          (λ w h. rw (other w) h) slot.table slot.index tables around.pgds around.own)

  pub shared_flip_stays :
      test_bit (entry tables slot) bit_position ≡ set
      → test_bit (entry (shared_flip around addr bit_position set tables) slot) bit_position ≡ set
  unfolding shared_flip
  shared_flip_stays h =
      stays_as set
        (test_bit (entry (shared_flip around addr bit_position set tables) slot) bit_position)
        (shared_flip_bit_stays (λ w. same_value set (test_bit w bit_position)) (page_mask addr)
          bit_position set
          (λ w e. rw (test_bit-put_bit-same w bit_position set) (same_value_refl set)) slot.table
          slot.index tables around.pgds around.own (rw h (same_value_refl set)))

module _ (around : Surroundings) (addr : ℕ) (tables : PageTables) (slot : Slot) where
  pub shared_exe_deny_other :
      (k : ℕ)
      → k ≢ exe_deny_bit
      → test_bit (entry (shared_flip around addr exe_deny_bit true tables) slot) k
        ≡ test_bit (entry tables slot) k
  shared_exe_deny_other = shared_flip_other around addr exe_deny_bit true tables slot

  pub shared_exe_deny_stays :
      test_bit (entry tables slot) exe_deny_bit ≡ true
      → test_bit (entry (shared_flip around addr exe_deny_bit true tables) slot) exe_deny_bit ≡ true
  shared_exe_deny_stays = shared_flip_stays around addr exe_deny_bit true tables slot

  pub shared_write_same :
      (k : ℕ)
      → test_bit (entry (shared_flip around addr write_bit true tables) slot) k
        ≡ test_bit (entry tables slot) k
  unfolding shared_flip
  shared_write_same k =
      shared_flip_bit_sets_nothing slot.table slot.index k (page_mask addr) write_bit refl tables
        around.pgds around.own
