-- ===== src/Tests/Cloning.antt =====
-- The theorems on forks, at a parent and a child with one shared vm area each.

use flow_scanner.Prelude.{
  ◌==◌, ℕ, ◌%◌, ◌≡◌, refl, true, false, some, [], ◌∷◌, ◌++◌, sym, ap, some_eq, Bool-cases, inl, inr,
  ◌⊎◌, if◌then◌else◌, ◌&&◌, ◌||◌, none, arith,
}
use flow_scanner.Prelude.Int.{pos}
use flow_scanner.HookedPids.{has_pid, is_hooked}
use flow_scanner.Clone.{MappedArea, CloneState, CloneContext, kernel_clone_ret_handler}
use flow_scanner.Clone.Shared.{
  is_shared_with, kernel_clone_ret_handler_finds, kernel_clone_ret_handler_changes_parent,
}
use flow_scanner.Paging.Flip.{is_shared_wx}
use flow_scanner.Paging.ReadOnly.{IsReadOnly}
use flow_scanner.Tests.Paging.{tables, shared_area, shared_area-InArea}
use flow_scanner.Paging.Bits.{test_bit}
use flow_scanner.Paging.Walk.{
  PageTables, Slot, valid, pt_address, walk, walk_pdp, walk_pde, walk_pte, mapping, is_bit_set,
  pml4_index, pdp_index, pde_index, pte_index,
}
use flow_scanner.Paging.Layers.{IsLayered}
use flow_scanner.Paging.Unreached.{IsUnreached}

abbrev parent_area : MappedArea
parent_area = record { vma = 100; area = shared_area; pgd = 1; file = some 3 }

abbrev child_area : MappedArea
child_area = record { vma = 200; area = shared_area; pgd = 6; file = some 3 }

abbrev context : CloneContext
context = record {
  bucket_of = λ pid. pid % 16;
  shared_bucket_of = λ vma. vma % 16;
  i_mmap = λ file. parent_area ∷ child_area ∷ [];
}

abbrev parent_state : CloneState
parent_state = record {
  hooks = record {
    hooked_pids = λ b. record { pid = 7; open_start = 0; open_end = 0 } ∷ [];
    started = true;
    finished = false;
  };
  shared_map_hash = λ b. [];
  tables = tables;
}

abbrev forked : CloneState
forked =
    kernel_clone_ret_handler context parent_state 7 4096 false (pos 8) (parent_area ∷ [])
      ([] ++ child_area ∷ [])

kernel_clone_ret_handler_finds_example :
    (is_shared_with context forked.shared_map_hash 200 6 ≡ true)
    × (is_shared_with context forked.shared_map_hash 200 1 ≡ true)
unfolding is_hooked has_pid
kernel_clone_ret_handler_finds_example =
    kernel_clone_ret_handler_finds context parent_state 7 4096 8 (parent_area ∷ []) [] [] child_area
      refl false 3 [] (child_area ∷ []) parent_area refl refl refl refl refl

-- The tables 1 to 4 are the parent's, 11 to 14 the child's; both map page 1 to one frame.
abbrev both_tables : PageTables
both_tables table index =
    if table == 1 && index == 0
    then 8193
    else (if table == 2 && index == 0
        then 12289
        else (if table == 3 && index == 0
            then 16385
            else (if table == 4 && index == 1
                then 20487
                else (if table == 11 && index == 0
                    then 49153
                    else (if table == 12 && index == 0
                        then 53249
                        else (if table == 13 && index == 0
                            then 57345
                            else (if table == 14 && index == 1 then 20487 else 0)))))))

abbrev both_levels : ℕ → ℕ
both_levels frame =
    if frame == 1 || frame == 11
    then 4
    else (if frame == 2 || frame == 12
        then 3
        else (if frame == 3 || frame == 13
            then 2
            else (if frame == 4 || frame == 14 then 1 else 0)))

at_level_4 :
    (t i : ℕ)
    → both_levels t ≡ 4
    → (both_tables t i ≡ 8193) ⊎ ((both_tables t i ≡ 49153) ⊎ (both_tables t i ≡ 0))
at_level_4 t i l = ground arith

at_level_3 :
    (t i : ℕ)
    → both_levels t ≡ 3
    → (both_tables t i ≡ 12289) ⊎ ((both_tables t i ≡ 53249) ⊎ (both_tables t i ≡ 0))
at_level_3 t i l = ground arith

at_level_2 :
    (t i : ℕ)
    → both_levels t ≡ 2
    → (both_tables t i ≡ 16385) ⊎ ((both_tables t i ≡ 57345) ⊎ (both_tables t i ≡ 0))
at_level_2 t i l = ground arith

leads_on :
    (w a b n : ℕ)
    → (w ≡ a) ⊎ ((w ≡ b) ⊎ (w ≡ 0))
    → both_levels (pt_address a) ≡ n
    → both_levels (pt_address b) ≡ n
    → valid w ≡ true
    → both_levels (pt_address w) ≡ n
unfolding test_bit
leads_on w a b n (inl e) la lb v = rw e la
leads_on w a b n (inr (inl e)) la lb v = rw e lb
leads_on w a b n (inr (inr e)) la lb v = let no_bit : false ≡ true = rw e at v in cc

both_tables-IsLayered : IsLayered both_levels both_tables
both_tables-IsLayered = record {
  below_pgd = λ t i l v. leads_on (both_tables t i) 8193 49153 3 (at_level_4 t i l) refl refl v;
  below_pdp = λ t i l v. leads_on (both_tables t i) 12289 53249 2 (at_level_3 t i l) refl refl v;
  below_pde = λ t i l v b. leads_on (both_tables t i) 16385 57345 1 (at_level_2 t i l) refl refl v;
}

-- A walk from table 1 ends in table 4.
ends_in_4 :
    (vaddr : ℕ) (slot : Slot) → mapping (walk both_tables 1 vaddr) ≡ some slot → slot.table ≡ 4
unfolding walk walk_pdp walk_pde walk_pte mapping test_bit
ends_in_4 vaddr slot e = elim (Bool-cases (pml4_index vaddr == 0)) [
  | inr a ↦ let wrong : none ≡ some slot = rw a at e in cc
  | inl a ↦ elim (Bool-cases (pdp_index vaddr == 0)) [
    | inr b ↦ let wrong : none ≡ some slot = rw (a, b) at e in cc
    | inl b ↦ elim (Bool-cases (pde_index vaddr == 0)) [
      | inr c ↦ let wrong : none ≡ some slot = rw (a, b, c) at e in cc
      | inl c ↦ elim (Bool-cases (pte_index vaddr == 1)) [
        | inr d ↦ let wrong : none ≡ some slot = rw (a, b, c, d) at e in cc
        | inl d ↦
            let here : some (record { table = 4; index = pte_index vaddr }) ≡ some slot =
              rw (a, b, c, d) at e in
            ap (λ (x : Slot). x.table) (sym (some_eq here))
      ]
    ]
  ]
]

apart_from_14 : IsUnreached both_tables 1 14
apart_from_14 vaddr slot e same = absurd (omega (arith, ends_in_4 vaddr slot e))

abbrev child_slot : Slot
child_slot = record { table = 14; index = 1 }

abbrev mapped_state : CloneState
mapped_state = record parent_state { tables = both_tables }

abbrev mapped_fork : CloneState
mapped_fork =
    kernel_clone_ret_handler context mapped_state 7 4096 false (pos 8) (parent_area ∷ [])
      ([] ++ child_area ∷ [])

kernel_clone_ret_handler_changes_parent_example :
    IsReadOnly mapped_fork.tables 4096 5000
    × ((k : ℕ) → is_bit_set mapped_fork.tables 45056 5000 k ≡ is_bit_set both_tables 45056 5000 k)
unfolding is_hooked has_pid is_shared_wx walk walk_pdp walk_pde walk_pte mapping test_bit
kernel_clone_ret_handler_changes_parent_example =
    kernel_clone_ret_handler_changes_parent context mapped_state 7 4096 8 (parent_area ∷ []) [] []
      child_area refl both_levels 5000 both_tables-IsLayered refl shared_area-InArea refl 45056 5000
      child_slot refl refl apart_from_14
