-- ===== src/Tests/Paging.antt =====
-- The theorems on page tables, at tables that map two pages of a process and the same pages at an
-- address of the kernel.

use flow_scanner.Prelude.{
  ℕ, ◌≡◌, refl, true, false, arith, ◌==◌, ◌⊎◌, if◌then◌else◌, inl, inr, ◌&&◌, [], ◌∷◌, ◌++◌,
}
use flow_scanner.Paging.Bits.{test_bit}
use flow_scanner.Paging.Walk.{
  PageTables, Slot, entry, valid, pt_address, walk, walk_pdp, walk_pde, walk_pte, mapping,
  bit_value, is_bit_set_on_other,
}
use flow_scanner.Paging.Flip.{
  flip_bit_on_other, VmArea, set_all_pages_non_executable, is_shared_wx,
  set_all_sh_pages_non_writable, manage_inherited_pages, shared_flip_bit,
}
use flow_scanner.Paging.Layers.{IsLayered}
use flow_scanner.Paging.Denied.{
  InArea, IsGuarded, set_all_pages_non_executable-IsGuarded, manage_inherited_pages-IsGuarded,
}
use flow_scanner.Paging.Flips.{same_slot, flip_bit_on_other_reads}
use flow_scanner.Paging.ReadOnly.{IsReadOnly, manage_inherited_pages-IsReadOnly}
use flow_scanner.Paging.Shared.{shared_flip_bit_sets_nothing}

-- Page 1 is mapped user, writable and executable, page 2 user and executable.
abbrev pub tables : PageTables
tables table index =
    if table == 1
    then (if index == 0 then 8193 else (if index == 256 then 8193 else 0))
    else (if table == 2
        then (if index == 0 then 12289 else 0)
        else (if table == 3
            then (if index == 0 then 16385 else 0)
            else (if table == 4
                then (if index == 1 then 20487 else (if index == 2 then 24581 else 0))
                else 0)))

abbrev pub level : ℕ → ℕ
level frame =
    if frame == 1
    then 4
    else (if frame == 2 then 3 else (if frame == 3 then 2 else (if frame == 4 then 1 else 0)))

layer_4 : (t : ℕ) → level t ≡ 4 → t ≡ 1
layer_4 t l = ground arith

layer_3 : (t : ℕ) → level t ≡ 3 → t ≡ 2
layer_3 t l = ground arith

layer_2 : (t : ℕ) → level t ≡ 2 → t ≡ 3
layer_2 t l = ground arith

entry_3 : (i : ℕ) → (tables 3 i ≡ 16385) ⊎ (tables 3 i ≡ 0)
entry_3 i = ground arith

entry_2 : (i : ℕ) → (tables 2 i ≡ 12289) ⊎ (tables 2 i ≡ 0)
entry_2 i = ground arith

entry_1 : (i : ℕ) → (tables 1 i ≡ 8193) ⊎ (tables 1 i ≡ 0)
entry_1 i = ground arith

leads :
    (w entry n : ℕ)
    → (w ≡ entry) ⊎ (w ≡ 0)
    → level (pt_address entry) ≡ n
    → valid w ≡ true
    → level (pt_address w) ≡ n
unfolding test_bit
leads w entry n (inl e) l v = rw e l
leads w entry n (inr e) l v = let absurd_bit : false ≡ true = rw e at v in cc

pub tables-IsLayered : IsLayered level tables
tables-IsLayered = record {
  below_pgd = λ t i l v. leads (tables t i) 8193 3 (rw (layer_4 t l) (entry_1 i)) refl v;
  below_pdp = λ t i l v. leads (tables t i) 12289 2 (rw (layer_3 t l) (entry_2 i)) refl v;
  below_pde = λ t i l v b. leads (tables t i) 16385 1 (rw (layer_2 t l) (entry_3 i)) refl v;
}

abbrev pub text_area : VmArea
text_area = record {
  vm_start = 4096;
  vm_end = 12288;
  vm_shared = false;
  vm_write = true;
  vm_exec = true;
}

abbrev pub shared_area : VmArea
shared_area = record {
  vm_start = 4096;
  vm_end = 12288;
  vm_shared = true;
  vm_write = true;
  vm_exec = true;
}

text_area-InArea : InArea text_area 5000
text_area-InArea = record { aligned = refl; from = omega arith; before = omega arith }

pub shared_area-InArea : InArea shared_area 5000
shared_area-InArea = record { aligned = refl; from = omega arith; before = omega arith }

set_all_pages_non_executable-IsGuarded_example :
    IsGuarded (set_all_pages_non_executable tables 4096 ([] ++ text_area ∷ [])) 4096 5000
set_all_pages_non_executable-IsGuarded_example =
    set_all_pages_non_executable-IsGuarded level tables tables-IsLayered 4096 refl [] [] text_area
      5000 text_area-InArea refl

manage_inherited_pages-IsGuarded_example :
    IsGuarded (manage_inherited_pages tables 4096 ([] ++ text_area ∷ [])) 4096 5000
manage_inherited_pages-IsGuarded_example =
    manage_inherited_pages-IsGuarded level tables tables-IsLayered 4096 refl [] [] text_area 5000
      text_area-InArea refl (inl refl)

manage_inherited_pages-IsReadOnly_example :
    IsReadOnly (set_all_sh_pages_non_writable tables 4096 ([] ++ shared_area ∷ [])) 4096 5000
    × IsReadOnly (manage_inherited_pages tables 4096 ([] ++ shared_area ∷ [])) 4096 5000
unfolding is_shared_wx
manage_inherited_pages-IsReadOnly_example =
    manage_inherited_pages-IsReadOnly level tables tables-IsLayered 4096 refl [] [] shared_area 5000
      shared_area-InArea refl

abbrev pub text_slot : Slot
text_slot = record { table = 4; index = 1 }

abbrev next_slot : Slot
next_slot = record { table = 4; index = 2 }

flip_bit_on_other_reads_example :
    is_bit_set_on_other (flip_bit_on_other tables 1 4096 63 true).0 1 8192 63 ≡ (
      if same_slot next_slot text_slot && 63 == 63
      then bit_value true
      else is_bit_set_on_other tables 1 8192 63)
unfolding walk walk_pdp walk_pde walk_pte mapping test_bit
flip_bit_on_other_reads_example =
    flip_bit_on_other_reads level tables tables-IsLayered 1 refl 4096 63 true
      (λ e. absurd (omega (arith, e))) (λ e. absurd (omega (arith, e))) 8192 63 text_slot next_slot
      refl refl

shared_flip_bit_sets_nothing_example :
    test_bit (shared_flip_bit tables (1 ∷ 9 ∷ []) 9 4096 1 true 4 1) 1 ≡ test_bit (tables 4 1) 1
shared_flip_bit_sets_nothing_example =
    shared_flip_bit_sets_nothing 4 1 1 4096 1 refl tables (1 ∷ 9 ∷ []) 9
