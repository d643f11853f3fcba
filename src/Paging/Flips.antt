-- ===== src/Paging/Flips.antt =====
-- What `flip_bit_on_other` does to what can be read of the page tables.
use flow_scanner.Prelude.{
  ℕ, ◌≡◌, ◌≢◌, refl, sym, ap, ◌∙◌, Bool, true, false, arith, ◌==◌, if◌then◌else◌, Bool-cases, inl,
  inr, ◌&&◌, ==_iff, some, Option-cases,
}
use flow_scanner.Paging.Bits.{test_bit, put_bit, test_bit-put_bit-same, test_bit-put_bit-other}
use flow_scanner.Paging.Walk.{
  PageTables, Slot, entry, walk, mapping, bit_value, is_bit_set_on_other,
}
use flow_scanner.Paging.Flip.{store, flip_bit_on_other, change_entry}
use flow_scanner.Paging.Layers.{IsLayered, Similar-IsLayered, walk-Similar}
use flow_scanner.Paging.Change.{Keeps}
use flow_scanner.Paging.Loops.{change_entry_at, change_entry-Similar}
use flow_scanner.Paging.Reads.{is_bit_set_on_other_mapped}

pub put_bit-Keeps : (b : ℕ) (v : Bool) → b ≢ 0 → b ≢ 7 → Keeps (λ w. put_bit w b v)
put_bit-Keeps b v not_valid not_large w = (
  test_bit-put_bit-other w b 0 v (λ e. not_valid (sym e)),
  test_bit-put_bit-other w b 7 v (λ e. not_large (sym e)),
)

abbrev pub same_slot : Slot → Slot → Bool
same_slot a b = a.table == b.table && a.index == b.index

same_slot-stored :
    (tables : PageTables) (slot other : Slot) (w : ℕ)
    → entry (store tables slot w) other ≡ (if same_slot other slot then w else entry tables other)
unfolding store
same_slot-stored tables slot other w = refl

same_slot-eq :
    (tables : PageTables) (a b : Slot) → same_slot a b ≡ true → entry tables a ≡ entry tables b
same_slot-eq tables a b h =
    let table : a.table ≡ b.table = ground arith in
    let index : a.index ≡ b.index = ground arith in rw (table, index) refl

pub test_bit-put_bit :
    (w b k : ℕ) (v : Bool) → test_bit (put_bit w b v) k ≡ (if k == b then v else test_bit w k)
test_bit-put_bit w b k v = elim (Bool-cases (k == b)) [
  | inl e ↦ let same = (==_iff k b).0 e in rw (e, same) (test_bit-put_bit-same w b v)
  | inr e ↦
      rw e (
        test_bit-put_bit-other w b k v
          (λ same. let t : (k == b) ≡ true = (==_iff k b).1 same in cc))
]

module _ (tables : PageTables) (pgd vaddr bit_position : ℕ) (set : Bool) where
  pub flipped_entry :
      (flip_bit_on_other tables pgd vaddr bit_position set).0
      ≡ change_entry (λ w. put_bit w bit_position set) tables pgd vaddr
  unfolding flip_bit_on_other change_entry
  flipped_entry = elim (Option-cases (mapping (walk tables pgd vaddr))) [
    | inl e ↦ rw (e, flip_bit_on_other, change_entry) refl
    | inr (slot, e) ↦ rw (e, flip_bit_on_other, change_entry) refl
  ]

  pub flipped_slot :
      (slot other : Slot) (k : ℕ)
      → mapping (walk tables pgd vaddr) ≡ some slot
      → test_bit (entry (flip_bit_on_other tables pgd vaddr bit_position set).0 other) k ≡ (
          if same_slot other slot && k == bit_position
          then set
          else test_bit (entry tables other) k)
  flipped_slot slot other k e =
      let w = put_bit (entry tables slot) bit_position set in
      let after : (flip_bit_on_other tables pgd vaddr bit_position set).0 ≡ store tables slot w =
        flipped_entry ∙ change_entry_at (λ x. put_bit x bit_position set) tables pgd vaddr slot e in
      let here : test_bit (entry (store tables slot w) other) k ≡ (
          if same_slot other slot && k == bit_position
          then set
          else test_bit (entry tables other) k) =
        elim (Bool-cases (same_slot other slot)) [
          | inl s ↦
              rw (same_slot-stored tables slot other w, s, same_slot-eq tables other slot s)
                (test_bit-put_bit (entry tables slot) bit_position k set)
          | inr s ↦ rw (same_slot-stored tables slot other w, s) refl
        ] in
      ap (λ t. test_bit (t other.table other.index) k) after ∙ here

bit_value_if :
    (c a b : Bool) → bit_value (if c then a else b) ≡ (if c then bit_value a else bit_value b)
bit_value_if true a b = refl
bit_value_if false a b = refl

module _ (level : ℕ → ℕ) (tables : PageTables) (layered : IsLayered level tables) (pgd : ℕ)
    (top : level pgd ≡ 4) (vaddr bit_position : ℕ) (set : Bool) (not_valid : bit_position ≢ 0)
    (not_large : bit_position ≢ 7) where
  -- If the page tables stand in four layers, flip_bit_on_other on another bit than VALID and
  -- LH_MAPPING keeps them in layers and keeps every walk.
  pub flip_bit_on_other-IsLayered :
      IsLayered level (flip_bit_on_other tables pgd vaddr bit_position set).0
      × ((at : ℕ)
          → walk (flip_bit_on_other tables pgd vaddr bit_position set).0 pgd at
            ≡ walk tables pgd at)
  flip_bit_on_other-IsLayered =
      let similar =
        change_entry-Similar level (λ w. put_bit w bit_position set)
          (put_bit-Keeps bit_position set not_valid not_large) pgd top tables vaddr layered in
      rw flipped_entry
        (Similar-IsLayered similar layered, λ at. walk-Similar similar layered pgd at top)

  -- If the page tables stand in four layers and flip_bit_on_other changes another bit than VALID
  -- and LH_MAPPING of a mapped address, then is_bit_set_on_other answers the new value for the
  -- flipped bit of the flipped entry, and what it answered before for each other bit and mapped
  -- address.
  pub flip_bit_on_other_reads :
      (at k : ℕ) (slot other : Slot)
      → mapping (walk tables pgd vaddr) ≡ some slot
      → mapping (walk tables pgd at) ≡ some other
      → is_bit_set_on_other (flip_bit_on_other tables pgd vaddr bit_position set).0 pgd at k ≡ (
          if same_slot other slot && k == bit_position
          then bit_value set
          else is_bit_set_on_other tables pgd at k)
  flip_bit_on_other_reads at k slot other e f =
      let changed : PageTables = (flip_bit_on_other tables pgd vaddr bit_position set).0 in
      let kept : walk changed pgd at ≡ walk tables pgd at = flip_bit_on_other-IsLayered.1 at in
      let g : mapping (walk changed pgd at) ≡ some other = rw kept f in
      rw
        (
          is_bit_set_on_other_mapped changed pgd at k other g,
          is_bit_set_on_other_mapped tables pgd at k other f,
          flipped_slot tables pgd vaddr bit_position set slot other k e,
        )
        (bit_value_if (same_slot other slot && k == bit_position) set
          (test_bit (entry tables other) k))
