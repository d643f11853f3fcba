-- ===== src/Paging/Change.antt =====
-- What a change of the entry of a mapped address leaves as it is: the walks, and each property of
-- entries that the change of a word keeps.

use flow_scanner.Prelude.{
  ℕ, ◌≤◌, ◌≡◌, sym, ap, Bool, true, false, arith, ◌⊎◌, Bool-cases, inl, inr, some, none, some_eq,
}
use flow_scanner.Paging.Walk.{
  PageTables, Slot, entry, pml4_index, pdp_index, pde_index, pte_index, valid, lh_mapping,
  pt_address, walk, walk_pdp, walk_pde, walk_pte, mapping,
}
use flow_scanner.Paging.Flip.{store}
use flow_scanner.Paging.Layers.{IsLayered, Similar}

-- The entry of a slot at which a walk ends.
pub record IsLeaf (level : ℕ → ℕ) (tables : PageTables) (slot : Slot) : Type 0 where
  pub low : level slot.table ≤ 2
  pub big : 2 ≤ level slot.table → lh_mapping (entry tables slot) ≡ true

-- The change keeps VALID and LH_MAPPING.
abbrev pub Keeps : (ℕ → ℕ) → Type 0
Keeps change = (w : ℕ) → (valid (change w) ≡ valid w) × (lh_mapping (change w) ≡ lh_mapping w)

abbrev pub Preserves : (p : ℕ → Bool) (change : ℕ → ℕ) → Type 0
Preserves p change = (w : ℕ) → p w ≡ true → p (change w) ≡ true

pub store_same : (tables : PageTables) (slot : Slot) (w : ℕ) → entry (store tables slot w) slot ≡ w
unfolding store
store_same tables slot w = ground arith

pub store_cases :
    (tables : PageTables) (slot : Slot) (w t i : ℕ)
    → ((t ≡ slot.table) × (i ≡ slot.index) × (store tables slot w t i ≡ w))
      ⊎ (store tables slot w t i ≡ tables t i)
unfolding store
store_cases tables slot w t i = ground arith

-- A property that old and new word agree on is the same in every slot.
store_agrees :
    (p : ℕ → Bool) (tables : PageTables) (slot : Slot) (w t i : ℕ)
    → p w ≡ p (entry tables slot)
    → p (store tables slot w t i) ≡ p (tables t i)
store_agrees p tables slot w t i h = elim (store_cases tables slot w t i) [
  | inl (et, ei, e) ↦ rw (e, et, ei) h
  | inr e ↦ ap p e
]

pub store-Similar :
    (level : ℕ → ℕ) (tables : PageTables) (slot : Slot) (w : ℕ)
    → IsLeaf level tables slot
    → valid w ≡ valid (entry tables slot)
    → lh_mapping w ≡ lh_mapping (entry tables slot)
    → Similar level tables (store tables slot w)
store-Similar level tables slot w leaf v l = record {
  upper = λ t i h. elim (store_cases tables slot w t i) [
    | inl (et, ei, e) ↦ absurd (omega (arith, leaf.low, ap level et))
    | inr e ↦ e
  ];
  small = λ t i h not_large. elim (store_cases tables slot w t i) [
    | inl (et, ei, e) ↦
        let here : lh_mapping (tables slot.table slot.index) ≡ false =
          rw (sym et, sym ei) not_large in
        let two : 2 ≤ level slot.table = rw (sym et) h in
        let there : lh_mapping (tables slot.table slot.index) ≡ true = leaf.big two in cc
    | inr e ↦ e
  ];
  validity = λ t i. store_agrees valid tables slot w t i v;
  largeness = λ t i. store_agrees lh_mapping tables slot w t i l;
}

module _ {level : ℕ → ℕ} {tables : PageTables} (layered : IsLayered level tables) where
  walk_pte-IsLeaf :
      (pte vaddr : ℕ) (slot : Slot)
      → level pte ≡ 1
      → mapping (walk_pte tables pte vaddr) ≡ some slot
      → IsLeaf level tables slot
  unfolding mapping walk_pte
  walk_pte-IsLeaf pte vaddr slot l h =
      let found : Slot = record { table = pte; index = pte_index vaddr } in
      elim (Bool-cases (valid (entry tables found))) [
        | inl v ↦
            let same : some found ≡ some slot = rw v at h in
            let eq : found ≡ slot = some_eq same in
            rw (sym eq) record { low = omega arith; big = λ two. absurd (omega arith) }
        | inr v ↦ let same : none ≡ some slot = rw v at h in cc
      ]

  walk_pde-IsLeaf :
      (pde vaddr : ℕ) (slot : Slot)
      → level pde ≡ 2
      → mapping (walk_pde tables pde vaddr) ≡ some slot
      → IsLeaf level tables slot
  unfolding mapping walk_pde
  walk_pde-IsLeaf pde vaddr slot l h =
      let found : Slot = record { table = pde; index = pde_index vaddr } in
      elim (Bool-cases (valid (entry tables found))) [
        | inl v ↦ elim (Bool-cases (lh_mapping (entry tables found))) [
          | inl b ↦
              let same : some found ≡ some slot = rw (v, b) at h in
              let eq : found ≡ slot = some_eq same in
              rw (sym eq) record { low = omega arith; big = λ two. b }
          | inr b ↦
              walk_pte-IsLeaf (pt_address (entry tables found)) vaddr slot
                (layered.below_pde pde (pde_index vaddr) l v b) (rw (v, b) at h)
        ]
        | inr v ↦ let same : none ≡ some slot = rw v at h in cc
      ]

  walk_pdp-IsLeaf :
      (pdp vaddr : ℕ) (slot : Slot)
      → level pdp ≡ 3
      → mapping (walk_pdp tables pdp vaddr) ≡ some slot
      → IsLeaf level tables slot
  unfolding mapping walk_pdp
  walk_pdp-IsLeaf pdp vaddr slot l h =
      let e = tables pdp (pdp_index vaddr) in
      elim (Bool-cases (valid e)) [
        | inl v ↦
            walk_pde-IsLeaf (pt_address e) vaddr slot (layered.below_pdp pdp (pdp_index vaddr) l v)
              (rw v at h)
        | inr v ↦ let same : none ≡ some slot = rw v at h in cc
      ]

  pub walk-IsLeaf :
      (pgd vaddr : ℕ) (slot : Slot)
      → level pgd ≡ 4
      → mapping (walk tables pgd vaddr) ≡ some slot
      → IsLeaf level tables slot
  unfolding mapping walk
  walk-IsLeaf pgd vaddr slot l h =
      let e = tables pgd (pml4_index vaddr) in
      elim (Bool-cases (valid e)) [
        | inl v ↦
            walk_pdp-IsLeaf (pt_address e) vaddr slot (layered.below_pgd pgd (pml4_index vaddr) l v)
              (rw v at h)
        | inr v ↦ let same : none ≡ some slot = rw v at h in cc
      ]
