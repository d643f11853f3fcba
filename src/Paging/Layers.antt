-- ===== src/Paging/Layers.antt =====
-- Page tables in four layers, and the changes of them that no walk notices.

use flow_scanner.Prelude.{ℕ, ◌≤◌, ◌≡◌, refl, sym, ◌∙◌, true, false, arith, Bool-cases, inl, inr}
use flow_scanner.Paging.Walk.{
  PageTables, pml4_index, pdp_index, pde_index, pte_index, valid, lh_mapping, pt_address, walk,
  walk_pdp, walk_pde, walk_pte,
}

-- `level` tells the layers apart: 4 for the first table of a walk, 1 for the last.
pub record IsLayered (level : ℕ → ℕ) (tables : PageTables) : Type 0 where
  pub below_pgd :
      (t i : ℕ) → level t ≡ 4 → valid (tables t i) ≡ true → level (pt_address (tables t i)) ≡ 3
  pub below_pdp :
      (t i : ℕ) → level t ≡ 3 → valid (tables t i) ≡ true → level (pt_address (tables t i)) ≡ 2
  pub below_pde :
      (t i : ℕ)
      → level t ≡ 2
      → valid (tables t i) ≡ true
      → lh_mapping (tables t i) ≡ false
      → level (pt_address (tables t i)) ≡ 1

-- The same tables but for entries at which walks end, which still map what they mapped.
pub record Similar (level : ℕ → ℕ) (tables changed : PageTables) : Type 0 where
  pub upper : (t i : ℕ) → 3 ≤ level t → changed t i ≡ tables t i
  pub small : (t i : ℕ) → 2 ≤ level t → lh_mapping (tables t i) ≡ false → changed t i ≡ tables t i
  pub validity : (t i : ℕ) → valid (changed t i) ≡ valid (tables t i)
  pub largeness : (t i : ℕ) → lh_mapping (changed t i) ≡ lh_mapping (tables t i)

pub unchanged-Similar : (level : ℕ → ℕ) (tables : PageTables) → Similar level tables tables
unchanged-Similar level tables = record {
  upper = λ t i h. refl;
  small = λ t i h l. refl;
  validity = λ t i. refl;
  largeness = λ t i. refl;
}

pub then-Similar :
    {level : ℕ → ℕ} {a b c : PageTables} → Similar level a b → Similar level b c → Similar level a c
then-Similar s u = record {
  upper = λ t i h. u.upper t i h ∙ s.upper t i h;
  small = λ t i h l. u.small t i h (s.largeness t i ∙ l) ∙ s.small t i h l;
  validity = λ t i. u.validity t i ∙ s.validity t i;
  largeness = λ t i. u.largeness t i ∙ s.largeness t i;
}

module _ {level : ℕ → ℕ} {tables changed : PageTables} (s : Similar level tables changed)
    (layered : IsLayered level tables) where
  pub Similar-IsLayered : IsLayered level changed
  Similar-IsLayered = record {
    below_pgd = λ t i l v.
        let same : changed t i ≡ tables t i = s.upper t i (omega arith) in
        rw same (layered.below_pgd t i l (sym (s.validity t i) ∙ v));
    below_pdp = λ t i l v.
        let same : changed t i ≡ tables t i = s.upper t i (omega arith) in
        rw same (layered.below_pdp t i l (sym (s.validity t i) ∙ v));
    below_pde = λ t i l v b.
        let small = sym (s.largeness t i) ∙ b in
        let same : changed t i ≡ tables t i = s.small t i (omega arith) small in
        rw same (layered.below_pde t i l (sym (s.validity t i) ∙ v) small);
  }

  walk_pte-Similar : (pte vaddr : ℕ) → walk_pte changed pte vaddr ≡ walk_pte tables pte vaddr
  unfolding walk_pte
  walk_pte-Similar pte vaddr =
      let same : valid (changed pte (pte_index vaddr)) ≡ valid (tables pte (pte_index vaddr)) =
        s.validity pte (pte_index vaddr) in
      rw same refl

  walk_pde-Similar :
      (pde vaddr : ℕ) → level pde ≡ 2 → walk_pde changed pde vaddr ≡ walk_pde tables pde vaddr
  unfolding walk_pde
  walk_pde-Similar pde vaddr l =
      let i = pde_index vaddr in
      let v : valid (changed pde i) ≡ valid (tables pde i) = s.validity pde i in
      let b : lh_mapping (changed pde i) ≡ lh_mapping (tables pde i) = s.largeness pde i in
      elim (Bool-cases (lh_mapping (tables pde i))) [
        | inl e ↦ rw (v, b, e) refl
        | inr e ↦
            let same : changed pde i ≡ tables pde i = s.small pde i (omega arith) e in
            rw (same, walk_pte-Similar (pt_address (tables pde i)) vaddr) refl
      ]

  walk_pdp-Similar :
      (pdp vaddr : ℕ) → level pdp ≡ 3 → walk_pdp changed pdp vaddr ≡ walk_pdp tables pdp vaddr
  unfolding walk_pdp
  walk_pdp-Similar pdp vaddr l =
      let i = pdp_index vaddr in
      let same : changed pdp i ≡ tables pdp i = s.upper pdp i (omega arith) in
      elim (Bool-cases (valid (tables pdp i))) [
        | inl e ↦
            rw
              (
                same,
                walk_pde-Similar (pt_address (tables pdp i)) vaddr (layered.below_pdp pdp i l e),
              )
              refl
        | inr e ↦ rw (same, e) refl
      ]

  pub walk-Similar :
      (pgd vaddr : ℕ) → level pgd ≡ 4 → walk changed pgd vaddr ≡ walk tables pgd vaddr
  unfolding walk
  walk-Similar pgd vaddr l =
      let i = pml4_index vaddr in
      let same : changed pgd i ≡ tables pgd i = s.upper pgd i (omega arith) in
      elim (Bool-cases (valid (tables pgd i))) [
        | inl e ↦
            rw
              (
                same,
                walk_pdp-Similar (pt_address (tables pgd i)) vaddr (layered.below_pgd pgd i l e),
              )
              refl
        | inr e ↦ rw (same, e) refl
      ]
