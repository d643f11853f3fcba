-- ===== src/Paging/Shared.antt =====
-- What `shared_flip_bit` of libs/utils.c does to the other mappings of a shared page.
use flow_scanner.Prelude.{
  ℕ, ◌≡◌, refl, ◌∙◌, Bool, true, false, ◌==◌, Bool-cases, inl, inr, ==_iff, List, [], ◌∷◌,
  Option-cases,
}
use flow_scanner.Paging.Bits.{test_bit, put_bit}
use flow_scanner.Paging.Walk.{PageTables, entry, walk, mapping, bit_value, is_bit_set_on_other}
use flow_scanner.Paging.Flip.{
  store, flip_bit_on_other, is_nonzero, shared_flip_one, shared_flip_bit,
}
use flow_scanner.Paging.Change.{store_cases}
use flow_scanner.Paging.Reads.{is_bit_set_on_other_mapped}
use flow_scanner.Paging.Flips.{test_bit-put_bit}

set_again : (w b k : ℕ) → test_bit w b ≡ true → test_bit (put_bit w b true) k ≡ test_bit w k
set_again w b k h = test_bit-put_bit w b k true ∙ elim (Bool-cases (k == b)) [
  | inl e ↦ let same = (==_iff k b).0 e in rw (e, same, h) refl
  | inr e ↦ rw e refl
]

nonzero_set : (b : Bool) → is_nonzero (bit_value b) ≡ true → b ≡ true
unfolding is_nonzero bit_value
nonzero_set true h = refl
nonzero_set false h = cc

set_flip_keeps :
    (t i k vaddr bit_position : ℕ) (tables : PageTables) (pgd : ℕ)
    → is_nonzero (is_bit_set_on_other tables pgd vaddr bit_position) ≡ true
    → test_bit ((flip_bit_on_other tables pgd vaddr bit_position true).0 t i) k
      ≡ test_bit (tables t i) k
unfolding flip_bit_on_other
set_flip_keeps t i k vaddr bit_position tables pgd r =
    elim (Option-cases (mapping (walk tables pgd vaddr))) [
      | inl e ↦ rw (e, flip_bit_on_other) refl
      | inr (slot, e) ↦
          let w = entry tables slot in
          let read : is_nonzero (bit_value (test_bit w bit_position)) ≡ true =
            rw (is_bit_set_on_other_mapped tables pgd vaddr bit_position slot e) at r in
          let bit = nonzero_set (test_bit w bit_position) read in
          let new = put_bit w bit_position true in
          let stored : test_bit (store tables slot new t i) k ≡ test_bit (tables t i) k =
            elim (store_cases tables slot new t i) [
              | inl (et, ei, written) ↦ rw (written, et, ei) (set_again w bit_position k bit)
              | inr same ↦ rw same refl
            ] in
          rw (e, flip_bit_on_other) stored
    ]

module _ (t i k vaddr bit_position : ℕ) (other : (bit_position == 63) ≡ false) where
  shared_flip_one_keeps :
      (tables : PageTables) (pgd : ℕ)
      → test_bit (shared_flip_one tables pgd vaddr bit_position true t i) k
        ≡ test_bit (tables t i) k
  unfolding shared_flip_one
  shared_flip_one_keeps tables pgd =
      let reading = is_nonzero (is_bit_set_on_other tables pgd vaddr bit_position) in
      elim (Bool-cases reading) [
        | inl r ↦
            rw (other, r, shared_flip_one) (set_flip_keeps t i k vaddr bit_position tables pgd r)
        | inr r ↦ rw (other, r, shared_flip_one) refl
      ]

  -- Setting a bit other than EXE_DENY_BIT through `shared_flip_bit` changes no bit of any entry.
  pub shared_flip_bit_sets_nothing :
      (tables : PageTables) (pgds : List ℕ) (own : ℕ)
      → test_bit (shared_flip_bit tables pgds own vaddr bit_position true t i) k
        ≡ test_bit (tables t i) k
  unfolding shared_flip_bit
  shared_flip_bit_sets_nothing tables [] own = refl
  shared_flip_bit_sets_nothing tables (pgd ∷ pgds) own = elim (Bool-cases (pgd == own)) [
    | inl e ↦ rw (e, shared_flip_bit) (shared_flip_bit_sets_nothing tables pgds own)
    | inr e ↦
        let next : PageTables = shared_flip_one tables pgd vaddr bit_position true in
        rw (e, shared_flip_bit)
          (shared_flip_bit_sets_nothing next pgds own ∙ shared_flip_one_keeps tables pgd)
  ]
