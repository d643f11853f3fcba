-- ===== src/Paging/Rules.antt =====
-- What the changes of `deny_execution` and `deny_write` do to the bits of an entry.

use flow_scanner.Prelude.{
  ℕ, ◌≡◌, ◌≢◌, refl, sym, Bool, true, false, arith, ◌⊎◌, if◌then◌else◌, Bool-cases, inl, inr, ◌&&◌,
  not, Option, some, none, some_eq,
}
use flow_scanner.Paging.Bits.{
  test_bit, put_bit, set_bit, clear_bit, test_bit-put_bit-same, test_bit-put_bit-other,
}
use flow_scanner.Paging.Flip.{
  VmArea, user_bit, deny_execution, deny_write, executable_rule, writable_rule, is_shared_wx,
  shared_rule, inherited_rule,
}
use flow_scanner.Paging.Change.{Keeps, Preserves}
use flow_scanner.Paging.Areas.{RuleKeeps, RulePreserves}

pub deny_execution-other :
    (w j : ℕ) → j ≢ 63 → j ≢ 56 → test_bit (deny_execution w) j ≡ test_bit w j
unfolding deny_execution set_bit
deny_execution-other w j a b = elim (Bool-cases (user_bit w)) [
  | inl u ↦
      rw (u, test_bit-put_bit-other (put_bit w 63 true) 56 j true b)
        (test_bit-put_bit-other w 63 j true a)
  | inr u ↦ rw u refl
]

pub deny_execution-denied : (w : ℕ) → test_bit w 1 ≡ true → test_bit (deny_execution w) 63 ≡ true
unfolding deny_execution user_bit set_bit
deny_execution-denied w u =
    rw (u, test_bit-put_bit-other (put_bit w 63 true) 56 63 true (λ e. absurd (omega (arith, e))))
      (test_bit-put_bit-same w 63 true)

pub deny_execution_read_only : (w : ℕ) → test_bit w 1 ≡ false → deny_execution w ≡ w
unfolding deny_execution user_bit
deny_execution_read_only w u = rw u refl

pub deny_write-other : (w j : ℕ) → j ≢ 1 → j ≢ 57 → test_bit (deny_write w) j ≡ test_bit w j
unfolding deny_write set_bit clear_bit
deny_write-other w j a b = elim (Bool-cases (user_bit w)) [
  | inl u ↦
      rw (u, test_bit-put_bit-other (put_bit w 1 false) 57 j true b)
        (test_bit-put_bit-other w 1 j false a)
  | inr u ↦ rw u refl
]

pub deny_write_untouched : (w : ℕ) → test_bit w 1 ≡ false → deny_write w ≡ w
unfolding deny_write user_bit
deny_write_untouched w u = rw u refl

pub deny_write-denied : (w : ℕ) → test_bit (deny_write w) 1 ≡ false
unfolding deny_write set_bit clear_bit user_bit
deny_write-denied w = elim (Bool-cases (test_bit w 1)) [
  | inl u ↦
      rw (u, test_bit-put_bit-other (put_bit w 1 false) 57 1 true (λ e. absurd (omega (arith, e))))
        (test_bit-put_bit-same w 1 false)
  | inr u ↦ rw u u
]

pub deny_execution-Keeps : Keeps deny_execution
deny_execution-Keeps w = (
  deny_execution-other w 0 (λ e. absurd (omega (arith, e))) (λ e. absurd (omega (arith, e))),
  deny_execution-other w 7 (λ e. absurd (omega (arith, e))) (λ e. absurd (omega (arith, e))),
)

pub deny_write-Keeps : Keeps deny_write
deny_write-Keeps w = (
  deny_write-other w 0 (λ e. absurd (omega (arith, e))) (λ e. absurd (omega (arith, e))),
  deny_write-other w 7 (λ e. absurd (omega (arith, e))) (λ e. absurd (omega (arith, e))),
)

-- The rules of the four functions, each of whose changes is one of the two.
abbrev pub IsDenial : (VmArea → Option (ℕ → ℕ)) → Type 0
IsDenial rule =
    (vma : VmArea) (change : ℕ → ℕ)
    → rule vma ≡ some change
    → (change ≡ deny_execution) ⊎ (change ≡ deny_write)

chosen_or :
    (b : Bool) (f : ℕ → ℕ) (other : Option (ℕ → ℕ)) (change : ℕ → ℕ)
    → (if b then some f else other) ≡ some change
    → (change ≡ f) ⊎ (other ≡ some change)
chosen_or true f other change e = inl (sym (some_eq e))
chosen_or false f other change e = inr e

pub executable_rule-IsDenial : IsDenial executable_rule
unfolding executable_rule
executable_rule-IsDenial vma change e = elim (chosen_or vma.vm_exec deny_execution none change e) [
  | inl d ↦ inl d
  | inr q ↦ cc
]

pub writable_rule-IsDenial : IsDenial writable_rule
unfolding writable_rule
writable_rule-IsDenial vma change e = elim (chosen_or vma.vm_write deny_write none change e) [
  | inl d ↦ inr d
  | inr q ↦ cc
]

pub shared_rule-IsDenial : IsDenial shared_rule
unfolding shared_rule
shared_rule-IsDenial vma change e = elim (chosen_or (is_shared_wx vma) deny_write none change e) [
  | inl d ↦ inr d
  | inr q ↦ cc
]

pub inherited_rule-IsDenial : IsDenial inherited_rule
unfolding inherited_rule
inherited_rule-IsDenial vma change e =
    let private = not vma.vm_shared && vma.vm_exec in
    let rest : Option (ℕ → ℕ) = if private then some deny_execution else none in
    elim (chosen_or (is_shared_wx vma) deny_write rest change e) [
      | inl d ↦ inr d
      | inr r ↦ elim (chosen_or private deny_execution none change r) [ inl d ↦ inl d | inr q ↦ cc ]
    ]

module _ (rule : VmArea → Option (ℕ → ℕ)) (denial : IsDenial rule) where
  pub IsDenial-RuleKeeps : RuleKeeps rule
  IsDenial-RuleKeeps vma change e = elim (denial vma change e) [
    | inl d ↦ rw d deny_execution-Keeps
    | inr d ↦ rw d deny_write-Keeps
  ]

  -- A property that both changes preserve.
  pub IsDenial-RulePreserves :
      (p : ℕ → Bool) → Preserves p deny_execution → Preserves p deny_write → RulePreserves p rule
  IsDenial-RulePreserves p x y vma change e = elim (denial vma change e) [
    | inl d ↦ rw d x
    | inr d ↦ rw d y
  ]
