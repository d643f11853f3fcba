-- ===== src/UserLimits/Blocking.antt =====
-- A user that asks for more than the limit is blocked in the end.

use flow_scanner.Prelude.{
  ℕ, ◌+◌, ◌*◌, ◌^◌, ◌≤◌, ◌<◌, ◌≡◌, refl, ◌∙◌, true, false, arith, ltb, ◌⊎◌, Bool-cases, inl, inr,
  ==_iff, lt→ltb, some, List, [], ◌∷◌, add64, ltb→lt, ltb→le,
}
use flow_scanner.UserLimits.{UserHashNode, page_max_limit, charge, check_limit, check_bytes_limit}
use flow_scanner.UserLimits.Accounts.{account, charge-requested, check_limit-account}

-- The requests of a user, one after another.
unfoldable pub requests : (limit : ℕ) → List UserHashNode → (uid : ℕ) → List ℕ → List UserHashNode
requests limit users uid [] = users
requests limit users uid (size ∷ sizes) =
    requests limit (check_limit limit true users uid size).0 uid sizes

unfoldable pub total : List ℕ → ℕ
total [] = 0
total (size ∷ sizes) = size + total sizes

module _ (limit : ℕ) (users : List UserHashNode) (uid size : ℕ) (node : UserHashNode)
    (has : account users uid ≡ some node) where
  account_charged :
      account (check_limit limit true users uid size).0 uid ≡ some (charge limit node size).0
  account_charged =
      let law = (check_limit-account limit users uid size uid).1 in
      let same = charge-requested limit uid node size in
      rw same (rw ((==_iff uid uid).1 refl, has) at law)

  answer_charged : (check_limit limit true users uid size).1 ≡ (charge limit node size).1
  answer_charged =
      let law = (check_limit-account limit users uid size uid).0 in
      let same = charge-requested limit uid node size in rw same (rw has at law)

charge_blocked :
    (limit : ℕ) (node : UserHashNode) (size : ℕ)
    → node.is_blocked ≡ true
    → ((charge limit node size).0.is_blocked ≡ true) × ((charge limit node size).1 ≡ 1)
unfolding charge
charge_blocked limit node size b = (rw b refl, rw b refl)

charge_over :
    (limit : ℕ) (node : UserHashNode) (size : ℕ)
    → node.allocated + size < 2 ^ 64
    → limit < node.allocated + size
    → ((charge limit node size).0.is_blocked ≡ true) × ((charge limit node size).1 ≡ 1)
unfolding charge
charge_over limit node size fits over =
    let sum : add64 node.allocated size ≡ node.allocated + size = omega arith in
    let test = lt→ltb limit (node.allocated + size) over in
    elim (Bool-cases node.is_blocked) [
      | inl b ↦ charge_blocked limit node size b
      | inr b ↦ (rw (b, sum, test) refl, rw (b, sum, test) refl)
    ]

charge_within :
    (limit : ℕ) (node : UserHashNode) (size : ℕ)
    → node.allocated + size < 2 ^ 64
    → node.allocated + size ≤ limit
    → ((charge limit node size).0.is_blocked ≡ true)
      ⊎ ((charge limit node size).0.allocated ≡ node.allocated + size)
unfolding charge
charge_within limit node size fits within =
    let sum : add64 node.allocated size ≡ node.allocated + size = omega arith in
    let test : ltb limit (node.allocated + size) ≡ false = ground arith in
    elim (Bool-cases node.is_blocked) [
      | inl b ↦ inl (charge_blocked limit node size b).0
      | inr b ↦ inr (rw (b, sum, test) refl)
    ]

blocked_stays :
    (limit : ℕ) (users : List UserHashNode) (uid : ℕ) (sizes : List ℕ) (size : ℕ)
    (node : UserHashNode)
    → account users uid ≡ some node
    → node.is_blocked ≡ true
    → (check_limit limit true (requests limit users uid sizes) uid size).1 ≡ 1
unfolding requests
blocked_stays limit users uid [] size node has b =
    answer_charged limit users uid size node has ∙ (charge_blocked limit node size b).1
blocked_stays limit users uid (first ∷ sizes) size node has b =
    blocked_stays limit (check_limit limit true users uid first).0 uid sizes size
      (charge limit node first).0 (account_charged limit users uid first node has)
      (charge_blocked limit node first b).0

over_limit :
    (limit : ℕ) (users : List UserHashNode) (uid : ℕ) (sizes : List ℕ) (size : ℕ)
    (node : UserHashNode)
    → account users uid ≡ some node
    → limit < node.allocated + (total sizes + size)
    → node.allocated + (total sizes + size) < 2 ^ 64
    → (check_limit limit true (requests limit users uid sizes) uid size).1 ≡ 1
unfolding requests total
over_limit limit users uid [] size node has over fits =
    answer_charged limit users uid size node has
    ∙ (charge_over limit node size (omega arith) (omega arith)).1
over_limit limit users uid (first ∷ sizes) size node has over fits =
    let next : List UserHashNode = (check_limit limit true users uid first).0 in
    let charged : UserHashNode = (charge limit node first).0 in
    let here : account next uid ≡ some charged = account_charged limit users uid first node has in
    elim (Bool-cases (ltb limit (node.allocated + first))) [
      | inl e ↦
          blocked_stays limit next uid sizes size charged here
            (charge_over limit node first (omega arith) (ltb→lt limit (node.allocated + first) e)).0
      | inr e ↦
          elim (charge_within limit node first (omega arith)
            (ltb→le limit (node.allocated + first) e)) [
              | inl b ↦ blocked_stays limit next uid sizes size charged here b
              | inr sum ↦
                  over_limit limit next uid sizes size charged here (omega arith) (omega arith)
            ]
    ]

-- If the requests of a user who has an account, together with what is allocated to the user, exceed
-- PAGE_MAX_LIMIT pages, and the sum fits in an unsigned long, check_bytes_limit answers 1 to the
-- last of them.
pub check_bytes_limit_blocks :
    (users : List UserHashNode) (uid : ℕ) (sizes : List ℕ) (size : ℕ) (node : UserHashNode)
    → account users uid ≡ some node
    → page_max_limit * 4096 < node.allocated + (total sizes + size)
    → node.allocated + (total sizes + size) < 2 ^ 64
    → (check_bytes_limit true (requests (page_max_limit * 4096) users uid sizes) uid size).1 ≡ 1
unfolding check_bytes_limit
check_bytes_limit_blocks users uid sizes size node has over fits =
    over_limit (page_max_limit * 4096) users uid sizes size node has over fits
