-- ===== src/UserLimits/Accounts.antt =====
-- The limits as accounts of users, whatever the order of the nodes.

use flow_scanner.Prelude.{
  ℕ, ◌≡◌, ◌≢◌, refl, sym, ap, ◌∙◌, Bool, true, false, arith, ◌==◌, if◌then◌else◌, Bool-cases, inl,
  inr, ==_iff, Option, some, none, List, [], ◌∷◌, some_eq, Option-cases, ◌||◌, ltb, ◌+◌, ◌%◌, ◌^◌,
}
use flow_scanner.UserLimits.{
  UserHashNode, charge, in_front, charge_user, first_request, check_limit,
}

-- The account of a user.
unfoldable pub account : List UserHashNode → ℕ → Option UserHashNode
account [] uid = none
account (node ∷ nodes) uid =
    let rest = account nodes uid in if node.uid == uid then some node else rest

-- What a request does to the account of its user. Without an account it opens one with its size and
-- is granted. With one it is refused if the user is blocked, which leaves the allocated amount, and
-- also if the amount with the request, modulo 2 ^ 64, is above the limit, which blocks the user and
-- counts the request nevertheless; otherwise it is counted and granted.
unfoldable pub requested : (limit uid size : ℕ) → Option UserHashNode → UserHashNode × ℕ
requested limit uid size none =
    (record { uid = uid; allocated = size; is_blocked = false; is_being_updated = true }, 0)
requested limit uid size (some node) =
    let sum = (node.allocated + size) % 2 ^ 64 in
    let refused = node.is_blocked || ltb limit sum in
    (
      record {
        uid = node.uid;
        allocated = if node.is_blocked then node.allocated else sum;
        is_blocked = refused;
        is_being_updated = true;
      },
      if refused then 1 else 0,
    )

pub charge-requested :
    (limit uid : ℕ) (node : UserHashNode) (size : ℕ)
    → charge limit node size ≡ requested limit uid size (some node)
unfolding charge requested
charge-requested limit uid node size = elim (Bool-cases node.is_blocked) [
  | inl b ↦ rw b refl
  | inr b ↦ elim (Bool-cases (ltb limit ((node.allocated + size) % 2 ^ 64))) [
    | inl l ↦ rw (b, l) refl
    | inr l ↦ rw (b, l) refl
  ]
]

charge-uid :
    (limit : ℕ) (node : UserHashNode) (size : ℕ) → (charge limit node size).0.uid ≡ node.uid
unfolding charge
charge-uid limit node size = ground arith

if_same {ℓ} :
    {A : Type ℓ}
    → (b : Bool) (x y z : A) → (if b then x else z) ≡ (if b then x else (if b then y else z))
if_same true x y z = refl
if_same false x y z = refl

swapped {ℓ} :
    {A : Type ℓ}
    → (a b other : ℕ) (x y z : A) → a ≢ b
    → (if a == other then x else (if b == other then y else z))
      ≡ (if b == other then y else (if a == other then x else z))
swapped a b other x y z ne = ground arith

-- A user that has a node is charged in its place.
charge_user-account :
    (limit : ℕ) (users : List UserHashNode) (uid size : ℕ) (node : UserHashNode)
    → account users uid ≡ some node
    → (after : List UserHashNode) × (charge_user limit users uid size
        ≡ some (after, (charge limit node size).1))
      × ((other : ℕ)
          → account after other
            ≡ (if uid == other then some (charge limit node size).0 else account users other))
unfolding account charge_user in_front
charge_user-account limit [] uid size node h = cc
charge_user-account limit (first ∷ users) uid size node h = elim (Bool-cases (first.uid == uid)) [
  | inl e ↦
      let s : first ≡ node = some_eq (rw e at h) in
      let uids = (==_iff first.uid uid).0 e in
      let charged : UserHashNode = (charge limit first size).0 in
      rw (sym s) (
        charged ∷ users,
        rw (e, charge_user) refl,
        λ other.
            let before : (first.uid == other) ≡ (uid == other) = ap (λ u. u == other) uids in
            let after : (charged.uid == other) ≡ (uid == other) =
              ap (λ u. u == other) (charge-uid limit first size ∙ uids) in
            rw (after, before)
              (if_same (uid == other) (some charged) (some first) (account users other)),
      )
  | inr e ↦
      let (after, done, law) = charge_user-account limit users uid size node (rw e at h) in
      let differ : first.uid ≢ uid =
        λ same. let t : (first.uid == uid) ≡ true = (==_iff first.uid uid).1 same in cc in
      (
        first ∷ after,
        rw (e, charge_user, done) refl,
        λ other. rw (law other) (
            swapped first.uid uid other (some first) (some (charge limit node size).0)
              (account users other) differ),
      )
]

charge_user-absent :
    (limit : ℕ) (users : List UserHashNode) (uid size : ℕ)
    → account users uid ≡ none
    → charge_user limit users uid size ≡ none
unfolding account charge_user in_front
charge_user-absent limit [] uid size h = refl
charge_user-absent limit (first ∷ users) uid size h = elim (Bool-cases (first.uid == uid)) [
  | inl e ↦ let wrong : some first ≡ none = rw e at h in cc
  | inr e ↦ rw (e, charge_user-absent limit users uid size (rw e at h)) refl
]

-- If memory for a node can be had, a request changes the account of its user alone and is answered
-- by that account alone: without one it opens one with its size and the answer is 0; a blocked user
-- gets 1 and keeps what is allocated; another one has the size added, modulo 2 ^ 64, and if that is
-- above the limit is blocked and gets 1, and otherwise gets 0.
pub check_limit-account :
    (limit : ℕ) (users : List UserHashNode) (uid size other : ℕ)
    → ((check_limit limit true users uid size).1 ≡ (requested limit uid size (account users uid)).1)
      × (account (check_limit limit true users uid size).0 other ≡ (
          if uid == other
          then some (requested limit uid size (account users uid)).0
          else account users other))
unfolding check_limit account first_request
check_limit-account limit users uid size other = elim (Option-cases (account users uid)) [
  | inl e ↦
      unfold requested in
      rw (e, check_limit, charge_user-absent limit users uid size e) (refl, refl)
  | inr (node, e) ↦
      let (after, done, law) = charge_user-account limit users uid size node e in
      let same = charge-requested limit uid node size in
      rw (e, check_limit, done, ← same) (refl, law other)
]
