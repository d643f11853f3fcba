-- ===== src/UserLimits.antt =====
-- The limits on what a user may have allocated: check_bytes_limit and check_page_limit of
-- libs/fprobes/fprobes_helper.c.
use flow_scanner.Prelude.{
  ℕ, zero, suc, ◌+◌, ◌-◌, ◌*◌, ◌/◌, ◌%◌, ◌^◌, ◌≤◌, ◌<◌, ◌≡◌, ◌≢◌, ◌↔◌, refl, sym, ap, ◌∙◌, Bool,
  true, false, arith, tests, ltb, leb, ◌==◌, ◌⊎◌, if◌then◌else◌, Bool-cases, inl, inr, ◌&&◌, ◌||◌,
  not, ==_iff, ne→==, lt→ltb, le→leb, lt→leb, all_below, Option, some, none, List, [], ◌∷◌, ◌++◌,
  some_eq, Option-cases, add64,
}
pub mod Accounts
pub mod Blocking

-- `allocated` is bytes_allocated, or page_allocated in the other build.
pub record UserHashNode : Type 0 where
  pub uid : ℕ
  pub allocated : ℕ
  pub is_blocked : Bool
  pub is_being_updated : Bool

-- PAGE_MAX_LIMIT.
abbrev pub page_max_limit : ℕ
page_max_limit = 200000

-- What is done with the node of a user that exists: the node and the answer.
unfoldable pub charge : (limit : ℕ) → UserHashNode → (size : ℕ) → UserHashNode × ℕ
charge limit node size =
    let total = add64 node.allocated size in
    let blocked : UserHashNode = record {
      uid = node.uid;
      allocated = node.allocated;
      is_blocked = true;
      is_being_updated = true;
    } in
    let over : UserHashNode = record {
      uid = node.uid;
      allocated = total;
      is_blocked = true;
      is_being_updated = true;
    } in
    let within : UserHashNode = record {
      uid = node.uid;
      allocated = total;
      is_blocked = false;
      is_being_updated = true;
    } in
    if node.is_blocked then (blocked, 1) else (if ltb limit total then (over, 1) else (within, 0))

-- The search through the bucket: none if the user has no node.
unfoldable pub in_front :
    UserHashNode → Option (List UserHashNode × ℕ) → Option (List UserHashNode × ℕ)
in_front node none = none
in_front node (some (nodes, answer)) = some (node ∷ nodes, answer)

unfoldable pub charge_user :
    (limit : ℕ) → List UserHashNode → (uid size : ℕ) → Option (List UserHashNode × ℕ)
charge_user limit [] uid size = none
charge_user limit (node ∷ nodes) uid size =
    let rest = charge_user limit nodes uid size in
    let (charged, answer) = charge limit node size in
    if node.uid == uid then some (charged ∷ nodes, answer) else in_front node rest

-- The first request of a user: `kmalloc` is whether the node is allocated.
unfoldable pub first_request :
    (kmalloc : Bool) → List UserHashNode → (uid size : ℕ) → List UserHashNode
first_request kmalloc users uid size =
    let node : UserHashNode = record {
      uid = uid;
      allocated = size;
      is_blocked = false;
      is_being_updated = true;
    } in
    if kmalloc then node ∷ users else users

unfoldable pub check_limit :
    (limit : ℕ) → (kmalloc : Bool) → List UserHashNode → (uid size : ℕ) → List UserHashNode × ℕ
check_limit limit kmalloc users uid size = elim (charge_user limit users uid size) [
  | some done ↦ done
  | none ↦ (first_request kmalloc users uid size, 0)
]

-- `users` is the bucket of the user.
unfoldable pub check_bytes_limit :
    (kmalloc : Bool) → List UserHashNode → (uid size : ℕ) → List UserHashNode × ℕ
check_bytes_limit kmalloc users uid size =
    check_limit (page_max_limit * 4096) kmalloc users uid size

unfoldable pub check_page_limit :
    (kmalloc : Bool) → List UserHashNode → (uid : ℕ) → List UserHashNode × ℕ
check_page_limit kmalloc users uid = check_limit page_max_limit kmalloc users uid 1
