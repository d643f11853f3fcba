-- ===== src/Checks/Registry.antt =====
-- The list of check functions of libs/kernel_checks.c. Its lock and the reference counts are left out.
use flow_scanner.Prelude.{
  ℕ, Bool, true, ltb, ◌==◌, if◌then◌else◌, add64, sub64, List, [], ◌∷◌, Option, none, some,
}

-- struct check_function_node; a check function is its address.
pub record CheckFunctionNode : Type 0 where
  pub check : ℕ
  pub active : Bool

-- `kmalloc` is taken to succeed: the source does not test it. `list_add` adds in front.
unfoldable pub add_check_function : ℕ → List CheckFunctionNode → List CheckFunctionNode
add_check_function check nodes = record { check = check; active = true } ∷ nodes

abbrev pub keep :
    CheckFunctionNode → Option (List CheckFunctionNode) → Option (List CheckFunctionNode)
keep node none = none
keep node (some nodes) = some (node ∷ nodes)

-- The walk stops at the node of `check`, or at the last node, and `list_del` takes that one out.
-- On the empty list `curr` is not initialised: `none`.
unfoldable pub remove_check_function : ℕ → List CheckFunctionNode → Option (List CheckFunctionNode)
remove_check_function check [] = none
remove_check_function check (node ∷ []) = some []
remove_check_function check (node ∷ other ∷ nodes) =
    let rest = remove_check_function check (other ∷ nodes) in
    if node.check == check then some (other ∷ nodes) else keep node rest

-- `total_run` and `total_negative`.
pub record Totals : Type 0 where
  pub run : ℕ
  pub negative : ℕ

-- The loop over the list. `result` is what each function returns for the zone at hand, as it is
-- added to an `unsigned long`.
unfoldable pub count_results : (ℕ → ℕ) → List CheckFunctionNode → Totals → Totals
count_results result [] t = t
count_results result (node ∷ nodes) t = count_results result nodes (
    if node.active
    then record { run = add64 t.run 1; negative = add64 t.negative (result node.check) }
    else t)

-- DCE_CHECK_MODE
pub data CheckMode : Type 0 where
  at_least_one majority all_or_nothing : CheckMode

unfoldable pub decide_check : CheckMode → Totals → ℕ
decide_check at_least_one t = if t.negative == t.run then 1 else 0
decide_check majority t = if ltb t.negative (sub64 t.run t.negative) then 0 else 1
decide_check all_or_nothing t = if t.negative == t.run then 0 else 1

unfoldable pub run_kernel_check : CheckMode → (ℕ → ℕ) → List CheckFunctionNode → ℕ
run_kernel_check mode result nodes =
    decide_check mode (count_results result nodes (record { run = 0; negative = 0 }))
