-- ===== src/Checks/Modes.antt =====
-- What the three modes of `run_kernel_check` decide, and the list of check functions.
use flow_scanner.Prelude.{
  ℕ, ◌+◌, ◌^◌, ◌≤◌, ◌<◌, ◌≡◌, refl, Bool, false, ◌&&◌, arith, ltb, ◌==◌, if◌then◌else◌, add64,
  sub64, List, [], ◌∷◌, length, some, ◌||◌, ◌++◌, ==_iff, true,
}
use flow_scanner.Checks.Registry.{
  CheckFunctionNode, add_check_function, remove_check_function, Totals, count_results, at_least_one,
  majority, all_or_nothing, decide_check, run_kernel_check,
}

-- How many active functions answer 1, and how many answer 0.
abbrev pub accepting : (ℕ → ℕ) → List CheckFunctionNode → ℕ
accepting result [] = 0
accepting result (node ∷ nodes) =
    (if node.active && result node.check == 1 then 1 else 0) + accepting result nodes

abbrev pub rejecting : (ℕ → ℕ) → List CheckFunctionNode → ℕ
rejecting result [] = 0
rejecting result (node ∷ nodes) =
    (if node.active && result node.check == 0 then 1 else 0) + rejecting result nodes

record Counted (result : ℕ → ℕ) (nodes : List CheckFunctionNode) (t u : Totals) : Type 0 where
  run : u.run ≡ t.run + accepting result nodes + rejecting result nodes
  negative : u.negative ≡ t.negative + accepting result nodes

-- Every function answers 0 or 1.
abbrev pub Answers : (ℕ → ℕ) → Type 0
Answers result = (check : ℕ) → result check < 2

abbrev with_node : (ℕ → ℕ) → CheckFunctionNode → Totals → Totals
with_node result node t =
    if node.active
    then record { run = add64 t.run 1; negative = add64 t.negative (result node.check) }
    else t

counted_node :
    (result : ℕ → ℕ) (node : CheckFunctionNode) (t : Totals)
    → result node.check < 2
    → t.negative ≤ t.run
    → t.run + 1 < 2 ^ 64
    → ((with_node result node t).run
        ≡ t.run
          + (if node.active && result node.check == 1 then 1 else 0)
          + (if node.active && result node.check == 0 then 1 else 0))
      × ((with_node result node t).negative
          ≡ t.negative + (if node.active && result node.check == 1 then 1 else 0))
counted_node result node t a h k = ground arith

counted :
    (result : ℕ → ℕ) (nodes : List CheckFunctionNode) (t : Totals)
    → Answers result
    → t.negative ≤ t.run
    → t.run + length nodes < 2 ^ 64
    → Counted result nodes t (count_results result nodes t)
unfolding count_results
counted result [] t a h k = record { run = omega arith; negative = omega arith }
counted result (node ∷ nodes) t a h k =
    let (x, y) = counted_node result node t (a node.check) h (omega arith) in
    let one : (if node.active && result node.check == 1 then 1 else 0)
          + (if node.active && result node.check == 0 then 1 else 0)
        ≤ 1 =
      ground arith in
    let c =
      counted result nodes (with_node result node t) a (omega (arith, x, y))
        (omega (arith, x, one)) in
    record { run = omega (arith, x, c.run); negative = omega (arith, y, c.negative) }

abbrev zeros : Totals
zeros = record { run = 0; negative = 0 }

counted-le :
    (result : ℕ → ℕ) (nodes : List CheckFunctionNode)
    → accepting result nodes + rejecting result nodes ≤ length nodes
counted-le result [] = omega arith
counted-le result (node ∷ nodes) = ground (arith, counted-le result nodes)

all_accept : (a b : ℕ) → (a == a + b) ≡ (b == 0)
all_accept a b = ground arith

sub64-add : (a b : ℕ) → a + b < 2 ^ 64 → sub64 (a + b) a ≡ b
sub64-add a b h = omega arith

-- If every check function answers 0 (found something) or 1, and there are fewer than 2 ^ 64 of them, `run_kernel_check` answers 0 in the mode
-- AT_LEAST_ONE exactly if an active function answers 0, in the mode MAJORITY exactly if more of them
-- answer 0 than 1, and in the mode ALL OR NOTHING exactly if none of them answers 0.
pub run_kernel_check_modes :
    (result : ℕ → ℕ) (nodes : List CheckFunctionNode)
    → Answers result
    → length nodes < 2 ^ 64
    → (run_kernel_check at_least_one result nodes ≡ (if rejecting result nodes == 0 then 1 else 0))
      × (run_kernel_check majority result nodes
          ≡ (if ltb (accepting result nodes) (rejecting result nodes) then 0 else 1))
      × (run_kernel_check all_or_nothing result nodes
          ≡ (if rejecting result nodes == 0 then 0 else 1))
unfolding run_kernel_check decide_check
run_kernel_check_modes result nodes a h =
    let c = counted result nodes zeros a (omega arith) (omega arith) in
    let n : (count_results result nodes zeros).negative ≡ accepting result nodes =
      omega (arith, c.negative) in
    let r : (count_results result nodes zeros).run
        ≡ accepting result nodes + rejecting result nodes =
      omega (arith, c.run) in
    let d : sub64 (accepting result nodes + rejecting result nodes) (accepting result nodes)
        ≡ rejecting result nodes =
      sub64-add (accepting result nodes) (rejecting result nodes)
        (omega (arith, counted-le result nodes)) in
    rw (n, r, all_accept (accepting result nodes) (rejecting result nodes), d) (refl, refl, refl)

abbrev pub registered : ℕ → List CheckFunctionNode → Bool
registered check [] = false
registered check (node ∷ nodes) = node.check == check || registered check nodes

remove_first :
    (check : ℕ) (node : CheckFunctionNode) (before after : List CheckFunctionNode)
    → (node.check == check) ≡ true
    → registered check before ≡ false
    → remove_check_function check (before ++ node ∷ after) ≡ some (before ++ after)
unfolding remove_check_function
remove_first check node [] [] e h = refl
remove_first check node [] (x ∷ after) e h = rw e refl
remove_first check node (x ∷ []) after e h = ground (arith, remove_first check node [] after e refl)
remove_first check node (x ∷ y ∷ before) after e h =
    ground (arith, remove_first check node (y ∷ before) after e)

-- Removing a check function takes out its first node and leaves the nodes before and behind it; so
-- removing the function that was added last gives the list back.
pub remove_check_function-registered :
    (check : ℕ) (before after : List CheckFunctionNode) (node : CheckFunctionNode)
    → registered check before ≡ false
    → node.check ≡ check
    → (remove_check_function check (before ++ node ∷ after) ≡ some (before ++ after))
      × (remove_check_function check (add_check_function check after) ≡ some after)
unfolding add_check_function
remove_check_function-registered check before after node h e = (
  remove_first check node before after ((==_iff node.check check).1 e) h,
  remove_first check (record { check = check; active = true }) [] after
      ((==_iff check check).1 refl) refl,
)

-- If no node in front of the last one is of the check function, removing it takes the last node out,
-- of whichever function that is.
pub remove_check_function-absent :
    (check : ℕ) (nodes : List CheckFunctionNode) (last : CheckFunctionNode)
    → registered check nodes ≡ false
    → remove_check_function check (nodes ++ last ∷ []) ≡ some nodes
unfolding remove_check_function
remove_check_function-absent check [] last h = refl
remove_check_function-absent check (node ∷ []) last h = ground arith
remove_check_function-absent check (node ∷ other ∷ nodes) last h =
    ground (arith, remove_check_function-absent check (other ∷ nodes) last)
