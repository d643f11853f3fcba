-- ===== src/HookedPids.antt =====
-- The table of the threads that are watched: `hooked_pids` of mod.c, exec_handler, which enters a
-- thread when it executes a program of `hooked_list`, and handle_exit, which takes it out
-- (libs/fprobes/fprober_proc_mngmt.c). Each handler of libs/fprobes starts with the search of
-- `is_hooked`.
use flow_scanner.Prelude.{
  ℕ, zero, suc, ◌+◌, ◌-◌, ◌*◌, ◌/◌, ◌%◌, ◌^◌, ◌≤◌, ◌<◌, ◌≡◌, ◌≢◌, ◌↔◌, refl, sym, ap, ◌∙◌, Bool,
  true, false, arith, tests, ltb, leb, ◌==◌, ◌⊎◌, if◌then◌else◌, Bool-cases, inl, inr, ◌&&◌, ◌||◌,
  not, ==_iff, Option, some, none, List, [], ◌∷◌, ◌++◌, some_eq, Option-cases,
}
pub mod Threads

pub record HookedPidNode : Type 0 where
  pub pid : ℕ
  pub open_start : ℕ
  pub open_end : ℕ

-- The table by bucket, and the flags `started` and `finished`.
pub record Hooks : Type 0 where
  pub hooked_pids : ℕ → List HookedPidNode
  pub started : Bool
  pub finished : Bool

unfoldable pub has_pid : (pid : ℕ) → List HookedPidNode → Bool
has_pid pid [] = false
has_pid pid (node ∷ nodes) = let rest = has_pid pid nodes in if node.pid == pid then true else rest

unfoldable pub is_hooked : (bucket_of : ℕ → ℕ) → Hooks → (pid : ℕ) → Bool
is_hooked bucket_of hooks pid = has_pid pid (hooks.hooked_pids (bucket_of pid))

-- `hash_add`: the node goes to the front of its bucket.
unfoldable pub add_hooked : (bucket_of : ℕ → ℕ) → Hooks → (pid : ℕ) → Hooks
add_hooked bucket_of hooks pid =
    let added : HookedPidNode = record { pid = pid; open_start = 0; open_end = 0 } in
    record {
      hooked_pids =
          λ b. if b == bucket_of pid then added ∷ hooks.hooked_pids b else hooks.hooked_pids b;
      started = hooks.started;
      finished = hooks.finished;
    }

-- The loop over `hooked_list`. `contains` is the kernel's strstr.
unfoldable pub add_matches :
    {Name : Type 0}
    → (contains : Name → Name → Bool) → (bucket_of : ℕ → ℕ) → Hooks
    → (pid : ℕ) → (executable_name : Name) → (hooked_list : List Name) → Hooks × Bool
add_matches contains bucket_of hooks pid executable_name [] = (hooks, false)
add_matches contains bucket_of hooks pid executable_name (name ∷ names) =
    let matches = contains executable_name name in
    let next = if matches then add_hooked bucket_of hooks pid else hooks in
    let rest = add_matches contains bucket_of next pid executable_name names in
    (rest.0, matches || rest.1)

unfoldable pub exec_handler :
    {Name : Type 0}
    → (contains : Name → Name → Bool) → (bucket_of : ℕ → ℕ) → (hooked_list : List Name) → Hooks
    → (pid : ℕ) → (filename : Option Name) → Hooks
exec_handler contains bucket_of hooked_list hooks pid none = hooks
exec_handler contains bucket_of hooked_list hooks pid (some executable_name) =
    let added = add_matches contains bucket_of hooks pid executable_name hooked_list in
    if added.1
    then record { hooked_pids = added.0.hooked_pids; started = true; finished = false }
    else added.0

-- `hash_del` of the node that the search stops at.
unfoldable pub remove_pid : (pid : ℕ) → List HookedPidNode → List HookedPidNode
remove_pid pid [] = []
remove_pid pid (node ∷ nodes) =
    let rest = remove_pid pid nodes in if node.pid == pid then nodes else node ∷ rest

unfoldable pub unhook : (bucket_of : ℕ → ℕ) → Hooks → (pid : ℕ) → Hooks
unhook bucket_of hooks pid = record {
  hooked_pids =
      λ b. if b == bucket_of pid then remove_pid pid (hooks.hooked_pids b) else hooks.hooked_pids b;
  started = hooks.started;
  finished = hooks.finished;
}

-- `last_of_process`: the thread has an exit state and its thread group is empty.
unfoldable pub handle_exit :
    (bucket_of : ℕ → ℕ) → Hooks → (pid : ℕ) → (last_of_process is_kernel_thread : Bool) → Hooks
handle_exit bucket_of hooks pid last_of_process is_kernel_thread =
    let removed = unhook bucket_of hooks pid in
    if is_hooked bucket_of hooks pid
    then (if last_of_process && not is_kernel_thread
        then record {
          hooked_pids = removed.hooked_pids;
          started = removed.started;
          finished = true;
        }
        else removed)
    else hooks
