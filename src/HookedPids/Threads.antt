-- ===== src/HookedPids/Threads.antt =====
-- Which threads exec_handler and handle_exit of libs/fprobes/fprober_proc_mngmt.c leave in the table.

use flow_scanner.Prelude.{
  ℕ, ◌+◌, ◌-◌, ◌≡◌, refl, sym, Bool, false, arith, ltb, ◌==◌, if◌then◌else◌, Bool-cases, inl, inr,
  ◌&&◌, ◌||◌, not, ==_iff, some, List, [], ◌∷◌,
}
use flow_scanner.HookedPids.{
  HookedPidNode, Hooks, has_pid, is_hooked, add_hooked, add_matches, exec_handler, remove_pid,
  unhook, handle_exit,
}

-- The nodes of a thread in its bucket.
unfoldable pub count_pid : (pid : ℕ) → List HookedPidNode → ℕ
count_pid pid [] = 0
count_pid pid (node ∷ nodes) =
    let rest = count_pid pid nodes in if node.pid == pid then rest + 1 else rest

unfoldable pub times_hooked : (bucket_of : ℕ → ℕ) → Hooks → (pid : ℕ) → ℕ
times_hooked bucket_of hooks pid = count_pid pid (hooks.hooked_pids (bucket_of pid))

-- The entries of `hooked_list` that a name contains.
unfoldable pub count_matches :
    {Name : Type 0} → (contains : Name → Name → Bool) → (executable_name : Name) → List Name → ℕ
count_matches contains executable_name [] = 0
count_matches contains executable_name (name ∷ names) =
    let rest = count_matches contains executable_name names in
    if contains executable_name name then rest + 1 else rest

has_pid-count_pid :
    (pid : ℕ) (nodes : List HookedPidNode) → has_pid pid nodes ≡ ltb 0 (count_pid pid nodes)
unfolding has_pid count_pid
has_pid-count_pid pid [] = refl
has_pid-count_pid pid (node ∷ nodes) = let ih = has_pid-count_pid pid nodes in ground arith

count_pid-remove_pid :
    (pid other : ℕ) (nodes : List HookedPidNode)
    → count_pid other (remove_pid pid nodes)
      ≡ (if other == pid then count_pid other nodes - 1 else count_pid other nodes)
unfolding remove_pid count_pid
count_pid-remove_pid pid other [] = ground arith
count_pid-remove_pid pid other (node ∷ nodes) =
    let ih = count_pid-remove_pid pid other nodes in ground arith

is_hooked-times_hooked :
    (bucket_of : ℕ → ℕ) (hooks : Hooks) (pid : ℕ)
    → is_hooked bucket_of hooks pid ≡ ltb 0 (times_hooked bucket_of hooks pid)
unfolding is_hooked times_hooked
is_hooked-times_hooked bucket_of hooks pid =
    has_pid-count_pid pid (hooks.hooked_pids (bucket_of pid))

module _ (bucket_of : ℕ → ℕ) (pid other : ℕ) where
  times_hooked-add_hooked :
      (hooks : Hooks)
      → times_hooked bucket_of (add_hooked bucket_of hooks pid) other ≡ (
          if other == pid
          then times_hooked bucket_of hooks other + 1
          else times_hooked bucket_of hooks other)
  unfolding times_hooked add_hooked count_pid
  times_hooked-add_hooked hooks = ground arith

  times_hooked-unhook :
      (hooks : Hooks)
      → times_hooked bucket_of (unhook bucket_of hooks pid) other ≡ (
          if other == pid
          then times_hooked bucket_of hooks other - 1
          else times_hooked bucket_of hooks other)
  unfolding times_hooked unhook
  times_hooked-unhook hooks =
      let step = count_pid-remove_pid pid other (hooks.hooked_pids (bucket_of other)) in
      ground arith

  times_hooked-handle_exit :
      (hooks : Hooks) (last_of_process is_kernel_thread : Bool)
      → times_hooked bucket_of
          (handle_exit bucket_of hooks pid last_of_process is_kernel_thread)
          other
        ≡ (if other == pid
            then times_hooked bucket_of hooks other - 1
            else times_hooked bucket_of hooks other)
  unfolding handle_exit unhook times_hooked
  times_hooked-handle_exit hooks last_of_process is_kernel_thread =
      let step = times_hooked-unhook hooks in
      let found = is_hooked-times_hooked bucket_of hooks pid in
      elim (Bool-cases (is_hooked bucket_of hooks pid)) [
        | inl e ↦ elim (Bool-cases (last_of_process && not is_kernel_thread)) [
          | inl l ↦ rw (e, l) step
          | inr l ↦ rw (e, l) step
        ]
        | inr e ↦
            let none_left : ltb 0 (times_hooked bucket_of hooks pid) ≡ false =
              rw e at (sym found) in
            rw e (elim (Bool-cases (other == pid)) [
              | inl same ↦ let eq = (==_iff other pid).0 same in rw (same, eq) (ground arith)
              | inr differs ↦ rw differs refl
            ])
      ]

module _ {Name : Type 0} (contains : Name → Name → Bool) (bucket_of : ℕ → ℕ) (pid other : ℕ)
    (executable_name : Name) where
  times_hooked-add_matches :
      (hooks : Hooks) (names : List Name)
      → times_hooked bucket_of
          (add_matches contains bucket_of hooks pid executable_name names).0
          other
        ≡ (if other == pid
            then times_hooked bucket_of hooks other + count_matches contains executable_name names
            else times_hooked bucket_of hooks other)
  unfolding add_matches count_matches
  times_hooked-add_matches hooks [] = ground arith
  times_hooked-add_matches hooks (name ∷ names) =
      elim (Bool-cases (contains executable_name name)) [
        | inl e ↦
            let next : Hooks = add_hooked bucket_of hooks pid in
            let ih = times_hooked-add_matches next names in
            let step = times_hooked-add_hooked bucket_of pid other hooks in
            rw (e, ih) (ground arith)
        | inr e ↦ rw e (times_hooked-add_matches hooks names)
      ]

  add_matches_found :
      (hooks : Hooks) (names : List Name)
      → (add_matches contains bucket_of hooks pid executable_name names).1
        ≡ ltb 0 (count_matches contains executable_name names)
  unfolding add_matches count_matches
  add_matches_found hooks [] = refl
  add_matches_found hooks (name ∷ names) = elim (Bool-cases (contains executable_name name)) [
    | inl e ↦ rw e (ground arith)
    | inr e ↦ rw e (add_matches_found hooks names)
  ]

  times_hooked-exec_handler :
      (hooked_list : List Name) (hooks : Hooks)
      → times_hooked bucket_of
          (exec_handler contains bucket_of hooked_list hooks pid (some executable_name))
          other
        ≡ (if other == pid
            then times_hooked bucket_of hooks other
              + count_matches contains executable_name hooked_list
            else times_hooked bucket_of hooks other)
  unfolding exec_handler add_matches times_hooked
  times_hooked-exec_handler hooked_list hooks =
      let added = add_matches contains bucket_of hooks pid executable_name hooked_list in
      let step = times_hooked-add_matches hooks hooked_list in
      elim (Bool-cases added.1) [ inl e ↦ rw e step | inr e ↦ rw e step ]

  -- Behind exec_handler a thread is hooked if it was hooked before, or if it is the thread that
  -- executes the program and the name contains an entry of the list.
  pub exec_handler-is_hooked :
      (hooked_list : List Name) (hooks : Hooks)
      → is_hooked bucket_of
          (exec_handler contains bucket_of hooked_list hooks pid (some executable_name))
          other
        ≡ (is_hooked bucket_of hooks other
            || (other == pid && ltb 0 (count_matches contains executable_name hooked_list)))
  exec_handler-is_hooked hooked_list hooks =
      let step = times_hooked-exec_handler hooked_list hooks in
      rw
        (
          is_hooked-times_hooked bucket_of hooks other,
          is_hooked-times_hooked bucket_of
              (exec_handler contains bucket_of hooked_list hooks pid (some executable_name)) other,
          step,
        )
        (ground arith)

  -- Behind exec_handler and then handle_exit of the same thread, that thread is hooked if and only
  -- if the nodes it had before and the entries of the list that the name contains are more than
  -- one together; each other thread is hooked if it was before.
  pub exec_handler-handle_exit :
      (hooked_list : List Name) (hooks : Hooks) (last_of_process is_kernel_thread : Bool)
      → is_hooked bucket_of
          (handle_exit bucket_of
            (exec_handler contains bucket_of hooked_list hooks pid (some executable_name))
            pid
            last_of_process
            is_kernel_thread)
          other
        ≡ (if other == pid
            then ltb 1 (
                times_hooked bucket_of hooks other
                + count_matches contains executable_name hooked_list)
            else is_hooked bucket_of hooks other)
  exec_handler-handle_exit hooked_list hooks last_of_process is_kernel_thread =
      let executed = exec_handler contains bucket_of hooked_list hooks pid (some executable_name) in
      let step = times_hooked-exec_handler hooked_list hooks in
      rw
        (
          is_hooked-times_hooked bucket_of hooks other,
          is_hooked-times_hooked bucket_of
              (handle_exit bucket_of executed pid last_of_process is_kernel_thread) other,
          times_hooked-handle_exit bucket_of pid other executed last_of_process is_kernel_thread,
          step,
        )
        (ground arith)
