-- ===== src/PageRegistry/Shared.antt =====
-- The master copy of a shared page, found by another process.
use flow_scanner.Prelude.{
  ℕ, ◌<◌, ◌≡◌, refl, true, false, arith, ◌==◌, if◌then◌else◌, ==_iff, ne→==, some,
}
use flow_scanner.PageRegistry.{
  Registry, shared_bucket, page_mask, is_altered, hash_add, new_info, add_node,
  register_shared_page, first_node, is_page, find_current_page, add_reference,
  creating_shared_page_node, page_shared_not_registered_yet,
}
use flow_scanner.PageRegistry.Find.{find-add_node}

created_found :
    (bucket_of : ℕ → ℕ) (r : Registry) (pid info address : ℕ)
    → find_current_page bucket_of
        (creating_shared_page_node bucket_of r true pid info (page_mask address)).0
        pid
        address
      ≡ some info
unfolding creating_shared_page_node
created_found bucket_of r pid info address =
    let referenced : Registry = record {
      page_hash_table = r.page_hash_table;
      page_infos = λ at. if at == info then add_reference (r.page_infos at) else r.page_infos at;
      next = r.next;
      tot_num_of_pages = r.tot_num_of_pages;
    } in
    let same : (pid == pid) ≡ true = (==_iff pid pid).1 refl in
    let twice : page_mask (page_mask address) ≡ page_mask address = omega arith in
    let page : (page_mask (page_mask address) == page_mask address) ≡ true =
      (==_iff (page_mask (page_mask address)) (page_mask address)).1 twice in
    rw (same, page) at
      (find-add_node bucket_of referenced pid (page_mask (page_mask address)) info pid address)

module _ (bucket_of : ℕ → ℕ) (r : Registry) (uninitialised pid start : ℕ) (bytes : ℕ → ℕ) where
  -- What register_shared_page leaves.
  abbrev pub shared_state : Registry
  shared_state =
      add_node
        (add_node (new_info r record { bytes = bytes; ref_count = 1; is_shared = true })
          shared_bucket record { pid = pid; address = page_mask start; info = r.next })
        (bucket_of pid) record { pid = pid; address = uninitialised; info = r.next }

  shared_added :
      is_altered bytes ≡ false
      → register_shared_page bucket_of r true true true uninitialised pid (some bytes) start
        ≡ (shared_state, some r.next)
  unfolding register_shared_page
  shared_added intact = rw intact refl

  shared_first :
      (page : ℕ)
      → bucket_of pid < 1024
      → page_mask start ≡ page
      → first_node (is_page page) (shared_state.page_hash_table shared_bucket)
        ≡ some record { pid = pid; address = page_mask start; info = r.next }
  unfolding add_node hash_add first_node is_page
  shared_first page below same =
      let apart : (1024 == bucket_of pid) ≡ false =
        ne→== 1024 (bucket_of pid) (λ e. absurd (omega (arith, e))) in
      let here : (page_mask start == page) ≡ true = (==_iff (page_mask start) page).1 same in
      rw (apart, here) refl

  shared_found :
      (other address : ℕ)
      → bucket_of pid < 1024
      → page_mask start ≡ page_mask address
      → page_shared_not_registered_yet bucket_of shared_state true other address
        ≡ creating_shared_page_node bucket_of shared_state true other r.next (page_mask address)
  unfolding page_shared_not_registered_yet
  shared_found other address below same =
      rw (shared_first (page_mask address) below same, page_shared_not_registered_yet) refl

  shared_answer :
      (other address : ℕ)
      → (creating_shared_page_node bucket_of shared_state true other r.next address).1 ≡ some r.next
  unfolding creating_shared_page_node
  shared_answer other address = refl

  shared_referenced :
      (other address : ℕ)
      → (creating_shared_page_node bucket_of shared_state true other r.next address).0.page_infos
          r.next
        ≡ some record { bytes = bytes; ref_count = 2; is_shared = true }
  unfolding creating_shared_page_node add_node new_info add_reference
  shared_referenced other address = rw ((==_iff r.next r.next).1 refl) refl

  -- If the page is not altered, the allocations succeed and the bucket of the first process is not
  -- the one of the shared pages, another process finds the master copy that register_shared_page
  -- made: page_shared_not_registered_yet answers it for each address of the page, counts a second
  -- reference, and find_current_page finds it from then on.
  pub register_shared_page-page_shared_not_registered_yet :
      (other address : ℕ)
      → is_altered bytes ≡ false
      → bucket_of pid < 1024
      → page_mask start ≡ page_mask address
      → ((page_shared_not_registered_yet bucket_of
            (register_shared_page bucket_of r true true true uninitialised pid (some bytes) start).0
            true
            other
            address).1
          ≡ some r.next)
        × (find_current_page bucket_of
              (page_shared_not_registered_yet bucket_of
                (register_shared_page bucket_of r true true true uninitialised pid
                  (some bytes)
                  start).0
                true
                other
                address).0
              other
              address
            ≡ some r.next)
        × ((page_shared_not_registered_yet bucket_of
                (register_shared_page bucket_of r true true true uninitialised pid
                  (some bytes)
                  start).0
                true
                other
                address).0.page_infos
              r.next
            ≡ some record { bytes = bytes; ref_count = 2; is_shared = true })
  register_shared_page-page_shared_not_registered_yet other address intact below same =
      rw (shared_added intact, shared_found other address below same)
        (
          shared_answer other (page_mask address),
          created_found bucket_of shared_state other r.next address,
          shared_referenced other (page_mask address),
        )
