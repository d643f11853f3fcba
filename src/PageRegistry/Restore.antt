-- ===== src/PageRegistry/Restore.antt =====
-- A master copy that restore_page frees while another process still has it.
use flow_scanner.Prelude.{
  ℕ, ◌<◌, ◌≡◌, ◌≢◌, refl, ◌∙◌, Bool, true, false, arith, ◌==◌, Bool-cases, inl, inr, ==_iff, ne→==,
  Option, some, none, List, [], ◌∷◌, some_eq,
}
use flow_scanner.PageRegistry.{
  PageHashNode, Registry, shared_bucket, page_mask, first_node, is_page_of, is_page, info_of,
  find_current_page, free_info,
}
use flow_scanner.PageRegistry.Removal.{
  remove_first, hash_del, page_found, restore_page, is_shared_info,
}

is_page_of-other :
    (pid other page : ℕ) (node : PageHashNode)
    → (pid == other) ≡ false
    → is_page_of pid page node ≡ true
    → is_page_of other page node ≡ false
unfolding is_page_of
is_page_of-other pid other page node differ h = ground arith

remove_first-other :
    (pid other page : ℕ) (nodes : List PageHashNode)
    → (pid == other) ≡ false
    → first_node (is_page_of other page) (remove_first (is_page_of pid page) nodes)
      ≡ first_node (is_page_of other page) nodes
unfolding first_node remove_first
remove_first-other pid other page [] differ = refl
remove_first-other pid other page (node ∷ nodes) differ =
    let rest = remove_first-other pid other page nodes differ in
    elim (Bool-cases (is_page_of pid page node)) [
      | inl e ↦ rw (e, is_page_of-other pid other page node differ e) refl
      | inr e ↦ rw (e, first_node, rest) refl
    ]

node_of-info :
    (m : Option PageHashNode) {info : ℕ}
    → info_of m ≡ some info
    → (node : PageHashNode) × (m ≡ some node) × (node.info ≡ info)
unfolding info_of
node_of-info none h = cc
node_of-info (some node) h = (node, refl, some_eq h)

module _ (bucket_of : ℕ → ℕ) (r : Registry) (pid other address : ℕ)
    (differ : (pid == other) ≡ false) (high : bucket_of other < 1024) where
  find-hash_del :
      find_current_page bucket_of
        (hash_del r (bucket_of pid) (is_page_of pid (page_mask address)))
        other
        address
      ≡ find_current_page bucket_of r other address
  unfolding find_current_page hash_del
  find-hash_del = elim (Bool-cases (bucket_of other == bucket_of pid)) [
    | inl e ↦
        rw
          (
            e,
            remove_first-other pid other (page_mask address) (r.page_hash_table (bucket_of other))
                differ,
          )
          refl
    | inr e ↦ rw e refl
  ]

find-hash_del-shared :
    (bucket_of : ℕ → ℕ) (r : Registry) (other address : ℕ) (test : PageHashNode → Bool)
    → bucket_of other < 1024
    → find_current_page bucket_of (hash_del r shared_bucket test) other address
      ≡ find_current_page bucket_of r other address
unfolding find_current_page hash_del
find-hash_del-shared bucket_of r other address test high =
    rw (ne→== (bucket_of other) 1024 (λ e. absurd (omega (arith, e)))) refl

find-free_info :
    (bucket_of : ℕ → ℕ) (r : Registry) (info other address : ℕ)
    → find_current_page bucket_of (free_info r info) other address
      ≡ find_current_page bucket_of r other address
unfolding find_current_page free_info
find-free_info bucket_of r info other address = refl

freed : (r : Registry) (info : ℕ) → (free_info r info).page_infos info ≡ none
unfolding free_info
freed r info = rw ((==_iff info info).1 refl) refl

found_node :
    (bucket_of : ℕ → ℕ) (r : Registry) (pid address : ℕ) {info : ℕ}
    → find_current_page bucket_of r pid address ≡ some info
    → (node : PageHashNode) × (first_node
          (is_page_of pid (page_mask address))
          (r.page_hash_table (bucket_of pid))
        ≡ some node)
      × (node.info ≡ info)
unfolding find_current_page
found_node bucket_of r pid address h =
    node_of-info
      (first_node (is_page_of pid (page_mask address)) (r.page_hash_table (bucket_of pid))) h

module _ (bucket_of : ℕ → ℕ) (r : Registry) (pid other address info : ℕ) where
  -- If two processes find one master copy for a page, the bucket of the second is not the one of
  -- the shared pages and the copy to the page succeeds, restore_page of the first frees the master
  -- copy, and find_current_page of the second still answers its address.
  pub restore_page_dangles :
      pid ≢ other
      → bucket_of other < 1024
      → find_current_page bucket_of r pid address ≡ some info
      → find_current_page bucket_of r other address ≡ some info
      → ((restore_page bucket_of r true pid address).1 ≡ page_found)
        × (find_current_page bucket_of (restore_page bucket_of r true pid address).0 other address
            ≡ some info)
        × ((restore_page bucket_of r true pid address).0.page_infos info ≡ none)
  unfolding restore_page
  restore_page_dangles differ high mine its =
      let own = is_page_of pid (page_mask address) in
      let removed : Registry = hash_del r (bucket_of pid) own in
      let apart = ne→== pid other differ in
      let kept = find-hash_del bucket_of r pid other address apart high in
      let (node, e, same) = found_node bucket_of r pid address mine in
      elim (Bool-cases (is_shared_info (r.page_infos node.info))) [
        | inl s ↦
            let unshared : Registry =
              hash_del removed shared_bucket (is_page (page_mask address)) in
            rw (e, restore_page, s, same)
              (
                refl,
                find-free_info bucket_of unshared info other address
                    ∙ find-hash_del-shared bucket_of removed other address
                        (is_page (page_mask address)) high
                    ∙ kept
                    ∙ its,
                freed unshared info,
              )
        | inr s ↦
            rw (e, restore_page, s, same)
              (
                refl,
                find-free_info bucket_of removed info other address ∙ kept ∙ its,
                freed removed info,
              )
      ]
