-- ===== src/PageRegistry/Removal.antt =====
-- restore_page and restore_sh_page of libs/zone.c, which take master copies out of the table.
use flow_scanner.Prelude.{ℕ, Bool, false, ◌==◌, if◌then◌else◌, Option, some, none, List, [], ◌∷◌}
use flow_scanner.PageRegistry.{
  PageInfo, PageHashNode, Registry, shared_bucket, page_mask, first_node, is_page_of, is_page,
  free_info,
}

-- `hash_del_atomic` of the first node of a chain that passes a test.
unfoldable pub remove_first : (PageHashNode → Bool) → List PageHashNode → List PageHashNode
remove_first test [] = []
remove_first test (node ∷ nodes) =
    let rest = remove_first test nodes in if test node then nodes else node ∷ rest

unfoldable pub hash_del : Registry → (bucket : ℕ) → (PageHashNode → Bool) → Registry
hash_del r bucket test = record {
  page_hash_table =
      λ b. if b == bucket then remove_first test (r.page_hash_table b) else r.page_hash_table b;
  page_infos = r.page_infos;
  next = r.next;
  tot_num_of_pages = r.tot_num_of_pages;
}

pub data RestoreResult : Type 0 where
  page_not_found : RestoreResult
  page_found : RestoreResult
  write_error : RestoreResult

unfoldable pub is_shared_info : Option PageInfo → Bool
is_shared_info none = false
is_shared_info (some info) = info.is_shared

-- `written` is whether the copy to the page, by copy_to_user or by the writer of pages, succeeds.
unfoldable pub restore_page :
    (bucket_of : ℕ → ℕ) → Registry → (written : Bool) → (pid address : ℕ) → Registry × RestoreResult
restore_page bucket_of r written pid address =
    let own = is_page_of pid (page_mask address) in
    elim (first_node own (r.page_hash_table (bucket_of pid))) [
      | none ↦ (r, page_not_found)
      | some node ↦
          let removed = hash_del r (bucket_of pid) own in
          let unshared =
            if is_shared_info (r.page_infos node.info)
            then hash_del removed shared_bucket (is_page (page_mask address))
            else removed in
          if written then (free_info unshared node.info, page_found) else (r, write_error)
    ]

unfoldable pub restore_sh_page :
    Registry → (written : Bool) → (address : ℕ) → Registry × RestoreResult
restore_sh_page r written address =
    let test = is_page (page_mask address) in
    elim (first_node test (r.page_hash_table shared_bucket)) [
      | none ↦ (r, page_not_found)
      | some node ↦
          if written
          then (free_info (hash_del r shared_bucket test) node.info, page_found)
          else (r, write_error)
    ]
