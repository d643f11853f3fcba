-- ===== src/PageRegistry.antt =====
-- The table of the pages that have been fetched and their master copies: register_page,
-- register_private_page, register_shared_page and page_shared_not_registered_yet of
-- libs/fprobes/fprobes_helper.c, and find_current_page of libs/utils.c.
pub mod Removal
pub mod Find
pub mod Shared
pub mod Restore
use flow_scanner.Prelude.{
  ℕ, zero, suc, ◌+◌, ◌-◌, ◌*◌, ◌/◌, ◌%◌, ◌^◌, ◌≤◌, ◌<◌, ◌≡◌, ◌≢◌, ◌↔◌, refl, sym, ap, ◌∙◌, Bool,
  true, false, arith, tests, ltb, leb, ◌==◌, ◌⊎◌, if◌then◌else◌, Bool-cases, inl, inr, ◌&&◌, ◌||◌,
  not, ==_iff, ne→==, lt→ltb, le→leb, lt→leb, all_below, Option, some, none, List, [], ◌∷◌, ◌++◌,
  some_eq, Option-cases,
}

pub record PageInfo : Type 0 where
  pub bytes : ℕ → ℕ
  pub ref_count : ℕ
  pub is_shared : Bool

-- `info` is the address of the page_info.
pub record PageHashNode : Type 0 where
  pub pid : ℕ
  pub address : ℕ
  pub info : ℕ

-- The hash table by bucket, the page_infos that are allocated, the next address that is free, and
-- tot_num_of_pages.
pub record Registry : Type 0 where
  pub page_hash_table : ℕ → List PageHashNode
  pub page_infos : ℕ → Option PageInfo
  pub next : ℕ
  pub tot_num_of_pages : ℕ

-- The bucket of the shared pages, `get_shared_page_bucket(PAGE_BUCKET_BITS)`.
abbrev pub shared_bucket : ℕ
shared_bucket = 1024

abbrev pub page_mask : ℕ → ℕ
page_mask address = address / 4096 * 4096

-- The nine bytes from an offset on are all 0E.
unfoldable pub is_altered_at : (ℕ → ℕ) → ℕ → Bool
is_altered_at bytes from = all_below 9 (λ i. bytes (from + i) == 14)

unfoldable pub is_altered : (ℕ → ℕ) → Bool
is_altered bytes = is_altered_at bytes 0 || is_altered_at bytes (4096 - 8 - 1)

-- `hash_add_atomic`: the new node is the first of its bucket.
unfoldable pub hash_add : (ℕ → List PageHashNode) → ℕ → PageHashNode → ℕ → List PageHashNode
hash_add table bucket node b = if b == bucket then node ∷ table b else table b

-- A page_info at the next free address.
unfoldable pub new_info : Registry → PageInfo → Registry
new_info r info = record {
  page_hash_table = r.page_hash_table;
  page_infos = λ at. if at == r.next then some info else r.page_infos at;
  next = r.next + 1;
  tot_num_of_pages = r.tot_num_of_pages + 1;
}

unfoldable pub add_node : Registry → (bucket : ℕ) → PageHashNode → Registry
add_node r bucket node = record {
  page_hash_table = hash_add r.page_hash_table bucket node;
  page_infos = r.page_infos;
  next = r.next;
  tot_num_of_pages = r.tot_num_of_pages;
}

-- What `kmalloc` answers to the requests of a call, in their order. A page_info that is freed on an
-- error path was never reachable, so the state is as before.
unfoldable pub register_at :
    (address bucket pid : ℕ)
    → Registry
    → (info_allocated node_allocated : Bool) → Option (ℕ → ℕ)
    → Registry × Option ℕ
register_at address bucket pid r info_allocated node_allocated none = (r, none)
register_at address bucket pid r info_allocated node_allocated (some bytes) =
    let info : PageInfo = record { bytes = bytes; ref_count = 1; is_shared = false } in
    let node : PageHashNode = record { pid = pid; address = address; info = r.next } in
    if is_altered bytes || not (info_allocated && node_allocated)
    then (r, none)
    else (add_node (new_info r info) bucket node, some r.next)

-- `bucket_of` is hash_min, the bucket of a pid.
unfoldable pub register_page :
    (bucket_of : ℕ → ℕ)
    → Registry
    → (info_allocated node_allocated : Bool) → (pid : ℕ) → Option (ℕ → ℕ)
    → (start : ℕ) → Registry × Option ℕ
register_page bucket_of r info_allocated node_allocated pid bytes start =
    register_at start (bucket_of pid) pid r info_allocated node_allocated bytes

unfoldable pub register_private_page :
    (bucket_of : ℕ → ℕ)
    → Registry
    → (info_allocated node_allocated : Bool) → (pid : ℕ) → Option (ℕ → ℕ)
    → (start : ℕ) → Registry × Option ℕ
register_private_page bucket_of r info_allocated node_allocated pid bytes start =
    register_at (page_mask start) (bucket_of pid) pid r info_allocated node_allocated bytes

-- `uninitialised` is what the memory of the first new node holds in the field `address`, which the
-- function does not set.
unfoldable pub register_shared_page :
    (bucket_of : ℕ → ℕ)
    → Registry
    → (info_allocated node_allocated shared_allocated : Bool) → (uninitialised pid : ℕ)
    → Option (ℕ → ℕ)
    → (start : ℕ) → Registry × Option ℕ
register_shared_page bucket_of r info_allocated node_allocated shared_allocated uninitialised pid
      none start =
    (r, none)
register_shared_page bucket_of r info_allocated node_allocated shared_allocated uninitialised pid
      (some bytes) start =
    let info : PageInfo = record { bytes = bytes; ref_count = 1; is_shared = true } in
    let own : PageHashNode = record { pid = pid; address = uninitialised; info = r.next } in
    let shared : PageHashNode = record { pid = pid; address = page_mask start; info = r.next } in
    if is_altered bytes || not (info_allocated && node_allocated && shared_allocated)
    then (r, none)
    else (
      add_node (add_node (new_info r info) shared_bucket shared) (bucket_of pid) own,
      some r.next,
    )

-- The first node of a chain that passes a test.
unfoldable pub first_node : (PageHashNode → Bool) → List PageHashNode → Option PageHashNode
first_node test [] = none
first_node test (node ∷ nodes) =
    let rest = first_node test nodes in if test node then some node else rest

unfoldable pub is_page_of : (pid page : ℕ) → PageHashNode → Bool
is_page_of pid page node = node.pid == pid && node.address == page

unfoldable pub is_page : (page : ℕ) → PageHashNode → Bool
is_page page node = node.address == page

unfoldable pub info_of : Option PageHashNode → Option ℕ
info_of none = none
info_of (some node) = some node.info

unfoldable pub find_current_page : (bucket_of : ℕ → ℕ) → Registry → (pid start_addr : ℕ) → Option ℕ
find_current_page bucket_of r pid start_addr =
    info_of (first_node (is_page_of pid (page_mask start_addr)) (r.page_hash_table (bucket_of pid)))

unfoldable pub free_info : Registry → ℕ → Registry
free_info r info = record {
  page_hash_table = r.page_hash_table;
  page_infos = λ at. if at == info then none else r.page_infos at;
  next = r.next;
  tot_num_of_pages = r.tot_num_of_pages;
}

unfoldable pub add_reference : Option PageInfo → Option PageInfo
add_reference none = none
add_reference (some info) =
    some record { bytes = info.bytes; ref_count = info.ref_count + 1; is_shared = info.is_shared }

unfoldable pub creating_shared_page_node :
    (bucket_of : ℕ → ℕ)
    → Registry
    → (node_allocated : Bool) → (pid info start : ℕ) → Registry × Option ℕ
creating_shared_page_node bucket_of r node_allocated pid info start =
    let node : PageHashNode = record { pid = pid; address = page_mask start; info = info } in
    let referenced : Registry = record {
      page_hash_table = r.page_hash_table;
      page_infos = λ at. if at == info then add_reference (r.page_infos at) else r.page_infos at;
      next = r.next;
      tot_num_of_pages = r.tot_num_of_pages;
    } in
    if node_allocated
    then (add_node referenced (bucket_of pid) node, some info)
    else (free_info r info, none)

unfoldable pub page_shared_not_registered_yet :
    (bucket_of : ℕ → ℕ)
    → Registry
    → (node_allocated : Bool) → (pid address : ℕ) → Registry × Option ℕ
page_shared_not_registered_yet bucket_of r node_allocated pid address =
    elim (first_node (is_page (page_mask address)) (r.page_hash_table shared_bucket)) [
      | none ↦ (r, none)
      | some node ↦
          creating_shared_page_node bucket_of r node_allocated pid node.info (page_mask address)
    ]
