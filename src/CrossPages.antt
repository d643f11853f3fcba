-- ===== src/CrossPages.antt =====
-- The table of the pages with instructions that cross a page:
-- register_page_cross_pages_integrity and unregister_page_cross_pages_integrity of
-- libs/fprobes/fprobes_helper.c, and find_page_cross_pages_integrity of libs/utils.c.
pub mod Flags
use flow_scanner.Prelude.{
  ℕ, zero, suc, ◌+◌, ◌-◌, ◌*◌, ◌/◌, ◌%◌, ◌^◌, ◌≤◌, ◌<◌, ◌≡◌, ◌≢◌, ◌↔◌, refl, sym, ap, ◌∙◌, Bool,
  true, false, arith, tests, ltb, leb, ◌==◌, ◌⊎◌, if◌then◌else◌, Bool-cases, inl, inr, ◌&&◌, ◌||◌,
  not, ==_iff, ne→==, lt→ltb, le→leb, lt→leb, all_below, Option, some, none, List, [], ◌∷◌, ◌++◌,
  some_eq, Option-cases, bit_or,
}
use flow_scanner.Prelude.Int.{ℤ, pos, negsuc}

pub record CrossNode : Type 0 where
  pub pid : ℕ
  pub address : ℕ
  pub flags : ℕ

abbrev pub is_cross : (pid page : ℕ) → CrossNode → Bool
is_cross pid page node = node.address == page && node.pid == pid

abbrev pub page_of : ℕ → ℕ
page_of address = address / 4096 * 4096

unfoldable pub find_cross : List CrossNode → (pid page : ℕ) → ℕ
find_cross [] pid page = 0
find_cross (node ∷ nodes) pid page =
    let rest = find_cross nodes pid page in if is_cross pid page node then node.flags else rest

-- `nodes` is the bucket of the pid.
unfoldable pub find_page_cross_pages_integrity : List CrossNode → (pid address : ℕ) → ℕ
find_page_cross_pages_integrity nodes pid address = find_cross nodes pid (page_of address)

-- The search of a registration: none if the page has no node.
unfoldable pub keep_node : CrossNode → Option (List CrossNode) → Option (List CrossNode)
keep_node node none = none
keep_node node (some nodes) = some (node ∷ nodes)

unfoldable pub or_flags : List CrossNode → (pid page flags : ℕ) → Option (List CrossNode)
or_flags [] pid page flags = none
or_flags (node ∷ nodes) pid page flags =
    let rest = or_flags nodes pid page flags in
    let marked : CrossNode = record {
      pid = node.pid;
      address = node.address;
      flags = bit_or node.flags flags;
    } in
    if is_cross pid page node then some (marked ∷ nodes) else keep_node node rest

unfoldable pub register_page_cross_pages_integrity :
    (kmalloc : Bool) → List CrossNode → (pid start flags : ℕ) → List CrossNode × ℤ
register_page_cross_pages_integrity kmalloc nodes pid start flags =
    let node : CrossNode = record { pid = pid; address = page_of start; flags = flags } in
    elim (or_flags nodes pid (page_of start) flags) [
      | some marked ↦ (marked, pos 0)
      | none ↦ if kmalloc then (node ∷ nodes, pos 0) else (nodes, negsuc 0)
    ]

unfoldable pub remove_cross : List CrossNode → (pid page : ℕ) → Option (List CrossNode)
remove_cross [] pid page = none
remove_cross (node ∷ nodes) pid page =
    let rest = remove_cross nodes pid page in
    if is_cross pid page node then some nodes else keep_node node rest

unfoldable pub unregister_page_cross_pages_integrity :
    List CrossNode → (pid start : ℕ) → List CrossNode × ℤ
unregister_page_cross_pages_integrity nodes pid start =
    elim (remove_cross nodes pid (page_of start)) [
      | some left ↦ (left, pos 0)
      | none ↦ (nodes, negsuc 0)
    ]
