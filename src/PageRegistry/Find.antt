-- ===== src/PageRegistry/Find.antt =====
-- What find_current_page finds behind a registration.

use flow_scanner.Prelude.{
  ℕ, ◌%◌, ◌≡◌, ◌≢◌, refl, sym, ap, Bool, true, false, arith, ◌==◌, if◌then◌else◌, Bool-cases, inl,
  inr, ◌&&◌, ==_iff, ne→==, Option, some,
}
use flow_scanner.PageRegistry.{
  PageInfo, PageHashNode, Registry, page_mask, is_altered, hash_add, new_info, add_node,
  register_at, register_page, register_private_page, first_node, is_page_of, info_of,
  find_current_page,
}

-- The registration of a page that is not altered, when the allocations succeed.
added :
    (address bucket pid : ℕ) (r : Registry) (bytes : ℕ → ℕ)
    → is_altered bytes ≡ false
    → register_at address bucket pid r true true (some bytes) ≡ (
      add_node
          (new_info r record { bytes = bytes; ref_count = 1; is_shared = false })
          bucket
          record { pid = pid; address = address; info = r.next },
      some r.next,
    )
unfolding register_at
added address bucket pid r bytes intact = rw intact refl

if_never {ℓ} : {A : Type ℓ} → (b : Bool) (x y : A) → (if b && false then x else y) ≡ y
if_never true x y = refl
if_never false x y = refl

info_of-if :
    (c : Bool) (node : PageHashNode) (rest : Option PageHashNode)
    → info_of (if c then some node else rest) ≡ (if c then some node.info else info_of rest)
unfolding info_of
info_of-if true node rest = refl
info_of-if false node rest = refl

module _ (bucket_of : ℕ → ℕ) (r : Registry) (pid address info : ℕ) where
  -- A lookup behind the insertion of a node.
  pub find-add_node :
      (other addr : ℕ)
      → find_current_page bucket_of
          (add_node r (bucket_of pid) record { pid = pid; address = address; info = info })
          other
          addr
        ≡ (if pid == other && address == page_mask addr
            then some info
            else find_current_page bucket_of r other addr)
  unfolding find_current_page add_node hash_add first_node is_page_of info_of
  find-add_node other addr = elim (Bool-cases (bucket_of other == bucket_of pid)) [
    | inl e ↦
        let rest =
          first_node (is_page_of other (page_mask addr)) (r.page_hash_table (bucket_of other)) in
        rw e (
          info_of-if (pid == other && address == page_mask addr)
            record { pid = pid; address = address; info = info } rest)
    | inr e ↦
        let differ : (pid == other) ≡ false = ne→== pid other (λ same.
          let t : (bucket_of other == bucket_of pid) ≡ true =
            (==_iff (bucket_of other) (bucket_of pid)).1 (ap bucket_of (sym same)) in
          cc) in
        rw (e, differ) refl
  ]

pub find-new_info :
    (bucket_of : ℕ → ℕ) (r : Registry) (info : PageInfo) (pid addr : ℕ)
    → find_current_page bucket_of (new_info r info) pid addr
      ≡ find_current_page bucket_of r pid addr
unfolding find_current_page new_info
find-new_info bucket_of r info pid addr = refl

module _ (bucket_of : ℕ → ℕ) (r : Registry) (pid : ℕ) (bytes : ℕ → ℕ)
    (intact : is_altered bytes ≡ false) where
  registered_at :
      (address other addr : ℕ)
      → find_current_page bucket_of
          (register_at address (bucket_of pid) pid r true true (some bytes)).0
          other
          addr
        ≡ (if pid == other && address == page_mask addr
            then some r.next
            else find_current_page bucket_of r other addr)
  registered_at address other addr =
      let info : PageInfo = record { bytes = bytes; ref_count = 1; is_shared = false } in
      rw (added address (bucket_of pid) pid r bytes intact) (
        rw (find-new_info bucket_of r info other addr) at
          (find-add_node bucket_of (new_info r info) pid address r.next other addr))

  registered_info :
      (address : ℕ)
      → (register_at address (bucket_of pid) pid r true true (some bytes)).0.page_infos r.next
        ≡ some record { bytes = bytes; ref_count = 1; is_shared = false }
  unfolding add_node new_info
  registered_info address =
      rw (added address (bucket_of pid) pid r bytes intact, (==_iff r.next r.next).1 refl) refl

  -- If the page is not altered and the allocations succeed, then behind register_private_page
  -- find_current_page finds the new master copy at each address of the page for the process, and
  -- for all other pages and processes what it found before; the copy holds the bytes of the page
  -- and has one reference.
  pub register_private_page-find_current_page :
      (start other addr : ℕ)
      → (find_current_page bucket_of
            (register_private_page bucket_of r true true pid (some bytes) start).0
            other
            addr
          ≡ (if pid == other && page_mask start == page_mask addr
              then some r.next
              else find_current_page bucket_of r other addr))
        × ((register_private_page bucket_of r true true pid (some bytes) start).0.page_infos r.next
            ≡ some record { bytes = bytes; ref_count = 1; is_shared = false })
  unfolding register_private_page
  register_private_page-find_current_page start other addr =
      (registered_at (page_mask start) other addr, registered_info (page_mask start))

  -- If the page is not altered, the allocations succeed and the address is not the start of a
  -- page, find_current_page answers for each process and address what it answered before
  -- register_page.
  pub register_page_unaligned :
      (start other addr : ℕ)
      → start % 4096 ≢ 0
      → find_current_page bucket_of
          (register_page bucket_of r true true pid (some bytes) start).0
          other
          addr
        ≡ find_current_page bucket_of r other addr
  unfolding register_page
  register_page_unaligned start other addr unaligned =
      let never : (start == page_mask addr) ≡ false =
        ne→== start (page_mask addr) (λ e. unaligned (omega arith)) in
      rw (registered_at start other addr, never)
        (if_never (pid == other) (some r.next) (find_current_page bucket_of r other addr))
