-- ===== src/InvalidOp/Checked.antt =====
-- What invalid_op_handler of libs/fprobes/fprober_invalid_op.c opens: only bytes that the kernel
-- checks have accepted, and only for a user that is charged for them within the limit.

use flow_scanner.Prelude.{
  ℕ, ◌+◌, ◌%◌, ◌≡◌, refl, ap, Bool, true, false, ltb, ◌==◌, Bool-cases, inl, inr, ◌&&◌, not, ==_iff,
  Option, some, none, List, sub64, if◌then◌else◌, ◌≤◌, ◌*◌, ◌/◌, ltb→le,
}
use flow_scanner.Prelude.Int.{ℤ, pos, negsuc}
use flow_scanner.InvalidOp.Handler.{
  zone_end, Outcome, not_concerned, error_exit, opened, page_opened, no_outcome, zone_data,
  passes_check, charged, recorded, is_found, leave, put_page_back, restore_whole_page,
  zone_restored, open_zone, open_found, invalid_op_handler,
}
use flow_scanner.Disassemble.{Stats}
use flow_scanner.Paging.Flip.{VmArea}
use flow_scanner.Writers.{Data, Pages}
use flow_scanner.Writers.Fill.{restore_zone_bytes}
use flow_scanner.PageRegistry.{page_mask, is_altered_at}
use flow_scanner.PageRegistry.Removal.{restore_page}
use flow_scanner.UserLimits.{check_bytes_limit, UserHashNode}
use flow_scanner.InvalidOp.{OpState, Environment}
use flow_scanner.InvalidOp.Search.{
  ZonePage, Search, gives_up, no_code, zone_ends, endless_search, search_zone,
}

unfoldable pub is_opening : Outcome → Bool
is_opening not_concerned = false
is_opening error_exit = false
is_opening (opened start end) = true
is_opening (page_opened start) = true
is_opening no_outcome = false

-- The end of the zone that the search has found, in the memory of the process.
abbrev pub found_end : (address : ℕ) → Search → Option ℕ
found_end address gives_up = none
found_end address (no_code first_page second_page start_offset vma) = none
found_end address (zone_ends first_page none end_offset vma stats) =
    some (page_mask address + end_offset)
found_end address (zone_ends first_page (some second_page) end_offset vma stats) =
    some (page_mask address + 4096 + end_offset)
found_end address endless_search = none

-- A request of the user was granted, and the accounts are the ones behind it.
abbrev pub IsGranted : Environment → (before after : List UserHashNode) → (size : ℕ) → Type 0
IsGranted env before after size =
    check_bytes_limit env.kmalloc before env.task.uid size ≡ (after, 0)

-- Nothing is opened; or a zone from the address to the end that was found, which the end of the page
-- replaces if the zone has no bytes: the kernel checks accepted its bytes, the user had exactly the
-- bytes up to the end that was found granted, and the memory is what the writer of zones made of the
-- bytes; or the page of the address, likewise accepted and granted as a whole.
pub data IsAllowed (env : Environment) (address : ℕ) (searched : OpState × Search) (final : OpState)
    (outcome : Outcome) : Type 0 where
  nothing_opened : is_opening outcome ≡ false → IsAllowed env address searched final outcome
  zone_opened :
      (bytes : Data) (found end num_pages : ℕ) (before : Pages)
      → found_end address searched.1 ≡ some found
      → address ≤ found
      → end ≡ (if found == address then (found + 4095) / 4096 * 4096 else found)
      → outcome ≡ opened address end
      → passes_check env bytes address end ≡ true
      → IsGranted env searched.0.users final.users (sub64 found address)
      → final.memory ≡ (restore_zone_bytes env.writer before (some bytes) address end num_pages).0
      → IsAllowed env address searched final outcome
  whole_page_opened :
      (bytes : Data) (start : ℕ) (users : List UserHashNode) (before : Pages)
      → outcome ≡ page_opened start
      → passes_check env bytes start (start + 4096) ≡ true
      → IsGranted env users final.users 4096
      → final.memory ≡ env.restored start bytes before
      → IsAllowed env address searched final outcome

-- A charge with the answer 0.
charged-IsGranted :
    (env : Environment) (s : OpState) (size : ℕ)
    → ((charged env s size).1 == 0) ≡ true
    → IsGranted env s.users (charged env s size).0.users size
unfolding charged
charged-IsGranted env s size h =
    let within = (==_iff (charged env s size).1 0).0 h in
    ap (λ n. ((charged env s size).0.users, n)) within

recorded-IsGranted :
    (env : Environment) (s : OpState) (bytes : Data) (start end num_pages size : ℕ) (is_zone : Bool)
    (stats : Option Stats)
    → ((charged env s size).1 == 0) ≡ true
    → IsGranted env s.users
        (recorded env (charged env s size).0 bytes start end num_pages is_zone stats).users
        size
unfolding recorded
recorded-IsGranted env s bytes start end num_pages size is_zone stats h =
    charged-IsGranted env s size h

module _ (env : Environment) (vma : Option VmArea) (first_page : ZonePage)
    (second_page : Option ZonePage) (address : ℕ) (searched : OpState × Search) where
  put_page_back-IsAllowed :
      (s : OpState)
      → passes_check env first_page.bytes first_page.address (first_page.address + 4096) ≡ true
      → (users : List UserHashNode) → IsGranted env users s.users 4096
      → IsAllowed env address searched
          (put_page_back env vma first_page second_page s).0
          (put_page_back env vma first_page second_page s).1
  unfolding put_page_back leave is_opening
  put_page_back-IsAllowed s passed users granted =
      let answer =
        restore_page env.bucket_of s.registry env.written env.process.tgid first_page.address in
      elim (Bool-cases (is_found answer.1)) [
        | inl e ↦ rw e (
            whole_page_opened first_page.bytes first_page.address users s.memory refl passed granted
              refl)
        | inr e ↦ rw e (nothing_opened refl)
      ]

  restore_whole_page-IsAllowed :
      (start_offset : ℕ) (s : OpState)
      → IsAllowed env address searched
          (restore_whole_page env vma first_page second_page start_offset s).0
          (restore_whole_page env vma first_page second_page start_offset s).1
  unfolding restore_whole_page is_opening recorded
  restore_whole_page-IsAllowed start_offset s =
      let start = first_page.address in
      elim (Bool-cases (is_altered_at first_page.bytes start_offset)) [
        | inl a ↦ rw a (nothing_opened refl)
        | inr a ↦ elim (Bool-cases (passes_check env first_page.bytes start (start + 4096))) [
          | inr b ↦ rw (a, b) (nothing_opened refl)
          | inl b ↦ elim (Bool-cases ((charged env s 4096).1 == 0)) [
            | inr c ↦ rw (a, b, c) (nothing_opened refl)
            | inl c ↦
                let made : OpState =
                  recorded env (charged env s 4096).0 first_page.bytes start (start + 4096) 1 false
                    none in
                rw (a, b, c)
                  (put_page_back-IsAllowed made b s.users (charged-IsGranted env s 4096 c))
          ]
        ]
      ]

  zone_restored-IsAllowed :
      (bytes : Data) (found num_pages : ℕ) (s : OpState) (result : Pages × ℤ)
      → found_end address searched.1 ≡ some found
      → address ≤ found
      → passes_check env bytes address (zone_end address found) ≡ true
      → IsGranted env searched.0.users s.users (sub64 found address)
      → result
        ≡ restore_zone_bytes env.writer s.memory
            (some bytes)
            address
            (zone_end address found)
            num_pages
      → IsAllowed env address searched
          (zone_restored env vma first_page second_page address (zone_end address found) s result).0
          (zone_restored env vma first_page second_page address (zone_end address found) s result).1
  unfolding zone_restored leave is_opening zone_end
  zone_restored-IsAllowed bytes found num_pages s (memory, pos n) ends forward passed granted e =
      zone_opened bytes found (zone_end address found) num_pages s.memory ends forward refl refl
        passed granted (ap (λ (r : Pages × ℤ). r.0) e)
  zone_restored-IsAllowed bytes found num_pages s (memory, negsuc n) ends forward passed granted e =
      elim (Bool-cases (n == 1)) [
        | inl a ↦ rw a (nothing_opened refl)
        | inr a ↦
            rw a (restore_whole_page-IsAllowed (address % 4096) (record s { memory = memory }))
      ]

module _ (env : Environment) (vma : Option VmArea) (first_page : ZonePage)
    (second_page : Option ZonePage) (address : ℕ) (s : OpState) (search : Search) where
  open_zone-IsAllowed :
      (found num_pages : ℕ) (stats : Stats)
      → found_end address search ≡ some found
      → IsAllowed env address
          (s, search)
          (open_zone env vma first_page second_page address found num_pages stats s).0
          (open_zone env vma first_page second_page address found num_pages stats s).1
  unfolding open_zone is_opening
  open_zone-IsAllowed found num_pages stats ends =
      let size = sub64 found address in
      let extended = zone_end address found in
      let bytes = zone_data first_page second_page (address % 4096) in
      elim (Bool-cases (ltb found address)) [
        | inl a ↦ rw a (nothing_opened refl)
        | inr a ↦ elim (Bool-cases (not (num_pages == 1) && not env.kmalloc)) [
          | inl b ↦ rw (a, b) (nothing_opened refl)
          | inr b ↦ elim (Bool-cases (passes_check env bytes address extended)) [
            | inr c ↦ rw (a, b, c) (nothing_opened refl)
            | inl c ↦ elim (Bool-cases ((charged env s size).1 == 0)) [
              | inr d ↦ rw (a, b, c, d) (nothing_opened refl)
              | inl d ↦
                  let made : OpState =
                    recorded env (charged env s size).0 bytes address extended num_pages true
                      (some stats) in
                  rw (a, b, c, d)
                    (zone_restored-IsAllowed env vma first_page second_page address (s, search)
                      bytes found num_pages made
                      (restore_zone_bytes env.writer made.memory (some bytes) address extended
                        num_pages)
                      ends (ltb→le found address a) c
                      (recorded-IsGranted env s bytes address extended num_pages size true
                        (some stats) d)
                      refl)
            ]
          ]
        ]
      ]

module _ (env : Environment) where
  open_found-IsAllowed :
      (address : ℕ) (found : OpState × Search)
      → IsAllowed env address found
          (open_found env address found).0
          (open_found env address found).1
  unfolding open_found is_opening
  open_found-IsAllowed address (s, gives_up) = nothing_opened refl
  open_found-IsAllowed address (s, endless_search) = nothing_opened refl
  open_found-IsAllowed address (s, no_code first_page second_page start_offset vma) =
      restore_whole_page-IsAllowed env vma first_page second_page address
        (s, no_code first_page second_page start_offset vma) start_offset s
  open_found-IsAllowed address (s, zone_ends first_page none end_offset vma stats) =
      open_zone-IsAllowed env vma first_page none address s
        (zone_ends first_page none end_offset vma stats) (page_mask address + end_offset) 1 stats
        refl
  open_found-IsAllowed address (s, zone_ends first_page (some second_page) end_offset vma stats) =
      open_zone-IsAllowed env vma first_page (some second_page) address s
        (zone_ends first_page (some second_page) end_offset vma stats)
        (page_mask address + 4096 + end_offset) 2 stats refl

  -- Whatever the state and the trap are, invalid_op_handler opens nothing; or it opens the zone from
  -- the address to the end that search_zone found, or to the end of its page if that is the address
  -- itself; or it opens a whole page. What it opens run_kernel_check has accepted, and the memory is
  -- what the writer makes of the accepted bytes. check_bytes_limit has granted the user, for a zone,
  -- exactly the bytes from the address to the end that was found, from the accounts behind the search,
  -- and for a page 4096 bytes.
  pub invalid_op_handler-IsAllowed :
      (s : OpState) (trapnr address signr : ℕ)
      → IsAllowed env address
          (search_zone env s address)
          (invalid_op_handler env s trapnr address signr).0
          (invalid_op_handler env s trapnr address signr).1
  unfolding invalid_op_handler is_opening
  invalid_op_handler-IsAllowed s trapnr address signr = elim (Bool-cases (address == 0)) [
    | inl a ↦ rw a (nothing_opened refl)
    | inr a ↦ elim (Bool-cases (not (trapnr == 6) && not (signr == 4))) [
      | inl b ↦ rw (a, b) (nothing_opened refl)
      | inr b ↦ elim (Bool-cases env.process.hooked) [
        | inr c ↦ rw (a, b, ap not c, invalid_op_handler) (nothing_opened refl)
        | inl c ↦
            rw (a, b, ap not c, invalid_op_handler)
              (open_found-IsAllowed address (search_zone env s address))
      ]
    ]
  ]
