-- ===== src/Tests/Registry.antt =====
-- The theorems on the tables of pages and users, at concrete processes.

use flow_scanner.Prelude.{
  ℕ, ◌*◌, ◌%◌, ◌≡◌, refl, true, false, arith, ◌==◌, if◌then◌else◌, ◌&&◌, all_below, some, none, [],
  ◌∷◌, bit_or,
}
use flow_scanner.PageRegistry.{
  Registry, page_mask, is_altered, hash_add, new_info, add_node, register_private_page,
  register_shared_page, first_node, is_page_of, is_page, info_of, find_current_page,
  creating_shared_page_node, page_shared_not_registered_yet, is_altered_at,
}
use flow_scanner.PageRegistry.Removal.{page_found, restore_page}
use flow_scanner.PageRegistry.Find.{register_private_page-find_current_page}
use flow_scanner.PageRegistry.Shared.{register_shared_page-page_shared_not_registered_yet}
use flow_scanner.PageRegistry.Restore.{restore_page_dangles}
use flow_scanner.UserLimits.{UserHashNode, page_max_limit, check_limit, check_bytes_limit}
use flow_scanner.UserLimits.Accounts.{account, requested, check_limit-account}
use flow_scanner.UserLimits.Blocking.{requests, total, check_bytes_limit_blocks}
use flow_scanner.CrossPages.{
  page_of, find_page_cross_pages_integrity, register_page_cross_pages_integrity,
}
use flow_scanner.CrossPages.Flags.{register_page_cross_pages_integrity-find}

abbrev bucket : ℕ → ℕ
bucket pid = pid % 16

abbrev code : ℕ → ℕ
code offset = 144

abbrev empty : Registry
empty = record {
  page_hash_table = λ b. [];
  page_infos = λ at. none;
  next = 0;
  tot_num_of_pages = 0;
}

code_intact : is_altered code ≡ false
unfolding is_altered is_altered_at all_below
code_intact = refl

register_private_page-find_current_page_example :
    (find_current_page bucket
        (register_private_page bucket empty true true 7 (some code) 8192).0
        7
        8200
      ≡ (if 7 == 7 && page_mask 8192 == page_mask 8200
          then some 0
          else find_current_page bucket empty 7 8200))
    × ((register_private_page bucket empty true true 7 (some code) 8192).0.page_infos 0
        ≡ some record { bytes = code; ref_count = 1; is_shared = false })
register_private_page-find_current_page_example =
    register_private_page-find_current_page bucket empty 7 code code_intact 8192 7 8200

abbrev by_both : Registry
by_both =
    (page_shared_not_registered_yet bucket
      (register_shared_page bucket empty true true true 8192 7 (some code) 8192).0 true 9 8200).0

register_shared_page-page_shared_not_registered_yet_example :
    ((page_shared_not_registered_yet bucket
        (register_shared_page bucket empty true true true 1 7 (some code) 8192).0
        true
        9
        8200).1
      ≡ some 0)
    × (find_current_page bucket
          (page_shared_not_registered_yet bucket
            (register_shared_page bucket empty true true true 1 7 (some code) 8192).0
            true
            9
            8200).0
          9
          8200
        ≡ some 0)
    × ((page_shared_not_registered_yet bucket
            (register_shared_page bucket empty true true true 1 7 (some code) 8192).0
            true
            9
            8200).0.page_infos
          0
        ≡ some record { bytes = code; ref_count = 2; is_shared = true })
register_shared_page-page_shared_not_registered_yet_example =
    register_shared_page-page_shared_not_registered_yet bucket empty 1 7 8192 code 9 8200
      code_intact (omega arith) refl

restore_page_dangles_example :
    ((restore_page bucket by_both true 7 8192).1 ≡ page_found)
    × (find_current_page bucket (restore_page bucket by_both true 7 8192).0 9 8192 ≡ some 0)
    × ((restore_page bucket by_both true 7 8192).0.page_infos 0 ≡ none)
unfolding find_current_page page_shared_not_registered_yet register_shared_page
    creating_shared_page_node add_node hash_add new_info first_node is_page_of is_page info_of
    is_altered is_altered_at all_below
restore_page_dangles_example =
    restore_page_dangles bucket by_both 7 9 8192 0 (λ e. absurd (omega (arith, e))) (omega arith)
      refl refl

abbrev user : UserHashNode
user = record { uid = 5; allocated = 819000000; is_blocked = false; is_being_updated = true }

check_limit-account_example :
    ((check_limit 200000 true (user ∷ []) 5 4096).1
      ≡ (requested 200000 5 4096 (account (user ∷ []) 5)).1)
    × (account (check_limit 200000 true (user ∷ []) 5 4096).0 6 ≡ (
        if 5 == 6
        then some (requested 200000 5 4096 (account (user ∷ []) 5)).0
        else account (user ∷ []) 6))
check_limit-account_example = check_limit-account 200000 (user ∷ []) 5 4096 6

check_bytes_limit_blocks_example :
    (check_bytes_limit true
      (requests (page_max_limit * 4096) (user ∷ []) 5 (100000 ∷ 90000 ∷ []))
      5
      50000).1
    ≡ 1
unfolding account total
check_bytes_limit_blocks_example =
    check_bytes_limit_blocks (user ∷ []) 5 (100000 ∷ 90000 ∷ []) 50000 user refl (omega arith)
      (omega arith)

register_page_cross_pages_integrity-find_example :
    find_page_cross_pages_integrity (register_page_cross_pages_integrity true [] 7 8192 2).0 7 8200
    ≡ (if page_of 8192 == page_of 8200 && 7 == 7
        then bit_or (find_page_cross_pages_integrity [] 7 8192) 2
        else find_page_cross_pages_integrity [] 7 8200)
register_page_cross_pages_integrity-find_example =
    register_page_cross_pages_integrity-find [] 7 8192 2 7 8200
