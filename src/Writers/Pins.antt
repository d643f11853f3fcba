-- ===== src/Writers/Pins.antt =====
-- Which pages the writers do not put back when they fail.
use flow_scanner.Prelude.{
  ℕ, zero, suc, ◌+◌, ◌-◌, ◌*◌, ◌/◌, ◌<◌, ◌≡◌, ◌≢◌, refl, true, arith, ◌==◌, Bool-cases, inl, inr,
  ==_iff, ne→==, Option, some, some_eq,
}
use flow_scanner.Prelude.Int.{pos}
use flow_scanner.Writers.{
  Data, Pages, Kernel, efault, map_page, map_pages, taken, is_count, finish_write, pin,
  write_zone_answered, retry_once, is_eintr, write_zone_pass, write_zone_on_not_writable_user_pages,
}
use flow_scanner.Writers.Zone.{first_flags}

map_pages-below :
    (count i : ℕ) (k : Kernel) (pages : ℕ → Option ℕ) {j : ℕ}
    → map_pages count i k pages ≡ some j
    → j < i + count
unfolding map_pages
map_pages-below zero i k pages h = cc
map_pages-below (suc count) i k pages {j} h = elim (Bool-cases (map_page k (pages i))) [
  | inl e ↦
      let later : map_pages count (i + 1) k pages ≡ some j = rw e at h in
      let below = map_pages-below count (i + 1) k pages later in omega arith
  | inr e ↦ let here : some i ≡ some j = rw e at h in let same = some_eq here in omega arith
]

module _ (k : Kernel) (s : Pages) (bytes : Data) (start end num_pages : ℕ)
    (pages : ℕ → Option ℕ) where
  -- If `get_user_pages_fast` takes all pages and the loop that maps them fails at page i, the
  -- writer of zones answers -EFAULT and writes nothing, and the pages from i on, at least one, are
  -- not put back.
  pub write_zone_on_not_writable_user_pages_leaks :
      (i : ℕ)
      → k.get_user_pages_fast 0 (start / 4096 * 4096) num_pages first_flags ≡ (pos num_pages, pages)
      → map_pages num_pages 0 k pages ≡ some i
      → (write_zone_on_not_writable_user_pages k s bytes start end num_pages
          ≡ (record { frames = s.frames; pins = s.pins + (num_pages - i) }, efault))
        × (0 < num_pages - i)
  unfolding write_zone_on_not_writable_user_pages write_zone_pass write_zone_answered retry_once
      is_count finish_write pin taken
  write_zone_on_not_writable_user_pages_leaks i answer failed =
      let below = map_pages-below num_pages 0 k pages failed in
      let count : (num_pages == num_pages) ≡ true = (==_iff num_pages num_pages).1 refl in
      let left : s.pins + num_pages - i ≡ s.pins + (num_pages - i) = omega arith in
      (rw (answer, failed, count, left) refl, omega arith)

  -- If `get_user_pages_fast` takes fewer pages than it was asked for, the writer answers -EFAULT
  -- and writes nothing, and none of the pages is put back.
  pub write_zone_on_not_writable_user_pages_partial :
      (got : ℕ)
      → got ≢ num_pages
      → k.get_user_pages_fast 0 (start / 4096 * 4096) num_pages first_flags ≡ (pos got, pages)
      → write_zone_on_not_writable_user_pages k s bytes start end num_pages
        ≡ (record { frames = s.frames; pins = s.pins + got }, efault)
  unfolding write_zone_on_not_writable_user_pages write_zone_pass write_zone_answered retry_once
      is_count finish_write pin taken is_eintr
  write_zone_on_not_writable_user_pages_partial got fewer answer =
      rw (answer, ne→== got num_pages fewer) refl
