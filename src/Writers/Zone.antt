-- ===== src/Writers/Zone.antt =====
-- What `write_zone_on_not_writable_user_pages` does to the memory of the process.

use flow_scanner.Prelude.{
  ℕ, zero, suc, ◌+◌, ◌-◌, ◌*◌, ◌/◌, ◌<◌, ◌≡◌, refl, true, false, arith, ◌==◌, Bool-cases, inl, inr,
  ==_iff, Option,
}
use flow_scanner.Prelude.Int.{pos}
use flow_scanner.Writers.{
  Data, Pages, GupFlags, Kernel, taken, is_count, finish_write, pin, copy_zone, write_zone_answered,
  retry_once, write_zone_pass, write_zone_on_not_writable_user_pages,
}
use flow_scanner.Writers.Copies.{
  Mapped, map_pages-Mapped, Spans, zone_byte, copy_one, copy_first, copy_second,
}

abbrev pub first_flags : GupFlags
first_flags = record { foll_write = false; foll_nofault = false }

-- The kernel has all pages at the first call and maps them.
pub record Writable (k : Kernel) (page_addr num_pages : ℕ) (flags : GupFlags) (pages : ℕ → Option ℕ)
    (frame : ℕ → ℕ) : Type 0 where
  pub answer : k.get_user_pages_fast 0 page_addr num_pages flags ≡ (pos num_pages, pages)
  pub mapped : Mapped k pages num_pages frame

two_of : {start end : ℕ} (n : ℕ) → Spans start end n → 0 < n → (n == 1) ≡ false → n ≡ 2
two_of n spans below e = let most = spans.at_most_two in ground arith

pub copied_at :
    {k : Kernel} {pages : ℕ → Option ℕ} {num_pages : ℕ} {frame : ℕ → ℕ}
    → Mapped k pages num_pages frame
    → (frames : ℕ → ℕ → ℕ) (bytes : Data) (start end i o : ℕ) → Spans start end num_pages
    → i < num_pages
    → o < 4096
    → copy_zone frames pages bytes start end num_pages (frame i) o
      ≡ zone_byte bytes start end i o (frames (frame i) o)
copied_at {num_pages = n} mapped frames bytes start end zero o spans below inside =
    elim (Bool-cases (n == 1)) [
      | inl e ↦ copy_one mapped frames bytes start end o spans inside ((==_iff n 1).0 e)
      | inr e ↦ copy_first mapped frames bytes start end o spans inside (two_of n spans below e)
    ]
copied_at {num_pages = n} mapped frames bytes start end (suc i) o spans below inside =
    let most = spans.at_most_two in
    let first : i ≡ 0 = omega arith in
    let two : n ≡ 2 = omega arith in
    rw first (copy_second mapped frames bytes start end o spans inside two)

module _ (k : Kernel) (s : Pages) (bytes : Data) (start end num_pages : ℕ) (pages : ℕ → Option ℕ)
    (frame : ℕ → ℕ)
    (writable : Writable k (start / 4096 * 4096) num_pages first_flags pages frame) where
  pub written : write_zone_on_not_writable_user_pages k s bytes start end num_pages ≡ (
    record { frames = copy_zone s.frames pages bytes start end num_pages; pins = s.pins },
    pos 0,
  )
  unfolding write_zone_on_not_writable_user_pages write_zone_pass write_zone_answered retry_once
      is_count finish_write pin taken
  written =
      let a = writable.answer in
      let all = map_pages-Mapped writable.mapped num_pages 0 (omega arith) in
      let count : (num_pages == num_pages) ≡ true = (==_iff num_pages num_pages).1 refl in
      let balance : s.pins + num_pages - num_pages ≡ s.pins = omega arith in
      rw (a, all, count, balance) refl

  -- If the kernel has the one or two pages of the zone and maps them, each byte of the pages that
  -- lies in [start, end) is the zone's behind `write_zone_on_not_writable_user_pages`, each other
  -- one is what it was; the result is 0, and each page is put back.
  pub write_zone_on_not_writable_user_pages_writes :
      (i o : ℕ)
      → Spans start end num_pages
      → i < num_pages
      → o < 4096
      → ((write_zone_on_not_writable_user_pages k s bytes start end num_pages).1 ≡ pos 0)
        × ((write_zone_on_not_writable_user_pages k s bytes start end num_pages).0.pins ≡ s.pins)
        × ((write_zone_on_not_writable_user_pages k s bytes start end num_pages).0.frames
              (frame i)
              o
            ≡ zone_byte bytes start end i o (s.frames (frame i) o))
  write_zone_on_not_writable_user_pages_writes i o spans below inside =
      rw written
        (refl, refl, copied_at writable.mapped s.frames bytes start end i o spans below inside)
