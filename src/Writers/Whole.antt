-- ===== src/Writers/Whole.antt =====
-- What `write_pages_on_not_writable_user_pages` does to the memory of the process.

use flow_scanner.Prelude.{
  ℕ, zero, suc, ◌+◌, ◌-◌, ◌*◌, ◌/◌, ◌<◌, ◌≡◌, ◌≢◌, refl, sym, true, false, arith, ltb, leb, ◌==◌,
  if◌then◌else◌, Bool-cases, inl, inr, ==_iff, lt→ltb, le→leb, lt→leb, Option, ltb→lt,
}
use flow_scanner.Prelude.Int.{pos}
use flow_scanner.Writers.{
  Data, Pages, Kernel, UserArea, memcpy, frame_of, taken, is_count, copy_pages, gup_flags,
  finish_write, pin, write_pages_on_not_writable_user_pages, write_pages_answered,
}
use flow_scanner.Writers.Copies.{
  Mapped, frame_of-Mapped, map_pages-Mapped, memcpy_into, memcpy_beside,
}
use flow_scanner.Writers.Zone.{Writable}

module _ {k : Kernel} {pages : ℕ → Option ℕ} {num_pages : ℕ} {frame : ℕ → ℕ}
    (mapped : Mapped k pages num_pages frame) (bytes : Data) (i o : ℕ) (below : i < num_pages)
    (inside : o < 4096) where
  whole_page :
      (j : ℕ) (frames : ℕ → ℕ → ℕ)
      → memcpy frames (frame i) 0 bytes (j * 4096) 4096 (frame i) o ≡ bytes (j * 4096 + o)
  whole_page j frames =
      let place : o - 0 ≡ o = omega arith in
      rw
        (
          memcpy_into frames (frame i) 0 bytes (j * 4096) 4096 o,
          lt→ltb o 4096 inside,
          le→leb 0 o (omega arith),
          place,
        )
        refl

  frames_apart : (j : ℕ) → j < num_pages → (j == i) ≡ false → frame i ≢ frame j
  frames_apart j low e = elim (Bool-cases (ltb i j)) [
    | inl l ↦ mapped.distinct i j (ltb→lt i j l) low
    | inr l ↦ let less : j < i = ground arith in λ same. mapped.distinct j i less below (sym same)
  ]

  pub copy_pages_from :
      (count j : ℕ) (frames : ℕ → ℕ → ℕ)
      → j + count ≡ num_pages
      → copy_pages count j frames pages bytes (frame i) o
        ≡ (if leb j i then bytes (i * 4096 + o) else frames (frame i) o)
  unfolding copy_pages
  copy_pages_from zero j frames h = rw (lt→leb j i (omega arith)) refl
  copy_pages_from (suc count) j frames h =
      let now = memcpy frames (frame j) 0 bytes (j * 4096) 4096 in
      let f : frame_of (pages j) ≡ frame j = frame_of-Mapped mapped j (omega arith) in
      let rest : copy_pages count (j + 1) now pages bytes (frame i) o
          ≡ (if leb (j + 1) i then bytes (i * 4096 + o) else now (frame i) o) =
        copy_pages_from count (j + 1) now (omega arith) in
      rw (f, rest)
        (elim (Bool-cases (j == i)) [
          | inl e ↦
              let same = (==_iff j i).0 e in
              rw (same, lt→leb (i + 1) i (omega arith), le→leb i i (omega arith))
                (whole_page i frames)
          | inr e ↦
              let apart : frame i ≢ frame j = frames_apart j (omega arith) e in
              let kept : now (frame i) o ≡ frames (frame i) o =
                memcpy_beside frames (frame j) 0 bytes (j * 4096) 4096 (frame i) o apart in
              let next : leb (j + 1) i ≡ leb j i = ground arith in rw (kept, next) refl
        ])

  pub whole_copied :
      (frames : ℕ → ℕ → ℕ)
      → copy_pages num_pages 0 frames pages bytes (frame i) o ≡ bytes (i * 4096 + o)
  whole_copied frames =
      let from = copy_pages_from num_pages 0 frames (omega arith) in
      rw (le→leb 0 i (omega arith)) at from

module _ (k : Kernel) (s : Pages) (user_vaddr : ℕ) (bytes : Data) (num_pages : ℕ)
    (vma : Option UserArea) (pages : ℕ → Option ℕ) (frame : ℕ → ℕ)
    (writable : Writable k (user_vaddr / 4096 * 4096) num_pages (gup_flags vma) pages frame) where
  pub whole_written :
      write_pages_on_not_writable_user_pages k s user_vaddr bytes num_pages vma
      ≡ (record { frames = copy_pages num_pages 0 s.frames pages bytes; pins = s.pins }, pos 0)
  unfolding write_pages_on_not_writable_user_pages write_pages_answered is_count finish_write pin
      taken
  whole_written =
      let a = writable.answer in
      let all = map_pages-Mapped writable.mapped num_pages 0 (omega arith) in
      let count : (num_pages == num_pages) ≡ true = (==_iff num_pages num_pages).1 refl in
      let balance : s.pins + num_pages - num_pages ≡ s.pins = omega arith in
      rw (a, all, count, balance) refl

  -- If the kernel has the pages and maps them, each byte of the pages is the one of the buffer
  -- behind `write_pages_on_not_writable_user_pages`; the result is 0, and each page is put back.
  pub write_pages_on_not_writable_user_pages_writes :
      (i o : ℕ)
      → i < num_pages
      → o < 4096
      → ((write_pages_on_not_writable_user_pages k s user_vaddr bytes num_pages vma).1 ≡ pos 0)
        × ((write_pages_on_not_writable_user_pages k s user_vaddr bytes num_pages vma).0.pins
            ≡ s.pins)
        × ((write_pages_on_not_writable_user_pages k s user_vaddr bytes num_pages vma).0.frames
              (frame i)
              o
            ≡ bytes (i * 4096 + o))
  write_pages_on_not_writable_user_pages_writes i o below inside =
      rw whole_written (refl, refl, whole_copied writable.mapped bytes i o below inside s.frames)
