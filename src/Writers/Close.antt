-- ===== src/Writers/Close.antt =====
-- What closing and restoring a zone does to the memory of the process.

use flow_scanner.Prelude.{
  ℕ, ◌+◌, ◌-◌, ◌*◌, ◌/◌, ◌%◌, ◌<◌, ◌≡◌, ◌≢◌, refl, ◌∙◌, true, arith, ltb, leb, ◌==◌, if◌then◌else◌,
  Bool-cases, inl, inr, ◌&&◌, ne→==, lt→leb, Option, some,
}
use flow_scanner.Prelude.Int.{pos}
use flow_scanner.Writers.{Data, Pages, Kernel, UserArea, memset, gup_flags, copy_zone}
use flow_scanner.Writers.Fill.{
  is_zone, status_of, outer_bytes, close_outer_zone, close_inner_zone, restore_zone_bytes,
}
use flow_scanner.Writers.Copies.{Spans, zone_byte}
use flow_scanner.Writers.Zone.{first_flags, Writable, written, copied_at}
use flow_scanner.Writers.Whole.{whole_written, whole_copied}

-- Where close_outer_zone stops to keep the bytes of the zone: at its end, but a page before it if
-- the zone ends with a page.
abbrev pub kept_end : ℕ → ℕ
kept_end end = if end % 4096 == 0 then end - 4096 else end

outer_split :
    (bytes : Data) (head stop size x start base : ℕ)
    → x < size
    → start ≡ base + head
    → memset (memset bytes 0 14 head) stop 14 (size - stop) x
      ≡ (if leb start (base + x) && ltb (base + x) (base + stop) then bytes x else 14)
unfolding memset
outer_split bytes head stop size x start base below place = ground arith

module _ (bytes : Data) (start end num_pages i o : ℕ) (spans : Spans start end num_pages)
    (below : i < num_pages) (inside : o < 4096) where
  outer_bytes_at : outer_bytes bytes start end num_pages (i * 4096 + o) ≡ (
      if leb start (start / 4096 * 4096 + i * 4096 + o)
        && ltb (start / 4096 * 4096 + i * 4096 + o) (kept_end end)
      then bytes (i * 4096 + o)
      else 14)
  unfolding outer_bytes memset
  outer_bytes_at =
      let l = spans.last in
      let n = spans.nonempty in
      let most = spans.at_most_two in
      let x = i * 4096 + o in
      let base = start / 4096 * 4096 in
      let stop = end % 4096 + (num_pages - 1) * 4096 in
      let place : base + i * 4096 + o ≡ base + x = omega arith in
      let kept : kept_end end ≡ base + stop = ground arith in
      rw (place, kept)
        (outer_split bytes (start % 4096) stop (num_pages * 4096) x start base (omega arith)
          (omega arith))

zone_byte-again :
    (bytes : Data) (start end i o before : ℕ)
    → zone_byte bytes start end i o (zone_byte (λ _. 14) start end i o before)
      ≡ zone_byte bytes start end i o before
zone_byte-again bytes start end i o before =
    let a = start / 4096 * 4096 + i * 4096 + o in
    elim (Bool-cases (leb start a && ltb a end)) [ inl e ↦ rw e refl | inr e ↦ rw e refl ]

is_zone-holds : (start end : ℕ) → 0 < start → start < end → is_zone start end ≡ true
unfolding is_zone
is_zone-holds start end a b = ground arith

module _ (k : Kernel) (s : Pages) (bytes : Data) (start end num_pages : ℕ) (vma : Option UserArea)
    (pages : ℕ → Option ℕ) (frame : ℕ → ℕ)
    (writable : Writable k (start / 4096 * 4096) num_pages (gup_flags vma) pages frame)
    (spans : Spans start end num_pages) (nonzero : 0 < start) where
  -- If the kernel has the one or two pages of the zone and maps them, close_outer_zone answers 0,
  -- writes the buffer's bytes from `start` on and the illegal opcode 0E to all other places. It
  -- keeps the bytes up to `end` if `end` lies inside a page, and up to the page before `end` if
  -- `end` is the end of a page.
  pub close_outer_zone_writes :
      (i o : ℕ)
      → i < num_pages
      → o < 4096
      → ((close_outer_zone k s true bytes start end num_pages vma).1 ≡ pos 0)
        × ((close_outer_zone k s true bytes start end num_pages vma).0.frames (frame i) o ≡ (
            if leb start (start / 4096 * 4096 + i * 4096 + o)
              && ltb (start / 4096 * 4096 + i * 4096 + o) (kept_end end)
            then bytes (i * 4096 + o)
            else 14))
  unfolding close_outer_zone status_of
  close_outer_zone_writes i o below inside =
      let base = start / 4096 * 4096 in
      let outer = outer_bytes bytes start end num_pages in
      let same : base / 4096 * 4096 ≡ base = omega arith in
      let at_base : Writable k (base / 4096 * 4096) num_pages (gup_flags vma) pages frame =
        rw same writable in
      let whole = whole_written k s base outer num_pages vma pages frame at_base in
      let copied = whole_copied writable.mapped outer i o below inside s.frames in
      let kept = outer_bytes_at bytes start end num_pages i o spans below inside in
      rw (is_zone-holds start end nonzero spans.nonempty, whole) (refl, copied ∙ kept)

module _ (k : Kernel) (s : Pages) (bytes : Data) (start end num_pages : ℕ) (pages : ℕ → Option ℕ)
    (frame : ℕ → ℕ) (writable : Writable k (start / 4096 * 4096) num_pages first_flags pages frame)
    (spans : Spans start end num_pages) (nonzero : 0 < start) where
  closed : close_inner_zone k s true start end num_pages ≡ (
    record { frames = copy_zone s.frames pages (λ _. 14) start end num_pages; pins = s.pins },
    pos 0,
  )
  unfolding close_inner_zone status_of
  closed =
      rw
        (
          is_zone-holds start end nonzero spans.nonempty,
          written k s (λ _. 14) start end num_pages pages frame writable,
        )
        refl

  pub restored :
      (t : Pages)
      → bytes 0 ≢ 14
      → restore_zone_bytes k t (some bytes) start end num_pages ≡ (
        record { frames = copy_zone t.frames pages bytes start end num_pages; pins = t.pins },
        pos 0,
      )
  unfolding restore_zone_bytes status_of
  restored t opcode =
      rw
        (
          lt→leb end start spans.nonempty,
          ne→== (bytes 0) 14 opcode,
          written k t bytes start end num_pages pages frame writable,
        )
        refl

  -- A zone that close_inner_zone closed is back behind restore_zone_bytes: its bytes are those of
  -- the buffer, and the bytes beside it are those of before, if the kernel has the pages and the
  -- first byte of the buffer is not the opcode 0E.
  pub close_inner_zone-restore_zone_bytes :
      (i o : ℕ)
      → i < num_pages
      → o < 4096
      → bytes 0 ≢ 14
      → ((close_inner_zone k s true start end num_pages).1 ≡ pos 0)
        × ((restore_zone_bytes k
              (close_inner_zone k s true start end num_pages).0
              (some bytes)
              start
              end
              num_pages).1
            ≡ pos 0)
        × ((restore_zone_bytes k
                (close_inner_zone k s true start end num_pages).0
                (some bytes)
                start
                end
                num_pages).0.frames
              (frame i)
              o
            ≡ zone_byte bytes start end i o (s.frames (frame i) o))
  close_inner_zone-restore_zone_bytes i o below inside opcode =
      let start_before = spans.nonempty in
      let inner : Pages = record {
        frames = copy_zone s.frames pages (λ _. 14) start end num_pages;
        pins = s.pins;
      } in
      let after = copied_at writable.mapped inner.frames bytes start end i o spans below inside in
      let between = copied_at writable.mapped s.frames (λ _. 14) start end i o spans below inside in
      rw (closed, restored inner opcode)
        (
          refl,
          refl,
          rw between at after ∙ zone_byte-again bytes start end i o (s.frames (frame i) o),
        )
