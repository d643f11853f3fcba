-- ===== src/Writers/Copies.antt =====
-- What the copies of the writers leave in the frames of the pages.

use flow_scanner.Prelude.{
  ℕ, zero, suc, ◌+◌, ◌-◌, ◌*◌, ◌/◌, ◌%◌, ◌≤◌, ◌<◌, ◌≡◌, ◌≢◌, ◌↔◌, refl, sym, true, false, arith,
  ltb, leb, ◌==◌, if◌then◌else◌, Bool-cases, inl, inr, ◌&&◌, lt→ltb, le→leb, Option, some, none,
}
use flow_scanner.Writers.{
  Data, Kernel, memcpy, map_page, map_pages, frame_of, copy_middle, copy_zone,
}

-- The kernel finds and maps each page, and no two have one frame.
pub record Mapped (k : Kernel) (pages : ℕ → Option ℕ) (num_pages : ℕ) (frame : ℕ → ℕ) : Type 0 where
  pub found : (i : ℕ) → i < num_pages → pages i ≡ some (frame i)
  pub maps : (i : ℕ) → i < num_pages → k.kmap_local_page (frame i) ≡ true
  pub distinct : (i j : ℕ) → i < j → j < num_pages → frame i ≢ frame j

module _ {k : Kernel} {pages : ℕ → Option ℕ} {num_pages : ℕ} {frame : ℕ → ℕ}
    (mapped : Mapped k pages num_pages frame) where
  pub frame_of-Mapped : (i : ℕ) → i < num_pages → frame_of (pages i) ≡ frame i
  unfolding frame_of
  frame_of-Mapped i h = rw (mapped.found i h) refl

  pub map_pages-Mapped : (count i : ℕ) → i + count ≤ num_pages → map_pages count i k pages ≡ none
  unfolding map_pages map_page
  map_pages-Mapped zero i h = refl
  map_pages-Mapped (suc count) i h =
      rw (mapped.found i (omega arith), mapped.maps i (omega arith))
        (map_pages-Mapped count (i + 1) (omega arith))

pub memcpy_into :
    (frames : ℕ → ℕ → ℕ) (frame dst : ℕ) (bytes : Data) (src size o : ℕ)
    → memcpy frames frame dst bytes src size frame o
      ≡ (if leb dst o && ltb o (dst + size) then bytes (src + (o - dst)) else frames frame o)
unfolding memcpy
memcpy_into frames frame dst bytes src size o = ground arith

pub memcpy_beside :
    (frames : ℕ → ℕ → ℕ) (frame dst : ℕ) (bytes : Data) (src size f o : ℕ)
    → f ≢ frame
    → memcpy frames frame dst bytes src size f o ≡ frames f o
unfolding memcpy
memcpy_beside frames frame dst bytes src size f o ne = ground arith

-- The zone [start, end) ends on the last of its `num_pages` pages.
pub record Spans (start end num_pages : ℕ) : Type 0 where
  pub nonempty : start < end
  pub last : start / 4096 + num_pages ≡ (end - 1) / 4096 + 1
  pub at_most_two : num_pages ≤ 2

-- A byte of the pages behind the copy: the zone's inside the zone, as before outside of it.
abbrev pub zone_byte : Data → (start end i o before : ℕ) → ℕ
zone_byte bytes start end i o before =
    let a = start / 4096 * 4096 + i * 4096 + o in
    if leb start a && ltb a end then bytes (a - start) else before

between_bounds : (x y o : ℕ) → (leb x o && ltb o y) ≡ true → (x ≤ o) × (o < y)
between_bounds x y o e = ground arith

between_holds : (x y o : ℕ) → x ≤ o → o < y → (leb x o && ltb o y) ≡ true
between_holds x y o a b = rw (le→leb x o a, lt→ltb o y b) refl

between_fails : (x y o : ℕ) → (x ≤ o → o < y → ⊥) → (leb x o && ltb o y) ≡ false
between_fails x y o h = elim (Bool-cases (leb x o && ltb o y)) [
  | inl e ↦ let (a, b) = between_bounds x y o e in absurd (h a b)
  | inr e ↦ e
]

-- A copy into `size` bytes from `dst` on agrees with the zone if both hold the same positions.
agrees :
    (bytes : Data) (dst size src start end a o before : ℕ)
    → (dst ≤ o) × (o < dst + size) ↔ (start ≤ a) × (a < end)
    → ((dst ≤ o) → src + (o - dst) ≡ a - start)
    → (if leb dst o && ltb o (dst + size) then bytes (src + (o - dst)) else before)
      ≡ (if leb start a && ltb a end then bytes (a - start) else before)
agrees bytes dst size src start end a o before same at =
    elim (Bool-cases (leb dst o && ltb o (dst + size))) [
      | inl e ↦
          let (low, high) = between_bounds dst (dst + size) o e in
          let (from, below) = same.0 (low, high) in
          let place : src + (o - dst) ≡ a - start = at low in
          rw (e, between_holds start end a from below, place) refl
      | inr e ↦
          rw
            (
              e,
              between_fails start end a (λ from below.
                  let (low, high) = same.1 (from, below) in
                  let t = between_holds dst (dst + size) o low high in cc),
            )
            refl
    ]

module _ {k : Kernel} {pages : ℕ → Option ℕ} {num_pages : ℕ} {frame : ℕ → ℕ}
    (mapped : Mapped k pages num_pages frame) (frames : ℕ → ℕ → ℕ) (bytes : Data) (start end o : ℕ)
    (spans : Spans start end num_pages) (inside : o < 4096) where
  pub copy_one :
      num_pages ≡ 1
      → copy_zone frames pages bytes start end num_pages (frame 0) o
        ≡ zone_byte bytes start end 0 o (frames (frame 0) o)
  unfolding copy_zone
  copy_one one =
      let n = spans.nonempty in
      let l = spans.last in
      let f0 : frame_of (pages 0) ≡ frame 0 = frame_of-Mapped mapped 0 (omega arith) in
      rw (one, f0, memcpy_into frames (frame 0) (start % 4096) bytes 0 (end - start) o)
        (agrees bytes (start % 4096) (end - start) 0 start end (start / 4096 * 4096 + 0 * 4096 + o)
          o (frames (frame 0) o)
          (λ (a, b). (omega arith, omega arith), λ (a, b). (omega arith, omega arith))
          (λ h. omega arith))

  pub copy_first :
      num_pages ≡ 2
      → copy_zone frames pages bytes start end num_pages (frame 0) o
        ≡ zone_byte bytes start end 0 o (frames (frame 0) o)
  unfolding copy_zone copy_middle
  copy_first two =
      let n = spans.nonempty in
      let l = spans.last in
      let f0 : frame_of (pages 0) ≡ frame 0 = frame_of-Mapped mapped 0 (omega arith) in
      let f1 : frame_of (pages 1) ≡ frame 1 = frame_of-Mapped mapped 1 (omega arith) in
      let last = if end % 4096 == 0 then 4096 else end % 4096 in
      let first = memcpy frames (frame 0) (start % 4096) bytes 0 (4096 - start % 4096) in
      let apart = mapped.distinct 0 1 (omega arith) (omega arith) in
      rw
        (
          two,
          f0,
          f1,
          memcpy_beside first (frame 1) 0 bytes (4096 - start % 4096 + 0 * 4096) last (frame 0) o
              apart,
          memcpy_into frames (frame 0) (start % 4096) bytes 0 (4096 - start % 4096) o,
        )
        (agrees bytes (start % 4096) (4096 - start % 4096) 0 start end
          (start / 4096 * 4096 + 0 * 4096 + o) o (frames (frame 0) o)
          (λ (a, b). (omega arith, omega arith), λ (a, b). (omega arith, omega arith))
          (λ h. omega arith))

  pub copy_second :
      num_pages ≡ 2
      → copy_zone frames pages bytes start end num_pages (frame 1) o
        ≡ zone_byte bytes start end 1 o (frames (frame 1) o)
  unfolding copy_zone copy_middle
  copy_second two =
      let n = spans.nonempty in
      let l = spans.last in
      let f0 : frame_of (pages 0) ≡ frame 0 = frame_of-Mapped mapped 0 (omega arith) in
      let f1 : frame_of (pages 1) ≡ frame 1 = frame_of-Mapped mapped 1 (omega arith) in
      let last = if end % 4096 == 0 then 4096 else end % 4096 in
      let first = memcpy frames (frame 0) (start % 4096) bytes 0 (4096 - start % 4096) in
      let size : last ≡ end - (start / 4096 * 4096 + 4096) = ground arith in
      let apart = mapped.distinct 0 1 (omega arith) (omega arith) in
      rw
        (
          two,
          f0,
          f1,
          memcpy_into first (frame 1) 0 bytes (4096 - start % 4096 + 0 * 4096) last o,
          memcpy_beside frames (frame 0) (start % 4096) bytes 0 (4096 - start % 4096) (frame 1) o
              (λ e. apart (sym e)),
          size,
        )
        (agrees bytes 0 (end - (start / 4096 * 4096 + 4096)) (4096 - start % 4096 + 0 * 4096) start
          end (start / 4096 * 4096 + 1 * 4096 + o) o (frames (frame 1) o)
          (λ (a, b). (omega arith, omega arith), λ (a, b). (omega arith, omega arith))
          (λ h. omega arith))
