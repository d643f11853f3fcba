-- ===== src/Writers.antt =====
-- The functions that write zones and pages into the memory of a process: the writers of
-- libs/utils.c.
use flow_scanner.Prelude.{
  ℕ, zero, suc, ◌+◌, ◌-◌, ◌*◌, ◌/◌, ◌%◌, ◌^◌, ◌≤◌, ◌<◌, ◌≡◌, ◌≢◌, ◌↔◌, refl, sym, ap, ◌∙◌, Bool,
  true, false, arith, tests, ltb, leb, ◌==◌, ◌⊎◌, if◌then◌else◌, Bool-cases, inl, inr, ◌&&◌, ◌||◌,
  not, ==_iff, ne→==, lt→ltb, le→leb, lt→leb, Option, some, none, List, [], ◌∷◌, ◌++◌, some_eq,
  Option-cases,
}
use flow_scanner.Prelude.Int.{ℤ, pos, negsuc}
pub mod Fill
pub mod Copies
pub mod Zone
pub mod Whole
pub mod Pins
pub mod Close

-- A kernel buffer: a byte at each offset.
abbrev pub Data : Type 0
Data = ℕ → ℕ

-- The bytes of the page frames, and how many pages `get_user_pages_fast` has taken that no
-- `put_page` has given back.
pub record Pages : Type 0 where
  pub frames : ℕ → ℕ → ℕ
  pub pins : ℕ

-- FOLL_WRITE and FOLL_NOFAULT. FOLL_FORCE and FOLL_GET are always given.
pub record GupFlags : Type 0 where
  pub foll_write : Bool
  pub foll_nofault : Bool

-- What the kernel answers: `get_user_pages_fast` at its first and second call, a count or a
-- negative errno and the frame of each page, none where the entry of the array is NULL; and
-- whether `kmap_local_page` maps a frame.
pub record Kernel : Type 0 where
  pub get_user_pages_fast : (calls page_addr num_pages : ℕ) → GupFlags → ℤ × (ℕ → Option ℕ)
  pub kmap_local_page : ℕ → Bool

-- What the writers read of a vm area.
pub record UserArea : Type 0 where
  pub vm_write : Bool
  pub is_cow_mapping : Bool

abbrev pub efault : ℤ
efault = negsuc 13

abbrev pub eintr : ℤ
eintr = negsuc 3

abbrev pub invalid_one_byte_opcode : ℕ
invalid_one_byte_opcode = 14

unfoldable pub memcpy : (ℕ → ℕ → ℕ) → (frame dst : ℕ) → Data → (src size : ℕ) → ℕ → ℕ → ℕ
memcpy frames frame dst bytes src size f offset =
    if f == frame && leb dst offset && ltb offset (dst + size)
    then bytes (src + (offset - dst))
    else frames f offset

unfoldable pub memset : Data → (from value size : ℕ) → Data
memset bytes from value size offset =
    if leb from offset && ltb offset (from + size) then value else bytes offset

-- The loop that maps the pages from `i` on: the index at which it leaves for the label `error`.
unfoldable pub map_page : Kernel → Option ℕ → Bool
map_page k none = false
map_page k (some frame) = k.kmap_local_page frame

unfoldable pub map_pages : (count i : ℕ) → Kernel → (ℕ → Option ℕ) → Option ℕ
map_pages zero i k pages = none
map_pages (suc count) i k pages =
    let rest = map_pages count (i + 1) k pages in if map_page k (pages i) then rest else some i

-- The frame that a mapped page has.
unfoldable pub frame_of : Option ℕ → ℕ
frame_of none = 0
frame_of (some frame) = frame

-- The pages that a call took.
unfoldable pub taken : ℤ → ℕ
taken (pos n) = n
taken (negsuc n) = 0

unfoldable pub is_count : ℤ → ℕ → Bool
is_count (pos n) num_pages = n == num_pages
is_count (negsuc n) num_pages = false

-- The loop that copies whole pages.
unfoldable pub copy_pages : (count i : ℕ) → (ℕ → ℕ → ℕ) → (ℕ → Option ℕ) → Data → ℕ → ℕ → ℕ
copy_pages zero i frames pages bytes = frames
copy_pages (suc count) i frames pages bytes =
    copy_pages count (i + 1) (memcpy frames (frame_of (pages i)) 0 bytes (i * 4096) 4096) pages
      bytes

unfoldable pub gup_flags : Option UserArea → GupFlags
gup_flags none = record { foll_write = true; foll_nofault = false }
gup_flags (some vma) = record {
  foll_write = not (not vma.vm_write && not vma.is_cow_mapping);
  foll_nofault = false;
}

-- Behind the loops: the mapped pages are put back, by the label `error` only those before the
-- page that failed.
unfoldable pub finish_write : Pages → (num_pages : ℕ) → Option ℕ → (ℕ → ℕ → ℕ) → Pages × ℤ
finish_write s num_pages none written =
    (record { frames = written; pins = s.pins - num_pages }, pos 0)
finish_write s num_pages (some i) written =
    (record { frames = s.frames; pins = s.pins - i }, efault)

unfoldable pub pin : Pages → ℤ → Pages
pin s ret = record { frames = s.frames; pins = s.pins + taken ret }

unfoldable pub write_pages_answered :
    Kernel → Pages → Data → (num_pages : ℕ) → ℤ × (ℕ → Option ℕ) → Pages × ℤ
write_pages_answered k s bytes num_pages (ret, pages) =
    if is_count ret num_pages
    then finish_write (pin s ret) num_pages (map_pages num_pages 0 k pages)
        (copy_pages num_pages 0 s.frames pages bytes)
    else (pin s ret, efault)

unfoldable pub write_pages_on_not_writable_user_pages :
    Kernel → Pages → (user_vaddr : ℕ) → Data → (num_pages : ℕ) → Option UserArea → Pages × ℤ
write_pages_on_not_writable_user_pages k s user_vaddr bytes num_pages vma =
    write_pages_answered k s bytes num_pages
      (k.get_user_pages_fast 0 (user_vaddr / 4096 * 4096) num_pages (gup_flags vma))

-- The copies of a zone. Between the first and the last page, the loop also moves `off`.
unfoldable pub copy_middle : (count j off : ℕ) → (ℕ → ℕ → ℕ) → (ℕ → Option ℕ) → Data → ℕ → ℕ → ℕ
copy_middle zero j off frames pages bytes = frames
copy_middle (suc count) j off frames pages bytes =
    copy_middle count (j + 1) (off + 4096)
      (memcpy frames (frame_of (pages j)) 0 bytes (off + (j - 1) * 4096) 4096) pages bytes

unfoldable pub copy_zone :
    (ℕ → ℕ → ℕ) → (ℕ → Option ℕ) → Data → (start end num_pages : ℕ) → ℕ → ℕ → ℕ
copy_zone frames pages bytes start end num_pages =
    let start_offset = start % 4096 in
    let end_offset = end % 4096 in
    let first = memcpy frames (frame_of (pages 0)) start_offset bytes 0 (4096 - start_offset) in
    let middle = num_pages - 2 in
    let off = 4096 - start_offset in
    let last_size = if end_offset == 0 then 4096 else end_offset in
    if num_pages == 1
    then memcpy frames (frame_of (pages 0)) start_offset bytes 0 (end - start)
    else memcpy (copy_middle middle 1 off first pages bytes) (frame_of (pages (1 + middle))) 0 bytes
        (off + middle * 4096) last_size

unfoldable pub is_eintr : ℤ → Bool
is_eintr (pos n) = false
is_eintr (negsuc n) = n == 3

-- A pass from the label `retry` on, by the answer of `get_user_pages_fast`: its outcome, or none
-- for `goto retry`.
unfoldable pub write_zone_answered :
    Kernel → Pages → Data → (start end num_pages iter : ℕ) → ℤ × (ℕ → Option ℕ) → Pages × Option ℤ
write_zone_answered k s bytes start end num_pages iter (ret, pages) =
    let (done, result) =
      finish_write (pin s ret) num_pages (map_pages num_pages 0 k pages)
        (copy_zone s.frames pages bytes start end num_pages) in
    if is_count ret num_pages
    then (done, some result)
    else (pin s ret, if is_eintr ret && ltb iter 1 then none else some efault)

unfoldable pub write_zone_pass :
    Kernel → Data → (start end num_pages iter : ℕ) → Pages → Pages × Option ℤ
write_zone_pass k bytes start end num_pages iter s =
    let flags : GupFlags = record { foll_write = false; foll_nofault = ltb 0 iter } in
    write_zone_answered k s bytes start end num_pages iter
      (k.get_user_pages_fast iter (start / 4096 * 4096) num_pages flags)

unfoldable pub give_up : Pages × Option ℤ → Pages × ℤ
give_up (s, some ret) = (s, ret)
give_up (s, none) = (s, efault)

unfoldable pub retry_once : (Pages → Pages × Option ℤ) → Pages × Option ℤ → Pages × ℤ
retry_once retry (s, some ret) = (s, ret)
retry_once retry (s, none) = give_up (retry s)

unfoldable pub write_zone_on_not_writable_user_pages :
    Kernel → Pages → Data → (start end num_pages : ℕ) → Pages × ℤ
write_zone_on_not_writable_user_pages k s bytes start end num_pages =
    retry_once (write_zone_pass k bytes start end num_pages 1)
      (write_zone_pass k bytes start end num_pages 0 s)
