-- ===== src/Writers/Fill.antt =====
-- The functions of libs/zone.c that close and restore zones: close_outer_zone, close_inner_zone
-- and restore_zone_bytes.
use flow_scanner.Prelude.{
  ℕ, zero, suc, ◌+◌, ◌-◌, ◌*◌, ◌/◌, ◌%◌, Bool, ltb, leb, ◌==◌, if◌then◌else◌, ◌&&◌, ◌||◌, not,
  Option, some, none,
}
use flow_scanner.Prelude.Int.{ℤ, pos, negsuc}
use flow_scanner.Writers.{
  Data, Pages, Kernel, UserArea, invalid_one_byte_opcode, memset,
  write_pages_on_not_writable_user_pages, write_zone_on_not_writable_user_pages,
}

abbrev pub failure : ℤ
failure = negsuc 0

-- Whether the two first checks of the closing functions let [start, end) pass.
unfoldable pub is_zone : (start end : ℕ) → Bool
is_zone start end = not (start == 0 || end == 0) && ltb start end

unfoldable pub status_of : Pages × ℤ → Pages × ℤ
status_of (s, pos zero) = (s, pos 0)
status_of (s, pos (suc n)) = (s, failure)
status_of (s, negsuc n) = (s, failure)

-- `kmalloc` is whether the buffer is allocated.
unfoldable pub outer_bytes : Data → (start end num_pages : ℕ) → Data
outer_bytes bytes start end num_pages =
    let start_offset = start % 4096 in
    let end_offset = end % 4096 + (num_pages - 1) * 4096 in
    let size = num_pages * 4096 in
    memset (memset bytes 0 invalid_one_byte_opcode start_offset) end_offset invalid_one_byte_opcode
      (size - end_offset)

unfoldable pub close_outer_zone :
    Kernel
    → Pages
    → (kmalloc : Bool) → Data
    → (start end num_pages : ℕ) → Option UserArea
    → Pages × ℤ
close_outer_zone k s kmalloc bytes start end num_pages vma =
    if is_zone start end && kmalloc
    then status_of (
        write_pages_on_not_writable_user_pages k s (start / 4096 * 4096)
          (outer_bytes bytes start end num_pages) num_pages vma)
    else (s, failure)

unfoldable pub close_inner_zone :
    Kernel → Pages → (kmalloc : Bool) → (start end num_pages : ℕ) → Pages × ℤ
close_inner_zone k s kmalloc start end num_pages =
    if is_zone start end && kmalloc
    then status_of (
        write_zone_on_not_writable_user_pages k s (λ _. invalid_one_byte_opcode) start end
          num_pages)
    else (s, failure)

abbrev pub all_invalid_one_byte_opcode : ℤ
all_invalid_one_byte_opcode = negsuc 1

-- `bytes` is none for a null pointer.
unfoldable pub restore_zone_bytes :
    Kernel → Pages → (bytes : Option Data) → (start end num_pages : ℕ) → Pages × ℤ
restore_zone_bytes k s none start end num_pages = (s, failure)
restore_zone_bytes k s (some bytes) start end num_pages =
    if leb end start
    then (s, failure)
    else (if bytes 0 == invalid_one_byte_opcode
        then (s, all_invalid_one_byte_opcode)
        else status_of (write_zone_on_not_writable_user_pages k s bytes start end num_pages))
