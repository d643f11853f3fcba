-- ===== src/Tests/Writers.antt =====
-- The theorems on the writers, at a zone on two pages.

use flow_scanner.Prelude.{
  ℕ, ◌+◌, ◌-◌, ◌*◌, ◌<◌, ◌≡◌, refl, Bool, true, false, arith, ltb, leb, ◌==◌, if◌then◌else◌, ◌&&◌,
  ◌||◌, not, some, none,
}
use flow_scanner.Prelude.Int.{pos}
use flow_scanner.Writers.{
  Data, Pages, Kernel, efault, map_page, map_pages, gup_flags,
  write_zone_on_not_writable_user_pages,
}
use flow_scanner.Writers.Fill.{close_outer_zone, close_inner_zone, restore_zone_bytes}
use flow_scanner.Writers.Copies.{Mapped, Spans, zone_byte}
use flow_scanner.Writers.Zone.{first_flags, Writable, write_zone_on_not_writable_user_pages_writes}
use flow_scanner.Writers.Pins.{write_zone_on_not_writable_user_pages_leaks}
use flow_scanner.Writers.Close.{
  kept_end, close_outer_zone_writes, close_inner_zone-restore_zone_bytes,
}

-- Frames 7 and 8; frame 8 can be made impossible to map.
abbrev kernel : Bool → Kernel
kernel maps_8 = record {
  get_user_pages_fast = λ calls page_addr num_pages flags. (pos num_pages, λ i. some (7 + i));
  kmap_local_page = λ frame. maps_8 || not (frame == 8);
}

abbrev before : Pages
before = record { frames = λ frame offset. 200; pins = 0 }

abbrev code : Data
code offset = offset + 100

abbrev frames_7_8 : ℕ → ℕ
frames_7_8 i = 7 + i

both-Mapped : Mapped (kernel true) (λ i. some (7 + i)) 2 frames_7_8
both-Mapped = record {
  found = λ i h. refl;
  maps = λ i h. refl;
  distinct = λ i j h l e. absurd (omega (arith, e));
}

first-Writable : Writable (kernel true) 4096 2 first_flags (λ i. some (7 + i)) frames_7_8
first-Writable = record { answer = refl; mapped = both-Mapped }

whole-Writable : Writable (kernel true) 4096 2 (gup_flags none) (λ i. some (7 + i)) frames_7_8
whole-Writable = record { answer = refl; mapped = both-Mapped }

two-Spans : Spans 4196 8292 2
two-Spans = record { nonempty = omega arith; last = refl; at_most_two = omega arith }

write_zone_on_not_writable_user_pages_writes_example :
    ((write_zone_on_not_writable_user_pages (kernel true) before code 4196 8292 2).1 ≡ pos 0)
    × ((write_zone_on_not_writable_user_pages (kernel true) before code 4196 8292 2).0.pins ≡ 0)
    × ((write_zone_on_not_writable_user_pages (kernel true) before code 4196 8292 2).0.frames
          (frames_7_8 1)
          50
        ≡ zone_byte code 4196 8292 1 50 200)
write_zone_on_not_writable_user_pages_writes_example =
    write_zone_on_not_writable_user_pages_writes (kernel true) before code 4196 8292 2
      (λ i. some (7 + i)) frames_7_8 first-Writable 1 50 two-Spans (omega arith) (omega arith)

write_zone_on_not_writable_user_pages_leaks_example :
    (write_zone_on_not_writable_user_pages (kernel false) before code 4196 8292 2
      ≡ (record { frames = before.frames; pins = 0 + (2 - 1) }, efault))
    × (0 < 2 - 1)
unfolding map_pages map_page
write_zone_on_not_writable_user_pages_leaks_example =
    write_zone_on_not_writable_user_pages_leaks (kernel false) before code 4196 8292 2
      (λ i. some (7 + i)) 1 refl refl

close_outer_zone_writes_example :
    ((close_outer_zone (kernel true) before true code 4196 8292 2 none).1 ≡ pos 0)
    × ((close_outer_zone (kernel true) before true code 4196 8292 2 none).0.frames (frames_7_8 1) 50
        ≡ (if leb 4196 (4096 + 1 * 4096 + 50) && ltb (4096 + 1 * 4096 + 50) (kept_end 8292)
            then code (1 * 4096 + 50)
            else 14))
close_outer_zone_writes_example =
    close_outer_zone_writes (kernel true) before code 4196 8292 2 none (λ i. some (7 + i))
      frames_7_8 whole-Writable two-Spans (omega arith) 1 50 (omega arith) (omega arith)

close_inner_zone-restore_zone_bytes_example :
    ((close_inner_zone (kernel true) before true 4196 8292 2).1 ≡ pos 0)
    × ((restore_zone_bytes
          (kernel true)
          (close_inner_zone (kernel true) before true 4196 8292 2).0
          (some code)
          4196
          8292
          2).1
        ≡ pos 0)
    × ((restore_zone_bytes
            (kernel true)
            (close_inner_zone (kernel true) before true 4196 8292 2).0
            (some code)
            4196
            8292
            2).0.frames
          (frames_7_8 1)
          50
        ≡ zone_byte code 4196 8292 1 50 200)
close_inner_zone-restore_zone_bytes_example =
    close_inner_zone-restore_zone_bytes (kernel true) before code 4196 8292 2 (λ i. some (7 + i))
      frames_7_8 first-Writable two-Spans (omega arith) 1 50 (omega arith) (omega arith)
      (λ e. absurd (omega (arith, e)))
