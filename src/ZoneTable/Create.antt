-- ===== src/ZoneTable/Create.antt =====
-- The two ways to make a zone agree.
use flow_scanner.Prelude.{
  ℕ, ◌+◌, ◌*◌, ◌/◌, ◌%◌, ◌<◌, ◌≡◌, refl, Bool, false, arith, ltb, ◌==◌, if◌then◌else◌, ne→==, sub64,
  IsU64, Option, some,
}
use flow_scanner.Disassemble.{Stats}
use flow_scanner.Writers.Copies.{Spans}
use flow_scanner.ZoneTable.{ZoneTable, Task, Allocations, transfer_zone, create_zone, end_offset}

-- The start and the end that create_zone puts together are those it was given.
start_again : (start : ℕ) → start / 4096 * 4096 + start % 4096 ≡ start
start_again start = omega arith

end_again :
    (start end num_pages : ℕ)
    → Spans start end num_pages
    → start / 4096 * 4096 + end_offset end num_pages ≡ end
unfolding end_offset
end_again start end num_pages spans = let n = spans.nonempty in let l = spans.last in ground arith

size_nonzero : (start end : ℕ) → start < end → IsU64 end → (sub64 end start == 0) ≡ false
size_nonzero start end below fits = ne→== (sub64 end start) 0 (λ e. absurd (omega (arith, e)))

module _ (bucket_of : ℕ → ℕ) (table : ZoneTable) (task : Task) (allocations : Allocations)
    (bytes : ℕ → ℕ) (start end num_pages : ℕ) (is_zone : Bool) (stats : Option Stats) where
  -- For a zone that ends on the last of its one or two pages and does not start at 0, create_zone
  -- does what transfer_zone does with the bytes of the zone: those given if they are a zone, those
  -- from the start of the zone on if they are its pages. Both register the same zone, or none if an
  -- allocation fails.
  pub create_zone-transfer_zone :
      Spans start end num_pages
      → 0 < start
      → IsU64 end
      → create_zone bucket_of table task allocations (some bytes) start end num_pages is_zone stats
        ≡ transfer_zone bucket_of table task allocations
            (if is_zone then bytes else (λ o. bytes (start % 4096 + o)))
            start
            end
            stats
  unfolding create_zone transfer_zone
  create_zone-transfer_zone spans nonzero fits =
      let n = spans.nonempty in
      let s0 : (start == 0) ≡ false = ne→== start 0 (λ e. absurd (omega (arith, e))) in
      let e0 : (end == 0) ≡ false = ne→== end 0 (λ e. absurd (omega (arith, e))) in
      let order : ltb end start ≡ false = ground arith in
      rw
        (
          start_again start,
          end_again start end num_pages spans,
          size_nonzero start end n fits,
          s0,
          e0,
          order,
        )
        refl
