-- ===== src/ZoneTable.antt =====
-- The table of the zones that were opened: transfer_zone and create_zone of libs/zone.c.
pub mod Create
use flow_scanner.Prelude.{
  ℕ, zero, suc, ◌+◌, ◌-◌, ◌*◌, ◌/◌, ◌%◌, ◌^◌, ◌≤◌, ◌<◌, ◌≡◌, ◌≢◌, ◌↔◌, refl, sym, ap, ◌∙◌, Bool,
  true, false, arith, tests, ltb, leb, ◌==◌, ◌⊎◌, if◌then◌else◌, Bool-cases, inl, inr, ◌&&◌, ◌||◌,
  not, ==_iff, ne→==, lt→ltb, le→leb, lt→leb, add64, sub64, Option, some, none, List, [], ◌∷◌, ◌++◌,
  some_eq, Option-cases,
}
use flow_scanner.Disassemble.{Stats}

-- The timestamp is left out.
pub record OpenZone : Type 0 where
  pub bytes : ℕ → ℕ
  pub uid : ℕ
  pub ptid : ℕ
  pub tid : ℕ
  pub start : ℕ
  pub end : ℕ
  pub stats : Stats

pub record ZoneHashNode : Type 0 where
  pub pid : ℕ
  pub zone : OpenZone

pub record ZoneTable : Type 0 where
  pub zone_hash_table : ℕ → List ZoneHashNode
  pub total_zones_size : ℕ
  pub tot_num_of_zones : ℕ

-- What the functions read of `current`.
pub record Task : Type 0 where
  pub tgid : ℕ
  pub pid : ℕ
  pub parent_pid : ℕ
  pub uid : ℕ

-- Whether the three allocations succeed: the zone, its data, the node.
pub record Allocations : Type 0 where
  pub zone : Bool
  pub bytes : Bool
  pub node : Bool

unfoldable pub all_allocated : Allocations → Bool
all_allocated allocations = allocations.zone && allocations.bytes && allocations.node

-- `memset(&zone->stats, -1, ...)` without statistics.
unfoldable pub stats_or_unknown : Option Stats → Stats
stats_or_unknown (some stats) = stats
stats_or_unknown none = record {
  num_of_control_instructions = 255;
  num_of_arithmetic_instructions = 255;
  num_of_logical_instructions = 255;
  num_of_data_transfer_instructions = 255;
  num_of_system_instructions = 255;
  num_of_miscellaneous_instructions = 255;
  num_of_vex_or_evex_instructions = 255;
}

unfoldable pub new_zone : Task → (ℕ → ℕ) → (start end : ℕ) → Option Stats → OpenZone
new_zone task bytes start end stats = record {
  bytes = bytes;
  uid = task.uid;
  ptid = task.parent_pid;
  tid = task.pid;
  start = start;
  end = end;
  stats = stats_or_unknown stats;
}

-- `bucket_of` is hash_min, the bucket of a pid.
unfoldable pub add_zone : (bucket_of : ℕ → ℕ) → ZoneTable → Task → OpenZone → (size : ℕ) → ZoneTable
add_zone bucket_of table task zone size = record {
  zone_hash_table = λ b.
      if b == bucket_of task.tgid
      then record { pid = task.tgid; zone = zone } ∷ table.zone_hash_table b
      else table.zone_hash_table b;
  total_zones_size = add64 table.total_zones_size size;
  tot_num_of_zones = add64 table.tot_num_of_zones 1;
}

unfoldable pub transfer_zone :
    (bucket_of : ℕ → ℕ)
    → ZoneTable
    → Task
    → Allocations
    → (ℕ → ℕ)
    → (start end : ℕ) → Option Stats
    → ZoneTable × Option OpenZone
transfer_zone bucket_of table task allocations bytes start end stats =
    let zone = new_zone task bytes start end stats in
    if (start == 0 || end == 0) || ltb end start || not (all_allocated allocations)
    then (table, none)
    else (add_zone bucket_of table task zone (sub64 end start), some zone)

-- `end_offset` of create_zone.
unfoldable pub end_offset : (end num_pages : ℕ) → ℕ
end_offset end num_pages =
    if end % 4096 == 0 then num_pages * 4096 else end % 4096 + (num_pages - 1) * 4096

-- `bytes` is none for a null pointer; `is_zone` is whether it holds the zone alone, and not the
-- pages of the zone.
unfoldable pub create_zone :
    (bucket_of : ℕ → ℕ)
    → ZoneTable
    → Task
    → Allocations
    → Option (ℕ → ℕ)
    → (start end num_pages : ℕ) → (is_zone : Bool) → Option Stats
    → ZoneTable × Option OpenZone
create_zone bucket_of table task allocations none start end num_pages is_zone stats = (table, none)
create_zone bucket_of table task allocations (some bytes) start end num_pages is_zone stats =
    let base_addr = start / 4096 * 4096 in
    let start_offset = start % 4096 in
    let copied : ℕ → ℕ = if is_zone then bytes else (λ o. bytes (start_offset + o)) in
    let zone =
      new_zone task copied (base_addr + start_offset) (base_addr + end_offset end num_pages)
        stats in
    if sub64 end start == 0 || not (all_allocated allocations)
    then (table, none)
    else (add_zone bucket_of table task zone (sub64 end start), some zone)
