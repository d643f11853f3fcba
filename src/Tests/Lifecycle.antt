-- ===== src/Tests/Lifecycle.antt =====
-- The theorem on the two ways to make a zone, at a zone on two pages.
use flow_scanner.Prelude.{◌+◌, ◌%◌, ◌≡◌, refl, true, false, arith, if◌then◌else◌, some, none, []}
use flow_scanner.Writers.Copies.{Spans}
use flow_scanner.ZoneTable.{ZoneTable, Task, Allocations, transfer_zone, create_zone}
use flow_scanner.ZoneTable.Create.{create_zone-transfer_zone}

abbrev no_zones : ZoneTable
no_zones = record { zone_hash_table = λ b. []; total_zones_size = 0; tot_num_of_zones = 0 }

abbrev process : Task
process = record { tgid = 7; pid = 8; parent_pid = 1; uid = 5 }

abbrev enough : Allocations
enough = record { zone = true; bytes = true; node = true }

two_pages-Spans : Spans 4196 8292 2
two_pages-Spans = record { nonempty = omega arith; last = refl; at_most_two = omega arith }

create_zone-transfer_zone_example :
    create_zone (λ pid. pid % 16) no_zones process enough (some (λ o. o)) 4196 8292 2 false none
    ≡ transfer_zone
        (λ pid. pid % 16)
        no_zones
        process
        enough
        (if false then (λ o. o) else (λ o. 4196 % 4096 + o))
        4196
        8292
        none
create_zone-transfer_zone_example =
    create_zone-transfer_zone (λ pid. pid % 16) no_zones process enough (λ o. o) 4196 8292 2 false
      none two_pages-Spans (omega arith) (omega arith)
