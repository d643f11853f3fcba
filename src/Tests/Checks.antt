-- ===== src/Tests/Checks.antt =====
-- The theorems on the checks of a zone, at a zone with the signature and a list of two checks.

use flow_scanner.Prelude.{none, ℕ, ◌+◌, ◌-◌, ◌<◌, ◌≡◌, ◌↔◌, refl, arith, ltb, ◌==◌, if◌then◌else◌}
use flow_scanner.Checks.Search.{
  check_shifted, memmem_loop, shellcode, dumb_memmem, check_function_1,
}
use flow_scanner.Decoder.Prefix.{byte}
use flow_scanner.Checks.Registry.{at_least_one, majority, all_or_nothing, run_kernel_check}
use flow_scanner.Checks.Modes.{accepting, rejecting, Answers, run_kernel_check_modes}
use flow_scanner.Checks.Find.{Match}
use flow_scanner.Checks.Windows.{window, room_behind, check_function_1_windows}
use flow_scanner.Tests.Zones.{infected, results, two_checks}

infected-Match : Match infected shellcode 100 (100 + (14 - 11)) 101
unfolding byte
infected-Match = record { from = omega arith; before = omega arith; here = refl }

check_function_1_windows_example : (check_function_1 3 infected 100 5000 5014 ≡ 0) ↔ (
    (i : ℕ) × (i < 3)
    × ((p : ℕ) × Match infected shellcode
          (100 + i)
          (100 + i + (window (5014 - 5000) (room_behind 5014) i - 11))
          p))
check_function_1_windows_example =
    check_function_1_windows 3 infected 100 5000 5014 (omega arith) (omega arith) (omega arith)

results-Answers : Answers results
results-Answers check = ground arith

run_kernel_check_modes_example :
    (run_kernel_check at_least_one results two_checks
      ≡ (if rejecting results two_checks == 0 then 1 else 0))
    × (run_kernel_check majority results two_checks
        ≡ (if ltb (accepting results two_checks) (rejecting results two_checks) then 0 else 1))
    × (run_kernel_check all_or_nothing results two_checks
        ≡ (if rejecting results two_checks == 0 then 0 else 1))
run_kernel_check_modes_example =
    run_kernel_check_modes results two_checks results-Answers (omega arith)

infected_run : check_function_1 3 infected 100 5000 5014 ≡ 0
unfolding check_function_1 check_shifted dumb_memmem memmem_loop byte
infected_run = refl

-- The signature is a match at 101, but only the positions before 101 are tried.
last_position_run : dumb_memmem infected 100 12 shellcode 11 ≡ none
unfolding dumb_memmem memmem_loop byte
last_position_run = refl
