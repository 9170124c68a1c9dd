-- ===== src/Suite/Tests.antt =====
-- Runs of the suite page's functions, and an instance of each result.
use xrpl_hive.Base.{ℕ, true, false, [], ◌∷◌, some, Text, codes, ◌≡◌, refl, All, sub_ℕ, pos, arith}
use xrpl_hive.Suite.{
  TestCase, SuiteTimes, test_suite_times, calculate_test_stats, Row, Table, toggle_test_details,
}
use xrpl_hive.Suite.Times.{Within, Among, starts, ends, test_suite_times-Within}
use xrpl_hive.Suite.Selection.{Marked, Toggled, toggle_test_details-Toggled}

abbrev first_code : Text → ℕ
first_code [] = 0
first_code (c ∷ cs) = c

abbrev passed_test : TestCase
passed_test = record { start = codes "3"; end = codes "5"; pass = true; timeout = false }

abbrev late_test : TestCase
late_test = record { start = codes "2"; end = codes "9"; pass = false; timeout = true }

times_run :
    test_suite_times first_code (passed_test ∷ late_test ∷ [])
    ≡ some (record { start = codes "2"; end = codes "9"; duration = pos 7 })
unfolding test_suite_times
times_run = refl

-- A whole second is written without a fraction, and 'Z' comes behind '.': as texts, the earlier date
-- is the later one.
whole_second_run :
    test_suite_times
      (λ _. 0)
      (record { start = codes "10:00:13.5Z"; end = codes "10:00:20Z"; pass = true; timeout = false }
        ∷ record {
          start = codes "10:00:13Z";
          end = codes "10:00:20Z";
          pass = true;
          timeout = false;
        }
        ∷ [])
    ≡ some (record { start = codes "10:00:13.5Z"; end = codes "10:00:20Z"; duration = pos 0 })
unfolding test_suite_times
whole_second_run = refl

test_suite_times-Within_example :
    (times : SuiteTimes) × (test_suite_times first_code (passed_test ∷ late_test ∷ []) ≡ some times)
    × All (Within times.start times.end) (passed_test ∷ late_test ∷ [])
    × Among times.start (starts (passed_test ∷ late_test ∷ []))
    × Among times.end (ends (passed_test ∷ late_test ∷ []))
    × (times.duration ≡ sub_ℕ (first_code times.end) (first_code times.start))
test_suite_times-Within_example = test_suite_times-Within first_code passed_test (late_test ∷ [])

abbrev closed_row : Row
closed_row = record { drawn = true; opened = false; highlighted = false }

abbrev selected_test : Row
selected_test = record { drawn = true; opened = true; highlighted = true }

abbrev table : Table
table = record { rows = closed_row ∷ selected_test ∷ []; hash = some 1 }

table-Marked : All Marked table.rows
table-Marked = ((λ h. h), ((λ _. refl), tt))

toggle_test_details-Toggled_example : Toggled 0 closed_row (toggle_test_details (some 0) 0 table)
unfolding xrpl_hive.Suite.lit
toggle_test_details-Toggled_example =
    toggle_test_details-Toggled (some 0) 0 table closed_row refl refl (omega arith) table-Marked

-- A selected test on another page of the table stays highlighted.
other_page_run :
    (toggle_test_details (some 0) 0 (record {
      rows = closed_row ∷ record { drawn = false; opened = true; highlighted = true } ∷ [];
      hash = some 1;
    })).rows
    ≡ selected_test ∷ record { drawn = false; opened = true; highlighted = true } ∷ []
unfolding toggle_test_details
other_page_run = refl
