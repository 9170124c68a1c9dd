-- ===== src/Suite.antt =====
-- cmd/hiveview/assets/lib/app-suite.js: the times and the counts of a suite, and the selection of tests
-- in the table. Which row the table gives for no selector is a parameter.
pub mod Times
pub mod Stats
pub mod Selection
pub mod Output
pub mod Details
pub mod Page
mod Tests
use mathlib.Core.Option
use xrpl_hive.Base.{
  ℕ, zero, suc, ◌+◌, ◌-◌, Bool, true, false, not, ◌&&◌, List, [], ◌∷◌, Option, none, some, Text, ℤ,
  sub_ℕ, get_elem?, set, ltb, ◌==◌, if◌then◌else◌,
}

-- A test case, with what the page reads of it here.
pub record TestCase : Type 0 where
  pub start : Text
  pub end : Text
  pub pass : Bool
  pub timeout : Bool

-- `a < b` on texts, by their code units.
abbrev pub text_lt : Text → Text → Bool
text_lt [] [] = false
text_lt [] (y ∷ ys) = true
text_lt (x ∷ xs) [] = false
text_lt (x ∷ xs) (y ∷ ys) = if x == y then text_lt xs ys else ltb x y

pub record SuiteTimes : Type 0 where
  pub start : Text
  pub end : Text
  pub duration : ℤ

-- The loop of `testSuiteTimes`, with its two variables.
pub widen : List TestCase → Text × Text → Text × Text
widen [] times = times
widen (test ∷ tests) (start, end) = widen tests (
  if text_lt test.start start then test.start else start,
  if text_lt end test.end then test.end else end,
)

-- `testSuiteTimes`, where 0 is `none`. The dates are kept as they are written.
unfoldable pub test_suite_times : (Text → ℕ) → List TestCase → Option SuiteTimes
unfolding widen
test_suite_times parse [] = none
test_suite_times parse (test ∷ tests) =
    let times = widen tests (test.start, test.end) in
    some
      (record { start = times.0; end = times.1; duration = sub_ℕ (parse times.1) (parse times.0) })

pub record TestStats : Type 0 where
  pub passed : ℕ
  pub failed : ℕ
  pub timeouts : ℕ

count_test : TestStats → TestCase → TestStats
count_test stats test =
    if test.pass
    then record stats { passed = stats.passed + 1 }
    else (let stats' = record stats { failed = stats.failed + 1 } in
        if test.timeout then record stats' { timeouts = stats.timeouts + 1 } else stats')

pub count_tests : List TestCase → TestStats → TestStats
unfolding count_test
count_tests [] stats = stats
count_tests (test ∷ tests) stats = count_tests tests (count_test stats test)

unfoldable pub calculate_test_stats : List TestCase → TestStats
unfolding count_tests
calculate_test_stats cases = count_tests cases (record { passed = 0; failed = 0; timeouts = 0 })

-- A row of the table: whether it is on the page that is shown, whether its details are open, and
-- whether it and its details are highlighted.
pub record Row : Type 0 where
  pub drawn : Bool
  pub opened : Bool
  pub highlighted : Bool

-- The rows, and the test in the hash of the URL, by its row.
pub record Table : Type 0 where
  pub rows : List Row
  pub hash : Option ℕ

update_row : ℕ → (Row → Row) → List Row → List Row
update_row i f [] = []
update_row zero f (r ∷ rs) = f r ∷ rs
update_row (suc i) f (r ∷ rs) = r ∷ update_row i f rs

-- The first row for `#execresults tr.dt-hasChild.highlighted`: only the drawn rows are in the document,
-- and an open row has the class of the first part.
pub lit : Row → Bool
lit r = r.drawn && (r.opened && r.highlighted)

selected_row : List Row → Option ℕ
unfolding lit
selected_row [] = none
selected_row (r ∷ rs) = let rest = selected_row rs in if lit r then some 0 else Option.map suc rest

close : Bool → Row → Row
close close_details r = record r {
  opened = if close_details then false else r.opened;
  highlighted = false;
}

deselect_test : ℕ → Bool → Table → Table
unfolding update_row close
deselect_test i close_details t = record {
  rows = update_row i (close close_details) t.rows;
  hash = none;
}

-- `unselected` is the row that `table.row(undefined)` is.
select_test : Option ℕ → ℕ → Table → Table
unfolding selected_row deselect_test
select_test unselected i t =
    let found = elim (selected_row t.rows) as (λ _. Option ℕ) [
      | none ↦ unselected
      | some j ↦ some j
    ] in
    let t' = elim found as (λ _. Table) [ none ↦ t | some j ↦ deselect_test j false t ] in
    record { rows = update_row i (λ r. record r { highlighted = true }) t'.rows; hash = some i }

unfoldable pub toggle_test_details : Option ℕ → ℕ → Table → Table
unfolding select_test
toggle_test_details unselected i t = elim (get_elem? t.rows i) as (λ _. Table) [
  | none ↦ t
  | some row ↦
      if row.opened
      then (if not row.highlighted then select_test unselected i t else deselect_test i true t)
      else select_test unselected i
          (record t { rows = update_row i (λ r. record r { opened = true }) t.rows })
]
