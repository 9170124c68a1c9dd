-- ===== src/Index/Boxes.antt =====
-- cmd/hiveview/assets/lib/app-index.js: the boxes of the summary, how they are sorted and selected. A
-- box is what its HTML says. How texts compare, what a time is and how long ago are parameters.
pub mod Display
pub mod Members
pub mod Latest
pub mod Listed
mod Tests
use xrpl_hive.Base.{
  ℕ, zero, suc, ◌+◌, ◌*◌, Bool, true, false, ◌&&◌, List, [], ◌∷◌, ◌++◌, Option, none, some, Text,
  codes, map, ltb, leb, ◌==◌, if◌then◌else◌,
}
use mathlib.Core.List.{reverse}
use xrpl_hive.Sorting.{sort_by}
use xrpl_hive.Maps.{same, Map, set_param}
use xrpl_hive.Index.{Entry, Groups}

-- The class of a history dot by the run before it, which a run without one does not have.
pub data Trend : Type 0 where
  first : Trend
  up : Trend
  down : Trend
  same_ratio : Trend

-- A dot: its trend, and the run that it tells of.
pub record Dot : Type 0 where
  pub trend : Trend
  pub passes : ℕ
  pub fails : ℕ
  pub ago : Text

pub data Status : Type 0 where
  all_failed : Status
  all_passed : Status
  has_failures : Status

-- A client box, with its data attributes and the name that it shows.
pub record ClientBox : Type 0 where
  pub suite : Text
  pub client : Text
  pub time : Text
  pub name : Text
  pub status : Status
  pub passes : ℕ
  pub fails : ℕ
  pub ago : Text
  pub dots : List Dot
  pub selected : Bool

-- A box of a suite or of a client, which its title filters by.
pub record SuiteBox : Type 0 where
  pub by_client : Bool
  pub title : Text
  pub boxes : List ClientBox
  pub selected : Bool

-- The ratios of passes of two runs, compared. A run without tests has the ratio NaN, which is neither
-- more nor less than another.
trend_of : Entry → Entry → Trend
trend_of run prev =
    let total = run.passes + run.fails in
    let prev_total = prev.passes + prev.fails in
    if ltb 0 total && ltb 0 prev_total
    then (if ltb (prev.passes * total) (run.passes * prev_total)
        then up
        else if ltb (run.passes * prev_total) (prev.passes * total)
        then down
        else same_ratio)
    else same_ratio

status_of : Entry → Status
status_of run =
    if run.passes == 0 then all_failed else if run.fails == 0 then all_passed else has_failures

-- What is written of the date that a text parses to: `timeSince`, and the text of the `Date`.
pub record Dates : Type 0 where
  pub ago : Text → Text
  pub text : Text → Text

module _ (dates : Dates) where
  dot_of : Trend → Entry → Dot
  dot_of trend run = record {
    trend = trend;
    passes = run.passes;
    fails = run.fails;
    ago = dates.ago run.start;
  }

  -- The dots of the runs, each with the run behind it.
  dots_of : List Entry → List Dot
  unfolding trend_of dot_of
  dots_of [] = []
  dots_of (run ∷ []) = dot_of first run ∷ []
  dots_of (run ∷ prev ∷ runs) = dot_of (trend_of run prev) run ∷ dots_of (prev ∷ runs)

  -- The box of a group of runs; without a run its latest one is undefined, and the display fails.
  -- `written` is the text of the start.
  box_of : (Text → Text) → Text → Text → Text → List Entry → Option ClientBox
  unfolding dots_of status_of
  box_of written suite client name [] = none
  box_of written suite client name (latest ∷ runs) = some (record {
    suite = suite;
    client = client;
    time = written latest.start;
    name = name;
    status = status_of latest;
    passes = latest.passes;
    fails = latest.fails;
    ago = dates.ago latest.start;
    dots = reverse (dots_of (latest ∷ runs));
    selected = false;
  })

-- A list of results, if none fails.
unfoldable pub collect_all {ℓ κ} :
    {A : Type ℓ} {B : Type κ} → (A → Option B) → List A → Option (List B)
collect_all f [] = some []
collect_all f (x ∷ xs) = elim (f x) [
  | none ↦ none
  | some y ↦ elim (collect_all f xs) [ none ↦ none | some ys ↦ some (y ∷ ys) ]
]

-- `locale_le a b` says that `a.localeCompare(b)` is not positive.
module _ (locale_le : Text → Text → Bool) where
  unfoldable pub by_name {ℓ} : {V : Type ℓ} → Map V → Map V
  by_name = sort_by (λ x y. locale_le x.0 y.0)

  module _ (dates : Dates) where
    pub suite_box : Text × Map (List Entry) → Option SuiteBox
    unfolding box_of by_name collect_all
    suite_box (suite_name, results) =
        elim (collect_all (λ (r : Text × List Entry). box_of dates (λ t. t) suite_name r.0 r.0 r.1)
            (by_name results))
          as (λ _. Option SuiteBox) [
            | none ↦ none
            | some boxes ↦
                some (record {
                  by_client = false;
                  title = suite_name;
                  boxes = boxes;
                  selected = false;
                })
          ]

    unfoldable pub display_suite_groups : Groups → Option (List SuiteBox)
    unfolding suite_box
    display_suite_groups groups = collect_all suite_box (by_name groups)

    -- The entries of the groups of clients have a `Date` as their start.
    pub client_box : Text × Map (List Entry) → Option SuiteBox
    unfolding box_of by_name collect_all
    client_box (client_name, results) =
        elim (collect_all
            (λ (r : Text × List Entry). box_of dates dates.text r.0 client_name r.0 r.1)
            (by_name results))
          as (λ _. Option SuiteBox) [
            | none ↦ none
            | some boxes ↦
                some (record {
                  by_client = true;
                  title = client_name;
                  boxes = boxes;
                  selected = false;
                })
          ]

    unfoldable pub display_client_groups : Groups → Option (List SuiteBox)
    unfolding client_box
    display_client_groups groups = collect_all client_box (by_name groups)
