-- ===== src/Suite/Page.antt =====
-- cmd/hiveview/assets/lib/app-suite.js: the page of a suite, from its URL to the table of the tests. The
-- browser, what loads come to, and DataTables are parameters; the dates of the tests are valid, and the
-- message of an error is the text behind its first words.
pub mod Loading
mod Tests
use mathlib.Core.Option
use xrpl_hive.Base.{
  ℕ, zero, suc, ◌+◌, Bool, true, false, not, ◌&&◌, List, [], ◌∷◌, ◌++◌, Option, none, some, Text, ℤ,
  sub_ℕ, codes, map, length, take, drop, get_elem?, ltb, ◌==◌, if◌then◌else◌,
}
use xrpl_hive.Maps.{same, Map}
use xrpl_hive.Browser.{Browser, Location}
use xrpl_hive.Routes.{results_root, simulator_log, query_param}
use xrpl_hive.Utils.{format_duration}
use xrpl_hive.Suite.{
  TestCase, SuiteTimes, TestStats, test_suite_times, calculate_test_stats, Row, Table,
  toggle_test_details,
}
use xrpl_hive.Suite.Output.{no_items}
use xrpl_hive.Suite.Details.{
  Test, Case, TestStatus, LogLink, Html, Origin, format_test_status, format_client_logs_list,
}

-- The suite file.
pub record SuiteData : Type 0 where
  pub name : Text
  pub description : Text
  pub sim_log : Text
  pub test_details_log : Text
  pub client_versions : Option (Map Text)
  pub test_cases : Map Test

-- The box with the figures of the suite: the start and the duration as texts, the counts, whether the
-- badge says `Fail`, and the link to the log of the simulator.
pub record Info : Type 0 where
  pub start : Text
  pub duration : Text
  pub stats : TestStats
  pub failed : Bool
  pub simulator_log_url : Text

-- A row of the table, by its cells, and whether it has the class `failed`.
pub record Cells : Type 0 where
  pub name : Text
  pub status : TestStatus
  pub duration : Text
  pub logs : List LogLink
  pub failed : Bool

-- The page. The rows of the table and their states stand in the order of the tests.
pub record SuitePage : Type 0 where
  pub document_title : Text
  pub suite_name : Text
  pub description : Text
  pub clients : Option (Map Text)
  pub info : Option Info
  pub cases : List Case
  pub cells : List Cells
  pub table : Table

pub show_suite_name : Text → SuitePage → SuitePage
show_suite_name name s = record s {
  document_title = name ++ codes " - xrpl hive";
  suite_name = name;
}

pub show_error : Text → SuitePage → SuitePage
show_error message s = record s { description = codes "Error: " ++ message }

-- Client versions that are not empty.
pub given_versions : Map Text → Map Text
given_versions [] = []
given_versions ((k, v) ∷ m) =
    let rest = given_versions m in if no_items v then rest else (k, v) ∷ rest

module _ (parse : Text → ℕ) where
  test_case_duration : TestCase → ℤ
  test_case_duration test = sub_ℕ (parse test.end) (parse test.start)

  pub cases_of : Map Test → List Case
  unfolding test_case_duration
  cases_of tests =
      map
        (λ (t : Text × Test). record {
          test_index = t.0;
          duration = test_case_duration t.1.result;
          test = t.1;
        })
        tests

abbrev given : Option Text → Bool
given none = false
given (some t) = not (no_items t)

-- `findRowByTestIndex`: the first row of the test. An index is a number as it is written.
pub find_row_by_test_index : List Case → Text → Option ℕ
find_row_by_test_index [] index = none
find_row_by_test_index (c ∷ cases) index =
    let rest = find_row_by_test_index cases index in
    if same c.test_index index then some 0 else Option.map suc rest

-- DataTables: the row of no selector, the page that `row.page()` gives and that of the table, and what a
-- turn to a page leaves.
pub record DataTables : Type 0 where
  pub unselected : Option ℕ
  pub row_page : ℕ → Table → ℕ
  pub page : Table → ℕ
  pub turn_to : ℕ → Table → Table

-- `scrollToTest`, but for the scrolling.
unfoldable pub scroll_to_test : DataTables → Text → SuitePage → SuitePage
unfolding find_row_by_test_index
scroll_to_test dt index s = elim (find_row_by_test_index s.cases index) as (λ _. SuitePage) [
  | none ↦ s
  | some i ↦
      let page = dt.row_page i s.table in
      let table = if page == dt.page s.table then s.table else dt.turn_to page s.table in
      record s { table = toggle_test_details dt.unselected i table }
]

-- What the page loads: the file of the suite, and the test to go to.
pub data Request : Type 0 where
  no_suite : Request
  load_suite : Text → Text → Option ℕ → Request

-- What the load comes to: the suite file, or an error.
pub data Loaded : Type 0 where
  success : SuiteData → Loaded
  error : Text → Loaded

module _ (b : Browser) where
  -- The test of the hash `#test-…`, where 0 and what is not a number are none.
  unfoldable pub test_of : Text → Option ℕ
  test_of hash =
      if same (take 5 hash) (codes "test-")
      then elim (b.parse_int (drop 5 hash)) as (λ _. Option ℕ) [
        | none ↦ none
        | some zero ↦ none
        | some (suc n) ↦ some (suc n)
      ]
      else none

  -- The handler of the ready event, for the hash and the parameters of the URL.
  unfoldable pub open_params : Text → (Text → Option Text) → SuitePage → SuitePage × Request
  unfolding show_suite_name show_error test_of
  open_params hash param s =
      let name = param (codes "suitename") in
      let named =
        (if given name
          then elim name as (λ _. SuitePage) [ none ↦ s | some n ↦ show_suite_name n s ]
          else s) in
      elim (param (codes "suiteid")) as (λ _. SuitePage × Request) [
        | none ↦ (show_error (codes "no suite ID in URL") named, no_suite)
        | some file ↦
            if no_items file
            then (show_error (codes "no suite ID in URL") named, no_suite)
            else (named, load_suite (results_root ++ file) file (test_of hash))
      ]

  unfoldable pub open_suite : Location → SuitePage → SuitePage × Request
  unfolding open_params
  open_suite l s = open_params l.hash (query_param b l) s

-- `html` gives the texts as HTML, `locale` a date as a text, `drawn` which rows the first page has.
module _ (b : Browser) (html : Html) (parse : Text → ℕ) (locale : Text → Text)
    (drawn : List Case → List Bool) where
  cells_of : Origin → Case → Cells
  cells_of suite c = record {
    name = c.test.name;
    status = format_test_status c.test.result;
    duration = format_duration b.write c.duration;
    logs = format_client_logs_list b html suite c.test_index c.test.client_info;
    failed = not c.test.result.pass;
  }

  info_of : Text → SuiteData → List TestCase → SuiteTimes → Info
  info_of suite_id file results times =
      let stats = calculate_test_stats results in
      record {
        start = locale times.start;
        duration = format_duration b.write times.duration;
        stats = stats;
        failed = ltb 0 stats.failed;
        simulator_log_url = simulator_log b suite_id file.name (results_root ++ file.sim_log);
      }

  -- The page with the title, the description and the versions of the clients.
  titled_page : SuiteData → SuitePage → SuitePage
  unfolding show_suite_name given_versions
  titled_page file s =
      let versions = Option.map given_versions file.client_versions in
      record (show_suite_name file.name s) {
        description = html.urls_to_links (html.encode file.description);
        clients = elim versions as (λ _. Option (Map Text)) [ none ↦ s.clients | some v ↦ some v ];
      }

  -- The page with the box of figures and the table, for the times of the suite.
  pub loaded_page : Text → SuiteData → SuiteTimes → SuitePage → SuitePage
  unfolding titled_page cells_of info_of cases_of
  loaded_page suite_id file times s =
      let suite : Origin = record {
        suite_id = suite_id;
        name = file.name;
        test_details_log = file.test_details_log;
      } in
      let cases = cases_of parse file.test_cases in
      record (titled_page file s) {
        info = some (info_of suite_id file (map (λ (c : Case). c.test.result) cases) times);
        cases = cases;
        cells = map (cells_of suite) cases;
        table = record {
          rows = map (λ d. record { drawn = d; opened = false; highlighted = false }) (drawn cases);
          hash = s.table.hash;
        };
      }

  -- `showSuiteData`: the page, and whether it comes to its end. It throws where the start of the suite is
  -- undefined.
  unfoldable pub show_suite_data : Text → SuiteData → SuitePage → SuitePage × Bool
  unfolding titled_page loaded_page
  show_suite_data suite_id file s =
      let results = map (λ (c : Case). c.test.result) (cases_of parse file.test_cases) in
      elim (test_suite_times parse results) as (λ _. SuitePage × Bool) [
        | none ↦ (titled_page file s, false)
        | some times ↦ (loaded_page suite_id file times s, true)
      ]

  unfoldable pub suite_loaded : DataTables → Text → Option ℕ → Loaded → SuitePage → SuitePage
  unfolding show_error show_suite_data
  suite_loaded dt suite_id test (error message) s =
      show_error (codes "error fetching " ++ (suite_id ++ (codes ": " ++ message))) s
  suite_loaded dt suite_id test (success file) s =
      let shown = show_suite_data suite_id file s in
      if shown.1
      then elim test as (λ _. SuitePage) [
        | none ↦ shown.0
        | some n ↦ scroll_to_test dt (b.write n) shown.0
      ]
      else shown.0
