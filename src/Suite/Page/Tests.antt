-- ===== src/Suite/Page/Tests.antt =====
-- A page of a suite with one test, and an instance of each result.
use xrpl_hive.Base.{
  ℕ, ◌≡◌, refl, Bool, true, false, List, [], ◌∷◌, ◌++◌, none, some, Text, codes, map, arith,
}
use xrpl_hive.Browser.{location}
use xrpl_hive.Browser.Example.{example_browser}
use xrpl_hive.Routes.{results_root, test_in_suite}
use xrpl_hive.Suite.{Table}
use xrpl_hive.Suite.Selection.{Toggled}
use xrpl_hive.Suite.Details.{Html, Case}
use xrpl_hive.Suite.Page.{
  SuiteData, SuitePage, show_suite_name, DataTables, load_suite, open_suite, success, suite_loaded,
}
use xrpl_hive.Suite.Page.Loading.{open_suite-test_in_suite, suite_loaded-Toggled}

abbrev same_text : Text → Text
same_text t = t

abbrev plain_html : Html
plain_html = record {
  encode = same_text;
  urls_to_links = same_text;
  sanitize = same_text;
  trim = same_text;
}

abbrev digit : Text → ℕ
digit [] = 0
digit (c ∷ t) = c

abbrev all_drawn : List Case → List Bool
all_drawn = map (λ _. true)

-- A table of one page, which gives its first row for no selector.
abbrev one_page : DataTables
one_page = record { unselected = some 0; row_page = λ _ _. 0; page = λ _. 0; turn_to = λ _ t. t }

abbrev blank : SuitePage
blank = record {
  document_title = [];
  suite_name = [];
  description = [];
  clients = none;
  info = none;
  cases = [];
  cells = [];
  table = record { rows = []; hash = none };
}

abbrev empty_file : SuiteData
empty_file = record {
  name = codes "sync";
  description = codes "finds peers";
  sim_log = codes "1.log";
  test_details_log = codes "2.log";
  client_versions = none;
  test_cases = [];
}

abbrev one_test : SuiteData
one_test = record empty_file {
  test_cases =
      (
        2 ∷ [],
        record {
          name = codes "peers";
          description = [];
          result = record { start = codes "1"; end = codes "2"; pass = true; timeout = false };
          details = none;
          log = none;
          client_info = none;
        },
      )
      ∷ [];
}

open_suite-test_in_suite_example :
    open_suite example_browser
      (location
        (test_in_suite example_browser (codes "1.json") (codes "sync") (example_browser.write 1)))
      blank
    ≡ (
      show_suite_name (codes "sync") blank,
      load_suite (results_root ++ codes "1.json") (codes "1.json") (some 1),
    )
open_suite-test_in_suite_example =
    open_suite-test_in_suite example_browser (codes "1.json") (codes "sync") 1 blank (λ e. cc)
      (λ e. cc) (omega arith) (omega arith)

suite_loaded-Toggled_example :
    (let s' =
        suite_loaded example_browser plain_html digit same_text all_drawn one_page
          (codes "1.json")
          (some 1)
          (success one_test)
          blank in
      Toggled 0 (record { drawn = true; opened = false; highlighted = false }) s'.table
      × (s'.document_title ≡ codes "sync" ++ codes " - xrpl hive"))
unfolding example_browser xrpl_hive.Suite.Page.cases_of
suite_loaded-Toggled_example =
    suite_loaded-Toggled example_browser plain_html digit same_text all_drawn one_page
      (codes "1.json") one_test 1 0 blank (λ e. cc) refl (λ j l. absurd (omega (arith, l))) refl
      (λ j t. refl)
