-- ===== src/Suite/Page/Loading.antt =====
-- The page of a suite at the URLs of the viewer, and when the suite is there.
use xrpl_hive.Base.{
  ℕ, zero, suc, ◌<◌, ◌≡◌, ◌≢◌, refl, ap, sym, ◌∙◌, Bool, true, false, List, [], ◌∷◌, ◌++◌, Option,
  none, some, Text, codes, map, get_elem?, get_elem?-map, All, ◌==◌, ==_iff, if◌then◌else◌, arith,
  some_inj, Bool-cases, inl, inr,
}
use mathlib.Core.Path.{subst}
use xrpl_hive.Maps.{same, same_refl, same-≡, Map, get}
use xrpl_hive.Browser.{Browser, location}
use xrpl_hive.Routes.{results_root, suite, test_in_suite, query_param}
use xrpl_hive.Routes.Reading.{location-query_hash}
use xrpl_hive.Suite.{
  TestCase, Row, Table, SuiteTimes, test_suite_times, calculate_test_stats, toggle_test_details,
}
use xrpl_hive.Suite.Selection.{Marked, lit_count, Toggled, toggle_test_details-Toggled}
use xrpl_hive.Suite.Details.{Test, Case, Html}
use xrpl_hive.Suite.Page.{
  SuiteData, SuitePage, show_suite_name, cases_of, find_row_by_test_index, DataTables,
  scroll_to_test, show_suite_data, loaded_page, titled_page, test_of, load_suite, open_params,
  open_suite, success, suite_loaded,
}

open_suite-query :
    (b : Browser) (ps : Map Text) (hash : Text) (s : SuitePage)
    → open_suite b (location ((codes "suite.html?" ++ b.params_text ps) ++ 35 ∷ hash)) s
      ≡ open_params b hash (λ key. get key ps) s
unfolding open_suite query_param
open_suite-query b ps hash s =
    ap (λ l. open_suite b l s)
      (location-query_hash b (codes "suite.html") hash ps (omega arith) (omega arith))
    ∙ ap (λ q. open_params b hash (λ key. get key q) s) (b.read_params_lem ps)

test_of-test :
    (b : Browser) (n : ℕ)
    → n < 9007199254740991
    → test_of b (codes "test-" ++ b.escape (b.write (suc n))) ≡ some (suc n)
unfolding test_of
test_of-test b n m =
    let exact : suc n < 9007199254740992 = omega (arith, m) in
    rw (test_of, b.escape-write (suc n) exact, b.parse_int-write (suc n) exact) refl

open_params_given :
    (b : Browser) (hash : Text) (c d : ℕ) (cs ds : Text) (n : ℕ) (s : SuitePage)
    → test_of b hash ≡ some n
    → open_params b hash
        (λ key. get key ((codes "suiteid", c ∷ cs) ∷ (codes "suitename", d ∷ ds) ∷ []))
        s
      ≡ (show_suite_name (d ∷ ds) s, load_suite (results_root ++ c ∷ cs) (c ∷ cs) (some n))
unfolding open_params
open_params_given b hash c d cs ds n s h =
    ap (λ t. (show_suite_name (d ∷ ds) s, load_suite (results_root ++ c ∷ cs) (c ∷ cs) t)) h

-- A link of the viewer to a test in a suite, with an id and a name that are not empty, where the index is
-- a number that is not 0 and that the browser
-- keeps exact: the page shows the name of the suite and loads its file, to go to that test.
pub open_suite-test_in_suite :
    (b : Browser) (suite_id suite_name : Text) (n : ℕ) (s : SuitePage)
    → suite_id ≢ []
    → suite_name ≢ []
    → 0 < n
    → n < 9007199254740992
    → open_suite b (location (test_in_suite b suite_id suite_name (b.write n))) s
      ≡ (show_suite_name suite_name s, load_suite (results_root ++ suite_id) suite_id (some n))
unfolding test_in_suite suite
open_suite-test_in_suite b [] suite_name n s h k l m = absurd (h refl)
open_suite-test_in_suite b (c ∷ cs) [] n s h k l m = absurd (k refl)
open_suite-test_in_suite b (c ∷ cs) (d ∷ ds) zero s h k l m = absurd (omega (arith, l))
open_suite-test_in_suite b (c ∷ cs) (d ∷ ds) (suc n) s h k l m =
    let hash = codes "test-" ++ b.escape (b.write (suc n)) in
    open_suite-query b ((codes "suiteid", c ∷ cs) ∷ (codes "suitename", d ∷ ds) ∷ []) hash s
    ∙ open_params_given b hash c d cs ds (suc n) s (test_of-test b n (omega (arith, m)))

-- The rows of a new table.
closed_rows : List Bool → List Row
closed_rows = map (λ d. record { drawn = d; opened = false; highlighted = false })

lit_count-closed_rows : (ds : List Bool) → lit_count (closed_rows ds) ≡ 0
unfolding closed_rows xrpl_hive.Suite.lit
lit_count-closed_rows [] = refl
lit_count-closed_rows (d ∷ ds) = ground (arith, lit_count-closed_rows ds)

All-closed_rows : (ds : List Bool) → All Marked (closed_rows ds)
unfolding closed_rows
All-closed_rows [] = tt
All-closed_rows (d ∷ ds) = (λ h. h, All-closed_rows ds)

-- The index of each test, in the order of the suite file.
abbrev pub indices : Map Test → List Text
indices = map (λ t. t.0)

find_row-some :
    (parse : Text → ℕ) (tests : Map Test) (index : Text) (i : ℕ)
    → get_elem? (indices tests) i ≡ some index
    → ((j : ℕ) → j < i → get_elem? (indices tests) j ≢ some index)
    → find_row_by_test_index (cases_of parse tests) index ≡ some i
unfolding find_row_by_test_index cases_of
find_row-some parse [] index i e first = cc
find_row-some parse (t ∷ tests) index zero e first =
    let q : same t.0 index ≡ true = rw (← some_inj e) (same_refl t.0) in rw q refl
find_row-some parse (t ∷ tests) index (suc i) e first = elim (Bool-cases (same t.0 index)) [
  | inl q ↦ absurd (first 0 (omega arith) (ap some (same-≡ t.0 index q)))
  | inr q ↦
      rw (q, find_row-some parse tests index i e (λ j l. first (suc j) (omega (arith, l)))) refl
]

module _ (dt : DataTables) (same_page : (j : ℕ) (t : Table) → dt.row_page j t ≡ dt.page t) where
  scroll_to_test_found :
      (index : Text) (i : ℕ) (s : SuitePage)
      → find_row_by_test_index s.cases index ≡ some i
      → scroll_to_test dt index s ≡ record s { table = toggle_test_details dt.unselected i s.table }
  unfolding scroll_to_test
  scroll_to_test_found index i s h =
      let q : (dt.row_page i s.table == dt.page s.table) ≡ true =
        (==_iff _ _).1 (same_page i s.table) in
      rw (scroll_to_test, h)
        (ap
          (λ x. record s {
            table =
                toggle_test_details dt.unselected i
                  (if x then s.table else dt.turn_to (dt.row_page i s.table) s.table);
          })
          q)

results_of : (Text → ℕ) → Map Test → List TestCase
results_of parse tests = map (λ (c : Case). c.test.result) (cases_of parse tests)

test_suite_times-given :
    (parse : Text → ℕ) (tests : Map Test)
    → tests ≢ []
    → (times : SuiteTimes) × (test_suite_times parse (results_of parse tests) ≡ some times)
unfolding test_suite_times results_of cases_of
test_suite_times-given parse [] h = absurd (h refl)
test_suite_times-given parse (t ∷ tests) h = (_, refl)

module _ (b : Browser) (html : Html) (parse : Text → ℕ) (locale : Text → Text)
    (drawn : List Case → List Bool) (dt : DataTables) where
  abbrev load : Text → Option ℕ → SuiteData → SuitePage → SuitePage
  load suite_id test file s =
      suite_loaded b html parse locale drawn dt suite_id test (success file) s

  suite_loaded-given :
      (suite_id : Text) (file : SuiteData) (n : ℕ) (s : SuitePage) (times : SuiteTimes)
      → test_suite_times parse (results_of parse file.test_cases) ≡ some times
      → load suite_id (some n) file s
        ≡ scroll_to_test dt
            (b.write n)
            (loaded_page b html parse locale drawn suite_id file times s)
  unfolding suite_loaded show_suite_data results_of
  suite_loaded-given suite_id file n s times e =
      ap (λ r. if r.1 then scroll_to_test dt (b.write n) r.0 else r.0)
        (ap
          (λ o. elim o as (λ _. SuitePage × Bool) [
            | none ↦ (titled_page b html parse locale drawn file s, false)
            | some t ↦ (loaded_page b html parse locale drawn suite_id file t s, true)
          ])
          e)

  -- A suite with tests has come, and the hash is of a test: the one of the suite file whose index is that
  -- number, and the first such. Its row is on the page of the table that is shown, and the page that
  -- DataTables gives for a row is that of the table. Then the row is open, the only one on the page that is
  -- highlighted, and the test of the hash; the title is the suite's.
  pub suite_loaded-Toggled :
      (suite_id : Text) (file : SuiteData) (n i : ℕ) (s : SuitePage)
      → file.test_cases ≢ []
      → get_elem? (indices file.test_cases) i ≡ some (b.write n)
      → ((j : ℕ) → j < i → get_elem? (indices file.test_cases) j ≢ some (b.write n))
      → get_elem? (drawn (cases_of parse file.test_cases)) i ≡ some true
      → ((j : ℕ) (t : Table) → dt.row_page j t ≡ dt.page t)
      → (let s' = suite_loaded b html parse locale drawn dt suite_id (some n) (success file) s in
          Toggled i (record { drawn = true; opened = false; highlighted = false }) s'.table
          × (s'.document_title ≡ file.name ++ codes " - xrpl hive"))
  unfolding loaded_page titled_page show_suite_name closed_rows
  suite_loaded-Toggled suite_id file n i s ne e first d same_page =
      let (times, t) = test_suite_times-given parse file.test_cases ne in
      let page = loaded_page b html parse locale drawn suite_id file times s in
      let shown = drawn (cases_of parse file.test_cases) in
      let row : Row = record { drawn = true; opened = false; highlighted = false } in
      let q =
        suite_loaded-given suite_id file n s times t
        ∙ scroll_to_test_found dt same_page (b.write n) i page
            (find_row-some parse file.test_cases (b.write n) i e first) in
      (
        subst (Toggled i row) (ap (λ (p : SuitePage). p.table) (sym q)) (
            toggle_test_details-Toggled dt.unselected i page.table row
              (get_elem?-map (λ d. record { drawn = d; opened = false; highlighted = false }) shown
                  i
                ∙ rw d refl)
              refl (omega (arith, lit_count-closed_rows shown)) (All-closed_rows shown)),
        ap (λ (p : SuitePage). p.document_title) q,
      )

  suite_loaded-untimed :
      (suite_id : Text) (file : SuiteData) (test : Option ℕ) (s : SuitePage)
      → file.test_cases ≡ []
      → load suite_id test file s ≡ titled_page b html parse locale drawn file s
  unfolding suite_loaded show_suite_data test_suite_times cases_of results_of
  suite_loaded-untimed suite_id file test s h =
      ap
        (λ r.
          if r.1
          then (elim test as (λ _. SuitePage) [
            | none ↦ r.0
            | some n ↦ scroll_to_test dt (b.write n) r.0
          ])
          else r.0)
        (ap
          (λ tests.
            elim (test_suite_times parse (results_of parse tests)) as (λ _. SuitePage × Bool) [
              | none ↦ (titled_page b html parse locale drawn file s, false)
              | some t ↦ (loaded_page b html parse locale drawn suite_id file t s, true)
            ])
          h)

  -- A suite without tests has come: the title, the description and the versions of the clients are set, and
  -- nothing else, since the page throws at the start of the suite.
  pub suite_loaded_empty :
      (suite_id : Text) (file : SuiteData) (test : Option ℕ) (s : SuitePage)
      → file.test_cases ≡ []
      → (let s' = suite_loaded b html parse locale drawn dt suite_id test (success file) s in
          (s'.document_title ≡ file.name ++ codes " - xrpl hive")
          × (s'.description ≡ html.urls_to_links (html.encode file.description))
          × (s'.info ≡ s.info)
          × (s'.cases ≡ s.cases)
          × (s'.table ≡ s.table))
  unfolding titled_page show_suite_name
  suite_loaded_empty suite_id file test s h =
      let q = suite_loaded-untimed suite_id file test s h in
      (
        ap (λ (p : SuitePage). p.document_title) q,
        ap (λ (p : SuitePage). p.description) q,
        ap (λ (p : SuitePage). p.info) q,
        ap (λ (p : SuitePage). p.cases) q,
        ap (λ (p : SuitePage). p.table) q,
      )
