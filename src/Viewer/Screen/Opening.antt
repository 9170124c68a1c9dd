-- ===== src/Viewer/Screen/Opening.antt =====
-- The viewer opened at a URL of routes.js: what it loads, and where its link leads.
use xrpl_hive.Base.{
  ◌<◌, ◌≡◌, ◌≢◌, refl, ap, ◌∙◌, [], ◌∷◌, ◌++◌, Option, none, some, Text, codes, arith,
}
use mathlib.Core.Option
use xrpl_hive.Browser.{Browser, location}
use xrpl_hive.Maps.{Map, get}
use xrpl_hive.Routes.{
  results_root, LogOffsets, simulator_log, test_log, client_log, suite, test_in_suite, query_param,
}
use xrpl_hive.Routes.Reading.{location-query}
use xrpl_hive.Viewer.{ByteRange}
use xrpl_hive.Viewer.Screen.{
  Screen, Link, Request, suite_request, file_request, ready, open_page, byte_range_of,
}

-- The offsets are numbers that the browser keeps exact.
abbrev pub Exact : Option LogOffsets → Type 0
Exact none = Unit
Exact (some o) = (o.begin < 9007199254740992) × (o.end < 9007199254740992)

abbrev pub byte_range : LogOffsets → ByteRange
byte_range o = record { begin = o.begin; end = o.end }

-- The link back to a test.
abbrev pub back_to_test : Browser → Text → Text → Text → Link
back_to_test b suite_id suite_name test_index = record {
  url = test_in_suite b suite_id suite_name test_index;
  text =
      codes "Back to test " ++ (test_index ++ (codes " in suite ‘" ++ (suite_name ++ codes "’")));
}

module _ (b : Browser) (example : Text) (s : Screen) where
  ready_query :
      (ps : Map Text)
      → ready b example (location (codes "viewer.html?" ++ b.params_text ps)) s
        ≡ open_page b example [] (λ key. get key ps) s
  unfolding ready query_param
  ready_query ps =
      ap (λ l. ready b example l s)
        (location-query b (codes "viewer.html") ps (omega arith) (omega arith))
      ∙ ap (λ q. open_page b example [] (λ key. get key q) s) (b.read_params_lem ps)

  byte_range_of-write :
      (o : LogOffsets)
      → Exact (some o)
      → byte_range_of b (some (b.write o.begin)) (some (b.write o.end)) ≡ some (byte_range o)
  unfolding byte_range_of
  byte_range_of-write o h =
      rw (byte_range_of, b.parse_int-write o.begin h.0, b.parse_int-write o.end h.1) refl

-- What the viewer opens by a page's handler: a request, and the link back to a test.
abbrev pub Opens : Screen × Request → Request → Link → Type 0
Opens opened request back = (opened.1 ≡ request) × (opened.0.link_back ≡ some back)

Opens-eq :
    {opened opened' : Screen × Request} (request : Request) (back : Link)
    → opened ≡ opened'
    → Opens opened' request back
    → Opens opened request back
Opens-eq request back e (p, q) = (ap (λ o. o.1) e ∙ p, ap (λ o. o.0.link_back) e ∙ q)

-- The viewer at a URL of `testLog` loads the suite's file to show the test, and links back to it.
pub ready-test_log :
    (b : Browser) (example suite_id suite_name test_index : Text) (s : Screen)
    → suite_id ≢ []
    → test_index ≢ []
    → Opens
        (ready b example (location (test_log b suite_id suite_name test_index)) s)
        (suite_request (results_root ++ suite_id) test_index 0)
        (back_to_test b suite_id suite_name test_index)
unfolding test_log open_page
ready-test_log b example [] suite_name test_index s h k = absurd (h refl)
ready-test_log b example (c ∷ cs) suite_name [] s h k = absurd (k refl)
ready-test_log b example (c ∷ cs) suite_name (d ∷ ds) s h k =
    let ps =
      (codes "suiteid", c ∷ cs)
      ∷ (codes "suitename", suite_name)
      ∷ (codes "testid", d ∷ ds)
      ∷ (codes "showtestlog", codes "1")
      ∷ [] in
    Opens-eq (suite_request (results_root ++ c ∷ cs) (d ∷ ds) 0)
      (back_to_test b (c ∷ cs) suite_name (d ∷ ds)) (ready_query b example s ps) (refl, refl)

-- The viewer at a URL of `clientLog` loads the log, with the bytes of the test if they are given and
-- exact numbers, and links back to the test.
pub ready-client_log :
    (b : Browser) (example suite_id suite_name test_index file : Text) (offsets : Option LogOffsets)
    (s : Screen)
    → suite_id ≢ []
    → test_index ≢ []
    → file ≢ []
    → Exact offsets
    → Opens
        (ready b example (location (client_log b suite_id suite_name test_index file offsets)) s)
        (file_request file 0 (Option.map byte_range offsets))
        (back_to_test b suite_id suite_name test_index)
unfolding client_log open_page
ready-client_log b example [] suite_name test_index file offsets s h k l x = absurd (h refl)
ready-client_log b example (c ∷ cs) suite_name [] file offsets s h k l x = absurd (k refl)
ready-client_log b example (c ∷ cs) suite_name (d ∷ ds) [] offsets s h k l x = absurd (l refl)
ready-client_log b example (c ∷ cs) suite_name (d ∷ ds) (e ∷ es) none s h k l x =
    let ps =
      (codes "suiteid", c ∷ cs)
      ∷ (codes "suitename", suite_name)
      ∷ (codes "testid", d ∷ ds)
      ∷ (codes "file", e ∷ es)
      ∷ [] in
    Opens-eq (file_request (e ∷ es) 0 none) (back_to_test b (c ∷ cs) suite_name (d ∷ ds))
      (ready_query b example s ps) (refl, refl)
ready-client_log b example (c ∷ cs) suite_name (d ∷ ds) (e ∷ es) (some o) s h k l x =
    let ps =
      (codes "suiteid", c ∷ cs)
      ∷ (codes "suitename", suite_name)
      ∷ (codes "testid", d ∷ ds)
      ∷ (codes "file", e ∷ es)
      ∷ (codes "begin", b.write o.begin)
      ∷ (codes "end", b.write o.end)
      ∷ [] in
    Opens-eq (file_request (e ∷ es) 0 (some (byte_range o)))
      (back_to_test b (c ∷ cs) suite_name (d ∷ ds)) (ready_query b example s ps)
      (ap (file_request (e ∷ es) 0) (byte_range_of-write b example s o x), refl)

-- The viewer at a URL of `simulatorLog` loads the log, and links back to the suite.
pub ready-simulator_log :
    (b : Browser) (example suite_id suite_name file : Text) (s : Screen)
    → suite_id ≢ []
    → file ≢ []
    → Opens
        (ready b example (location (simulator_log b suite_id suite_name file)) s)
        (file_request file 0 none)
        (record {
          url = suite b suite_id suite_name;
          text = codes "Back to test suite ‘" ++ (suite_name ++ codes "’");
        })
unfolding simulator_log open_page
ready-simulator_log b example [] suite_name file s h k = absurd (h refl)
ready-simulator_log b example (c ∷ cs) suite_name [] s h k = absurd (k refl)
ready-simulator_log b example (c ∷ cs) suite_name (d ∷ ds) s h k =
    let ps =
      (codes "suiteid", c ∷ cs) ∷ (codes "suitename", suite_name) ∷ (codes "file", d ∷ ds) ∷ [] in
    Opens-eq (file_request (d ∷ ds) 0 none) _ (ready_query b example s ps) (refl, refl)
