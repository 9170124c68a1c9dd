-- ===== src/Routes.antt =====
-- cmd/hiveview/assets/lib/routes.js: the URLs of the viewer's own pages.
pub mod Reading
use xrpl_hive.Base.{
  ℕ, List, [], ◌∷◌, ◌++◌, Option, none, some, Text, codes, ◌==◌, if◌then◌else◌, Bool, true, false,
}
use xrpl_hive.Browser.{Browser, Location}
use xrpl_hive.Maps.{Map, get, set_param}

abbrev pub results_root : Text
results_root = codes "results/"

-- `logOffsets`, the bytes of a log that belong to a test.
pub record LogOffsets : Type 0 where
  pub begin : ℕ
  pub end : ℕ

module _ (b : Browser) where
  unfoldable pub simulator_log : Text → Text → Text → Text
  simulator_log suite_id suite_name file =
      let params =
        (codes "suiteid", suite_id) ∷ (codes "suitename", suite_name) ∷ (codes "file", file) ∷ [] in
      codes "viewer.html?" ++ b.params_text params

  unfoldable pub test_log : Text → Text → Text → Text
  test_log suite_id suite_name test_index =
      let params =
        (codes "suiteid", suite_id)
        ∷ (codes "suitename", suite_name)
        ∷ (codes "testid", test_index)
        ∷ (codes "showtestlog", codes "1")
        ∷ [] in
      codes "viewer.html?" ++ b.params_text params

  add_offsets : Option LogOffsets → Map Text → Map Text
  unfolding set_param
  add_offsets none params = params
  add_offsets (some o) params =
      set_param (codes "end") (b.write o.end) (set_param (codes "begin") (b.write o.begin) params)

  unfoldable pub client_log : Text → Text → Text → Text → Option LogOffsets → Text
  unfolding add_offsets
  client_log suite_id suite_name test_index file log_offsets =
      let params =
        (codes "suiteid", suite_id)
        ∷ (codes "suitename", suite_name)
        ∷ (codes "testid", test_index)
        ∷ (codes "file", file)
        ∷ [] in
      codes "viewer.html?" ++ b.params_text (add_offsets log_offsets params)

  unfoldable pub suite : Text → Text → Text
  suite suite_id suite_name =
      let params = (codes "suiteid", suite_id) ∷ (codes "suitename", suite_name) ∷ [] in
      codes "suite.html?" ++ b.params_text params

  unfoldable pub test_in_suite : Text → Text → Text → Text
  unfolding suite
  test_in_suite suite_id suite_name test_index =
      suite suite_id suite_name ++ (codes "#test-" ++ b.escape test_index)

  -- `queryParam` of utils.js, on the page at a location.
  unfoldable pub query_param : Location → Text → Option Text
  query_param l key = get key (b.read_params l.search)
