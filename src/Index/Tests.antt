-- ===== src/Index/Tests.antt =====
-- Runs of the grouping, and an instance of each result.
use xrpl_hive.Base.{ℕ, List, [], ◌∷◌, none, some, Text, codes, ◌≡◌, refl}
use xrpl_hive.Index.{Entry, suite_groups, process_client_groups, recent_runs, sort_runs, Groups}
use xrpl_hive.Index.Groups.{look, suite_groups-runs_of_suite, process_client_groups-runs_of_client}

-- A date that is written by a single digit.
abbrev pub digit : Text → ℕ
digit [] = 0
digit (c ∷ cs) = c

abbrev run : Text → List Text → Text → Entry
run name clients start = record {
  name = name;
  clients = clients;
  start = start;
  passes = 1;
  fails = 0;
}

abbrev pub listing : List Entry
listing =
    run (codes "sync") (codes "a" ∷ codes "b" ∷ []) (codes "1")
    ∷ run (codes "rpc") (codes "a" ∷ []) (codes "2")
    ∷ run (codes "sync") (codes "a" ∷ codes "b" ∷ []) (codes "3")
    ∷ []

abbrev both_syncs : List Entry
both_syncs =
    run (codes "sync") (codes "a" ∷ codes "b" ∷ []) (codes "3")
    ∷ run (codes "sync") (codes "a" ∷ codes "b" ∷ []) (codes "1")
    ∷ []

suite_groups_run : look (codes "sync") (codes "a,b") (suite_groups digit listing) ≡ some both_syncs
unfolding suite_groups recent_runs sort_runs xrpl_hive.Index.join
suite_groups_run = refl

process_client_groups_run :
    look (codes "b") (codes "sync") (process_client_groups digit listing) ≡ some both_syncs
unfolding process_client_groups recent_runs sort_runs xrpl_hive.Index.push_clients
process_client_groups_run = refl

suite_groups-runs_of_suite_example :
    look (codes "sync") (codes "a,b") (suite_groups digit listing)
    ≡ some (
        recent_runs digit (
          run (codes "sync") (codes "a" ∷ codes "b" ∷ []) (codes "1")
          ∷ run (codes "sync") (codes "a" ∷ codes "b" ∷ []) (codes "3")
          ∷ []))
unfolding xrpl_hive.Index.join
suite_groups-runs_of_suite_example =
    suite_groups-runs_of_suite digit listing (codes "sync") (codes "a,b")

process_client_groups-runs_of_client_example :
    look (codes "b") (codes "rpc") (process_client_groups digit listing) ≡ none
process_client_groups-runs_of_client_example =
    process_client_groups-runs_of_client digit listing (codes "b") (codes "rpc")
