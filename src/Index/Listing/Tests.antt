-- ===== src/Index/Listing/Tests.antt =====
-- A listing of two runs of a suite, and an instance of the result.
use xrpl_hive.Base.{
  ℕ, ◌==◌, ◌||◌, ◌&&◌, if◌then◌else◌, List, [], ◌∷◌, Option, none, some, Text, codes, Bool, true,
  false, ◌≡◌, refl, arith,
}
use xrpl_hive.Index.{Entry}
use xrpl_hive.Index.Tests.{digit}
use xrpl_hive.Maps.{same}
use xrpl_hive.Index.Boxes.{Dates}
use xrpl_hive.Index.Listing.{Selectors, Run, parse_listing, diff_cell, fail_diff, first_page}
use xrpl_hive.Index.Filters.{Controls}
use xrpl_hive.Index.Summary.{Summary}
use xrpl_hive.Index.Listing.Previous.{IsPrevious, Compares, diff_cell-Compares}

abbrev sync_run : Text → ℕ → Entry
sync_run start passes = record {
  name = codes "sync";
  clients = codes "a" ∷ [];
  start = start;
  passes = passes;
  fails = 0;
}

abbrev sync_runs : List Entry
sync_runs = sync_run (codes "2") 3 ∷ sync_run (codes "1") 5 ∷ []

diff_cell_run : diff_cell digit sync_runs (sync_run (codes "2") 3) ≡ fail_diff 2
unfolding diff_cell xrpl_hive.Index.join
diff_cell_run = refl

-- A parser that takes a line that is not empty for a run.
abbrev pub parse_text : Text → Option Run
parse_text [] = none
parse_text (c ∷ t) =
    some (record { entry = sync_run (c ∷ t) 1; file_name = []; timeout = true; versions = [] })

-- The listing of a page without runs is an error.
no_runs_run : parse_listing (λ t. t) parse_text [] ≡ none
unfolding parse_listing xrpl_hive.Viewer.split_lines xrpl_hive.Index.Boxes.collect_all
no_runs_run = refl

diff_cell-Compares_example :
    (prev : Option Entry) × IsPrevious digit (sync_run (codes "2") 3) sync_runs prev
    × Compares digit
        (sync_run (codes "2") 3)
        prev
        (diff_cell digit sync_runs (sync_run (codes "2") 3))
diff_cell-Compares_example =
    diff_cell-Compares digit (sync_run (codes "2") 3) sync_runs ((omega arith, tt), (tt, tt))

abbrev listed : Run
listed = record { entry = sync_run (codes "1") 1; file_name = []; timeout = false; versions = [] }

-- The hash that a click on the box of the run leaves.
abbrev pub clicked : Controls
clicked = record {
  values = λ _. none;
  columns = λ _. none;
  searches = [];
  drawn = record { columns = λ _. none; custom = [] };
  url = (codes "suite", codes "sync") ∷ (codes "client", codes "a") ∷ [];
  notice = false;
}

abbrev pub no_dates : Dates
no_dates = record { ago = λ t. t; text = λ t. t }

abbrev one_of : ℕ → Text → Bool
one_of c [] = false
one_of c (d ∷ t) = d == c || one_of c t

abbrev pub always : Text → Text → Bool
always a b = true

-- A parser of selectors that refuses a single quote.
abbrev pub selectors : Selectors
selectors = record {
  find_suites = λ t. if one_of 39 t then none else some (λ title. true);
  find_clients = λ suite client. some (λ s c. same s suite && same c client);
}

-- The page for a suite with a quote in the hash ends with an error.
quote_run :
    first_page
      (λ t. t)
      parse_text
      digit
      always
      no_dates
      (λ c. 100)
      (λ t. t)
      selectors
      (listed ∷ [])
      (listed ∷ [])
      (record clicked { url = (codes "suite", codes "it's") ∷ [] })
    ≡ none
unfolding first_page xrpl_hive.Index.Summary.display_groups
    xrpl_hive.Index.Boxes.display_suite_groups xrpl_hive.Sorting.sort_by
    xrpl_hive.Index.suite_groups xrpl_hive.Index.join xrpl_hive.Index.Summary.sort_all_clients
    xrpl_hive.Maps.set_param
quote_run = refl
