-- ===== src/Index.antt =====
-- cmd/hiveview/assets/lib/app-index.js: the runs of the listing, grouped by suite and by client. The
-- time that a date stands for is a parameter.
pub mod Recent
pub mod Groups
pub mod Filters
pub mod Since
pub mod Boxes
pub mod Summary
pub mod Listing
mod Tests
use xrpl_hive.Base.{
  ℕ, Bool, true, false, List, [], ◌∷◌, ◌++◌, Option, none, some, Text, take, leb, ltb, ◌==◌, ◌&&◌,
  if◌then◌else◌,
}
use xrpl_hive.Maps.{same, Map, get, put, ensure, update_values}

-- A line of the listing, with what the page reads of it.
pub record Entry : Type 0 where
  pub name : Text
  pub clients : List Text
  pub start : Text
  pub passes : ℕ
  pub fails : ℕ

-- Runs by two keys.
abbrev pub Groups : Type 0
Groups = Map (Map (List Entry))

-- `runs.push(entry)` on the runs of a group, which is made first if it is missing. The maps and the
-- arrays are shared, so what is pushed stands in the outer map.
pub push_run : Text → Text → Entry → Groups → Groups
push_run outer inner entry groups =
    let groups' = ensure outer [] groups in
    elim (get outer groups') [
      | none ↦ groups'
      | some group ↦
          let group' = ensure inner [] group in
          elim (get inner group') [
            | none ↦ put outer group' groups'
            | some runs ↦ put outer (put inner (runs ++ entry ∷ []) group') groups'
          ]
    ]

-- `texts.join(',')`.
pub join : List Text → Text
join [] = []
join (t ∷ []) = t
join (t ∷ u ∷ ts) = t ++ 44 ∷ join (u ∷ ts)

pub collect_suites : List Entry → Groups → Groups
unfolding push_run
collect_suites [] groups = groups
collect_suites (entry ∷ entries) groups =
    collect_suites entries (push_run entry.name (join entry.clients) entry groups)

pub push_clients : List Text → Entry → Groups → Groups
unfolding push_run
push_clients [] entry groups = groups
push_clients (client ∷ clients) entry groups =
    push_clients clients entry (push_run client entry.name entry groups)

pub collect_clients : List Entry → Groups → Groups
collect_clients [] groups = groups
collect_clients (entry ∷ entries) groups =
    collect_clients entries (push_clients entry.clients entry groups)

-- The sort is stable: an entry stands in front of the later ones with the same start.
insert_run : (Text → ℕ) → Entry → List Entry → List Entry
insert_run time e [] = e ∷ []
insert_run time e (x ∷ xs) =
    if leb (time x.start) (time e.start) then e ∷ x ∷ xs else x ∷ insert_run time e xs

unfoldable pub sort_runs : (Text → ℕ) → List Entry → List Entry
unfolding insert_run
sort_runs time [] = []
sort_runs time (e ∷ es) = insert_run time e (sort_runs time es)

unfoldable pub recent_runs : (Text → ℕ) → List Entry → List Entry
unfolding sort_runs
recent_runs time runs = take 5 (sort_runs time runs)

sort_and_limit : (Text → ℕ) → Groups → Groups
unfolding recent_runs
sort_and_limit time groups = update_values (update_values (recent_runs time)) groups

-- The suite groups of `showFileListing`.
unfoldable pub suite_groups : (Text → ℕ) → List Entry → Groups
unfolding collect_suites sort_and_limit
suite_groups time entries = sort_and_limit time (collect_suites entries [])

unfoldable pub process_client_groups : (Text → ℕ) → List Entry → Groups
unfolding collect_clients sort_and_limit
process_client_groups time entries = sort_and_limit time (collect_clients entries [])
