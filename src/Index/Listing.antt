-- ===== src/Index/Listing.antt =====
-- cmd/hiveview/assets/lib/app-index.js: `showFileListing`, from the text of the listing to the page that is
-- first shown, and the cells of the table. The parser of a line, `trim`, how texts compare, dates, the
-- percentage of a box and what selectors match are parameters.
pub mod Actions
pub mod Previous
pub mod Selected
pub mod Start
mod Tests
use xrpl_hive.Base.{
  ℕ, zero, suc, ◌+◌, ◌-◌, Bool, true, false, not, ◌&&◌, ◌||◌, List, [], ◌∷◌, ◌++◌, Option, none,
  some, Text, codes, map, ltb, ◌==◌, if◌then◌else◌,
}
use mathlib.Core.Option
use xrpl_hive.Maps.{same, Map, get, or_else}
use xrpl_hive.Viewer.{split_lines}
use xrpl_hive.Index.{Entry, Groups, join, suite_groups, process_client_groups}
use xrpl_hive.Index.Boxes.{Dates, ClientBox, SuiteBox, collect_all}
use xrpl_hive.Index.Filters.{Controls, empty, apply_params}
use xrpl_hive.Index.Summary.{Summary, is_box, display_groups, sort_all_clients}

-- A line of the listing.
pub record Run : Type 0 where
  pub entry : Entry
  pub file_name : Text
  pub timeout : Bool
  pub versions : Map Text

pub drop_empty : List Text → List Text
drop_empty [] = []
drop_empty (l ∷ ls) = let rest = drop_empty ls in if empty l then rest else l ∷ rest

-- The runs for the summary, which has a run in each line, and those for the table, which leaves out lines
-- that are empty; `none` is an error of the parser.
unfoldable pub parse_listing :
    (Text → Text) → (Text → Option Run) → Text → Option (List Run × List Run)
unfolding drop_empty
parse_listing trim parse_line file =
    elim (collect_all parse_line (split_lines (trim file))) as (λ _. Option (List Run × List Run)) [
      | none ↦ none
      | some lines ↦
          elim (collect_all parse_line (drop_empty (split_lines file)))
            as (λ _. Option (List Run × List Run)) [
              | none ↦ none
              | some suites ↦ some (lines, suites)
            ]
    ]

-- `urlParams.get(key) || other`.
abbrev pub param_or : Text → Option Text → Text
param_or other none = other
param_or other (some t) = if empty t then other else t

-- What jQuery makes of the two selectors that the texts of the hash are put into, as they are: the titles
-- that `.suite-box:has(.title:contains('…'))` matches, and the suites and clients of the boxes that
-- `.client-box[data-suite="…"][data-client="…"]` matches; `none` is an error of its parser.
pub record Selectors : Type 0 where
  pub find_suites : Text → Option (Text → Bool)
  pub find_clients : Text → Text → Option (Text → Text → Bool)

-- The boxes that the suite of the hash selects, among those that its selector matches.
abbrev pub select_titles : (Text → Bool) → Text → List SuiteBox → List SuiteBox
select_titles matched suite = map (λ (box : SuiteBox). record box {
  selected = box.selected || (matched box.title && same box.title suite);
})

-- The client boxes that a selector matches.
abbrev pub select_matched : (Text → Text → Bool) → List SuiteBox → List SuiteBox
select_matched matched = map (λ (box : SuiteBox). record box {
  boxes =
      map (λ (c : ClientBox). record c { selected = c.selected || matched c.suite c.client })
        box.boxes;
})

module _ (selectors : Selectors) where
  pub select_boxes : Text → Text → List SuiteBox → Option (List SuiteBox)
  select_boxes suite client boxes =
      elim (selectors.find_suites suite) as (λ _. Option (List SuiteBox)) [
        | none ↦ none
        | some matched ↦
            let titled = select_titles matched suite boxes in
            if empty client
            then some titled
            else elim (selectors.find_clients suite client) as (λ _. Option (List SuiteBox)) [
              | none ↦ none
              | some found ↦ some (select_matched found titled)
            ]
      ]

  pub select_from_hash : Summary → Option Summary
  unfolding select_boxes
  select_from_hash s =
      let suite = param_or [] (get (codes "suite") s.controls.url) in
      let client = param_or [] (get (codes "client") s.controls.url) in
      if empty suite
      then some s
      else Option.map (λ boxes. record s { boxes = boxes }) (select_boxes suite client s.boxes)

-- The page before the boxes are displayed.
abbrev pub start_page : (Text → ℕ) → List Entry → List Entry → Controls → Summary
start_page time lines suites controls =
    let group_by = param_or (codes "suite") (get (codes "group-by") controls.url) in
    record {
      suites = suite_groups time lines;
      clients = process_client_groups time suites;
      boxes = [];
      active =
          if same group_by (codes "suite") || same group_by (codes "client")
          then some group_by
          else none;
      sort_label = codes "Name";
      controls = controls;
    }

module _ (trim : Text → Text) (parse_line : Text → Option Run) (time : Text → ℕ)
    (locale_le : Text → Text → Bool) (dates : Dates) (coverage : ClientBox → ℕ)
    (minus_x_days : Text → Text) (selectors : Selectors) where
  -- The page for the groups of the runs: grouped, sorted and selected by the hash, then the filters of the
  -- hash are applied to the table.
  pub first_page : List Run → List Run → Controls → Option Summary
  unfolding select_from_hash
  first_page lines suites controls =
      let group_by = param_or (codes "suite") (get (codes "group-by") controls.url) in
      let sort = param_or (codes "name") (get (codes "summary-sort") controls.url) in
      let start =
        start_page time (map (λ (r : Run). r.entry) lines) (map (λ (r : Run). r.entry) suites)
          controls in
      elim (display_groups locale_le dates group_by start) as (λ _. Option Summary) [
        | none ↦ none
        | some s ↦
            elim (select_from_hash selectors (sort_all_clients locale_le time coverage sort s))
              as (λ _. Option Summary) [
                | none ↦ none
                | some selected ↦ some (record selected {
                  controls = apply_params minus_x_days selected.controls.url selected.controls;
                })
              ]
      ]

  unfoldable pub show_file_listing : Text → Controls → Option (Summary × List Run)
  unfolding first_page
  show_file_listing file controls =
      elim (parse_listing trim parse_line file) as (λ _. Option (Summary × List Run)) [
        | none ↦ none
        | some (lines, suites) ↦
            elim (first_page lines suites controls) as (λ _. Option (Summary × List Run)) [
              | none ↦ none
              | some s ↦ some (s, suites)
            ]
      ]

-- The clients of a run with their versions, where an empty version is none.
unfoldable pub clients_cell : Run → List (Text × Text)
clients_cell run = map (λ client. (client, or_else [] (get client run.versions))) run.entry.clients

pub data StatusCell : Type 0 where
  fail : ℕ → ℕ → Text → StatusCell
  pass : ℕ → StatusCell

unfoldable pub status_cell : Run → StatusCell
status_cell run =
    if ltb 0 run.entry.fails
    then StatusCell.fail run.entry.passes run.entry.fails
        (if run.timeout then codes "Timeout" else codes "Fail")
    else StatusCell.pass run.entry.passes

-- The difference of the passing tests: `fail-diff` with a minus or `pass-diff` with a plus.
pub data DiffCell : Type 0 where
  no_diff : DiffCell
  fail_diff : ℕ → DiffCell
  pass_diff : ℕ → DiffCell

module _ (time : Text → ℕ) where
  abbrev pub is_earlier : Entry → Entry → Bool
  is_earlier run s =
      same s.name run.name
      && (same (join s.clients) (join run.clients) && ltb (time s.start) (time run.start))

  -- `suites.find`.
  pub previous_run : Entry → List Entry → Option Entry
  previous_run run [] = none
  previous_run run (s ∷ suites) =
      let rest = previous_run run suites in if is_earlier run s then some s else rest

  unfoldable pub diff_cell : List Entry → Entry → DiffCell
  unfolding previous_run
  diff_cell suites run = elim (previous_run run suites) as (λ _. DiffCell) [
    | none ↦ no_diff
    | some prev ↦
        if prev.passes == run.passes
        then no_diff
        else if ltb run.passes prev.passes
        then fail_diff (prev.passes - run.passes)
        else pass_diff (run.passes - prev.passes)
  ]
