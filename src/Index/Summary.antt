-- ===== src/Index/Summary.antt =====
-- cmd/hiveview/assets/lib/app-index.js: the summary as it is used: sorted, grouped, and walked by keys
-- and clicks, with the filters of the table. A click is what its handler does; the names of suites and
-- clients have no quotes, which would end the attribute or the selector that they stand in.
pub mod Navigation
pub mod Clicks
pub mod Moves
pub mod Sorted
mod Tests
use xrpl_hive.Base.{
  ℕ, zero, suc, ◌+◌, ◌-◌, Bool, true, false, not, ◌&&◌, ◌||◌, List, [], ◌∷◌, ◌++◌, Option, none,
  some, Text, codes, map, concat, length, get_elem?, ltb, leb, ◌==◌, if◌then◌else◌,
}
use mathlib.Core.Option
use xrpl_hive.Sorting.{sort_by}
use xrpl_hive.Maps.{same, set_param}
use xrpl_hive.Index.{Groups}
use xrpl_hive.Index.Boxes.{Dates, ClientBox, SuiteBox, display_suite_groups, display_client_groups}
use xrpl_hive.Index.Filters.{Filter, Controls, apply, clear}

-- The page: the processed data, the boxes, the active button of the grouping, the label of the sort,
-- and the filters with the URL.
pub record Summary : Type 0 where
  pub suites : Groups
  pub clients : Groups
  pub boxes : List SuiteBox
  pub active : Option Text
  pub sort_label : Text
  pub controls : Controls

abbrev pub set_url : Text → Text → Controls → Controls
set_url key value c = record c { url = set_param key value c.url }

-- The order of `sortAllClients`: `coverage` is the percentage that a box shows, as `parseInt` reads it,
-- which is a number where every box has tests.
module _ (locale_le : Text → Text → Bool) (time : Text → ℕ) (coverage : ClientBox → ℕ) where
  pub box_le : Text → ClientBox → ClientBox → Bool
  box_le sort a b =
      if same sort (codes "name")
      then locale_le a.client b.client
      else if same sort (codes "coverage")
      then leb (coverage b) (coverage a)
      else if same sort (codes "time")
      then leb (time b.time) (time a.time)
      else true

  sort_label_of : Text → Text → Text
  sort_label_of sort label =
      if same sort (codes "name")
      then codes "Name"
      else if same sort (codes "coverage")
      then codes "Coverage"
      else if same sort (codes "time")
      then codes "Time"
      else label

  unfoldable pub sort_all_clients : Text → Summary → Summary
  unfolding box_le sort_label_of
  sort_all_clients sort s = record s {
    boxes =
        map (λ (box : SuiteBox). record box { boxes = sort_by (box_le sort) box.boxes }) s.boxes;
    controls = set_url (codes "summary-sort") sort s.controls;
    sort_label = sort_label_of sort s.sort_label;
  }

-- `displayGroups`; `none` is an error for a group without runs.
module _ (locale_le : Text → Text → Bool) (dates : Dates) where
  unfoldable pub display_groups : Text → Summary → Option Summary
  display_groups group_by s =
      Option.map (λ boxes. record s { boxes = boxes })
        (if same group_by (codes "suite")
          then display_suite_groups locale_le dates s.suites
          else display_client_groups locale_le dates s.clients)

  unfoldable pub toggle_grouping : Text → Summary → Option Summary
  unfolding display_groups
  toggle_grouping group_by s =
      let button = same group_by (codes "suite") || same group_by (codes "client") in
      display_groups group_by (record s {
        active = if button then some group_by else none;
        controls = set_url (codes "group-by") group_by s.controls;
      })

-- Selection by the handlers of clicks.
pub select_suites : Text → List SuiteBox → List SuiteBox
select_suites title = map (λ (box : SuiteBox). record box { selected = same box.title title })

abbrev pub is_box : Text → Text → ClientBox → Bool
is_box suite client box = same box.suite suite && same box.client client

pub select_clients : (ClientBox → Bool) → List SuiteBox → List SuiteBox
select_clients chosen = map (λ (box : SuiteBox). record box {
  boxes = map (λ (c : ClientBox). record c { selected = chosen c }) box.boxes;
})

-- A new set of filters, with no values, on the same table and URL; the set of the page keeps its own.
abbrev pub with_new_filters : (Controls → Controls) → Controls → Controls
with_new_filters change c =
    let c' = change (record c { values = λ _. none }) in record c' { values = c.values }

module _ (minus_x_days : Text → Text) where
  unfoldable pub filter_suite : Text → Summary → Summary
  unfolding select_suites select_clients
  filter_suite suite_name s = record s {
    boxes = select_suites suite_name (select_clients (λ _. false) s.boxes);
    controls =
        with_new_filters
          (λ c. apply minus_x_days Filter.client [] (apply minus_x_days Filter.suite suite_name c))
          s.controls;
  }

  unfoldable pub filter_suite_and_client : Text → Text → Summary → Summary
  unfolding select_suites select_clients
  filter_suite_and_client suite_name client_key s = record s {
    boxes = select_suites suite_name (select_clients (is_box suite_name client_key) s.boxes);
    controls =
        with_new_filters
          (λ c.
            apply minus_x_days Filter.client client_key
              (apply minus_x_days Filter.suite suite_name c))
          s.controls;
  }

  unfoldable pub filter_client : Text → Summary → Summary
  unfolding select_suites select_clients
  filter_client client_name s = record s {
    boxes = select_suites client_name (select_clients (λ _. false) s.boxes);
    controls =
        with_new_filters
          (λ c. apply minus_x_days Filter.suite [] (apply minus_x_days Filter.client client_name c))
          s.controls;
  }

  -- The button that clears the filters.
  unfoldable pub clear_filters : Summary → Summary
  unfolding select_clients
  clear_filters s = record s {
    boxes =
        map (λ (box : SuiteBox). record box { selected = false })
          (select_clients (λ _. false) s.boxes);
    controls = clear minus_x_days s.controls;
  }

-- A key that is pressed: whether the focus is on an input, and Ctrl or Cmd.
pub record KeyEvent : Type 0 where
  pub key : Text
  pub typing : Bool
  pub cmd : Bool

-- What a key does: it clicks the clear button, the box or the title of an index, changes the grouping,
-- goes to the search input, or nothing.
pub data Action : Type 0 where
  nothing : Action
  click_clear : Action
  click_box : ℕ → Action
  click_title : ℕ → Action
  group_by : Text → Action
  focus_search : Action

abbrev pub first_true : List Bool → Option ℕ
first_true [] = none
first_true (b ∷ bs) = if b then some 0 else Option.map suc (first_true bs)

-- The next index from the first that is selected, if it is one.
unfoldable pub next_index : Bool → List Bool → Option ℕ
next_index back flags = elim (first_true flags) as (λ _. Option ℕ) [
  | none ↦ if back then none else if ltb 0 (length flags) then some 0 else none
  | some i ↦
      if back
      then (if ltb 0 i then some (i - 1) else none)
      else (if ltb (i + 1) (length flags) then some (i + 1) else none)
]

abbrev pub client_boxes : List SuiteBox → List ClientBox
client_boxes boxes = concat (map (λ (box : SuiteBox). box.boxes) boxes)

abbrev act : (ℕ → Action) → Option ℕ → Action
act click none = nothing
act click (some i) = click i

-- The `switch` of the key handler. Enter clicks a button that no box has.
unfoldable pub on_key : KeyEvent → Summary → Action
unfolding next_index
on_key e s =
    let clients = map (λ (c : ClientBox). c.selected) (client_boxes s.boxes) in
    let suites = map (λ (box : SuiteBox). box.selected) s.boxes in
    let grouped = elim s.active as (λ _. Bool) [ none ↦ false | some g ↦ same g (codes "suite") ] in
    if e.typing
    then nothing
    else if same e.key (codes "Escape")
    then click_clear
    else if same e.key (codes "ArrowLeft") || same e.key (codes "ArrowRight")
    then (if e.cmd
        then act click_box (next_index (same e.key (codes "ArrowLeft")) clients)
        else nothing)
    else if same e.key (codes "ArrowUp") || same e.key (codes "ArrowDown")
    then (if e.cmd
        then act click_title (next_index (same e.key (codes "ArrowUp")) suites)
        else nothing)
    else if same e.key (codes "g")
    then (if e.cmd then group_by (if grouped then codes "client" else codes "suite") else nothing)
    else if same e.key (codes "/")
    then focus_search
    else nothing

-- What a key does to the page; `none` is an error of the display.
module _ (locale_le : Text → Text → Bool) (dates : Dates) (minus_x_days : Text → Text) where
  click_title_of : SuiteBox → Summary → Summary
  click_title_of box s =
      if box.by_client
      then filter_client minus_x_days box.title s
      else filter_suite minus_x_days box.title s

  do_action : Action → Summary → Option Summary
  unfolding click_title_of
  do_action nothing s = some s
  do_action click_clear s = some (clear_filters minus_x_days s)
  do_action (click_box i) s = elim (get_elem? (client_boxes s.boxes) i) as (λ _. Option Summary) [
    | none ↦ some s
    | some c ↦ some (filter_suite_and_client minus_x_days c.suite c.client s)
  ]
  do_action (click_title i) s = elim (get_elem? s.boxes i) as (λ _. Option Summary) [
    | none ↦ some s
    | some box ↦ some (click_title_of box s)
  ]
  do_action (group_by g) s = toggle_grouping locale_le dates g s
  do_action focus_search s = some s

  unfoldable pub press_key : KeyEvent → Summary → Option Summary
  unfolding do_action
  press_key e s = do_action (on_key e s) s
