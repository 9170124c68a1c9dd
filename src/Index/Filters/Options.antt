-- ===== src/Index/Filters/Options.antt =====
-- cmd/hiveview/assets/lib/app-index.js: the select boxes of the filters, and the search for a client. What
-- `trim` does and how `sort` orders texts are parameters, as are the search data of a column.
pub mod Search
pub mod Added
pub mod Found
pub mod Shown
pub mod Offered
pub mod Restored
mod Tests
use xrpl_hive.Base.{
  ℕ, Bool, true, false, not, List, [], ◌∷◌, ◌++◌, Option, none, some, Text, codes, length, map, ltb,
  ◌==◌, if◌then◌else◌,
}
use xrpl_hive.Maps.{same, Map}
use xrpl_hive.Sorting.{sort_by}
use xrpl_hive.Html.{includes}
use xrpl_hive.Index.{join}
use xrpl_hive.Index.Filters.{Filter, Controls, Drawn, by_key, empty, update, apply}

-- An `option` of a select box.
pub record Choice : Type 0 where
  pub value : Text
  pub label : Text

-- Put a character in front of the first part.
abbrev pub prepend_part : ℕ → List Text → List Text
prepend_part c [] = (c ∷ []) ∷ []
prepend_part c (p ∷ ps) = (c ∷ p) ∷ ps

-- `text.split(',')`.
unfoldable pub split_commas : Text → List Text
split_commas [] = [] ∷ []
split_commas (c ∷ t) =
    let rest = split_commas t in if c == 44 then [] ∷ rest else prepend_part c rest

-- `options.add(text)` on a `Set`, in the order of insertion.
abbrev pub add_option : Text → List Text → List Text
add_option t options = if includes t options then options else options ++ t ∷ []

-- The parts of a search text of the column.
add_parts : (Text → Text) → List Text → List Text → List Text
add_parts trim [] options = options
add_parts trim (p ∷ ps) options =
    let d = trim p in add_parts trim ps (if empty d then options else add_option d options)

pub collect_parts : (Text → Text) → List Text → List Text → List Text
unfolding add_parts split_commas
collect_parts trim [] options = options
collect_parts trim (d ∷ ds) options =
    collect_parts trim ds (add_parts trim (split_commas d) options)

-- The clients of a row, and their combination if they are several.
pub add_clients : List Text → List Text → List Text
add_clients [] options = options
add_clients (c ∷ cs) options = add_clients cs (add_option c options)

pub add_row : List Text → List Text → List Text
unfolding add_clients
add_row clients options =
    let singles = add_clients clients options in
    if ltb 1 (length clients) then add_option (join clients) singles else singles

pub collect_rows : List (List Text) → List Text → List Text
unfolding add_row
collect_rows [] options = options
collect_rows (row ∷ rows) options = collect_rows rows (add_row row options)

abbrev as_choice : Text → Choice
as_choice d = record { value = d; label = d }

-- What `buildSelect` puts into each select box.
abbrev pub show_all : Choice
show_all = record { value = []; label = codes "Show all" }

abbrev pub date_choices : List Choice
date_choices =
    record { value = codes "0"; label = codes "Today" }
    ∷ record { value = codes "1"; label = codes "Yesterday" }
    ∷ record { value = codes "2"; label = codes "2 days ago" }
    ∷ record { value = codes "3"; label = codes "3 days ago" }
    ∷ record { value = codes "4"; label = codes "4 days ago" }
    ∷ record { value = codes "5"; label = codes "5 days ago" }
    ∷ record { value = codes "6"; label = codes "6 days ago" }
    ∷ record { value = codes "7"; label = codes "7 days ago" }
    ∷ []

abbrev pub status_choices : List Choice
status_choices =
    as_choice (codes "PASS") ∷ as_choice (codes "FAIL") ∷ as_choice (codes "TIMEOUT") ∷ []

-- Whether an option has the value.
pub has_value : Text → List Choice → Bool
has_value v [] = false
has_value v (c ∷ cs) = let rest = has_value v cs in if same v c.value then true else rest

-- `select.val(v)`: the option with that value is chosen, or none is.
unfoldable pub set_val : List Choice → Text → Option Text
unfolding has_value
set_val choices v = if has_value v choices then some v else none

-- The filters with their select boxes, and the option that is chosen in each.
pub record Panel : Type 0 where
  pub controls : Controls
  pub choices : Filter → List Choice
  pub chosen : Filter → Option Text

-- `text.includes(',')`.
abbrev pub has_comma : Text → Bool
has_comma [] = false
has_comma (c ∷ t) = let rest = has_comma t in if c == 44 then true else rest

-- `searchData[2].split(',').includes(value)` for one client, and equality for a combination; the search
-- data of a row is the text of its clients.
unfoldable pub row_matches : Text → List Text → Bool
unfolding split_commas
row_matches value clients =
    if has_comma value
    then same (join clients) value
    else includes value (split_commas (join clients))

-- The rows that a custom search leaves in the draw.
unfoldable pub search_client : Text → List (List Text) → List (List Text)
unfolding row_matches
search_client v [] = []
search_client v (row ∷ rows) =
    let rest = search_client v rows in if row_matches v row then row ∷ rest else rest

module _ (minus_x_days trim : Text → Text) (text_le : Text → Text → Bool) where
  unfoldable pub column_options : List Text → List Text
  unfolding collect_parts
  column_options texts = sort_by text_le (collect_parts trim texts [])

  unfoldable pub client_options : List (List Text) → List Text
  unfolding collect_rows
  client_options rows = sort_by text_le (collect_rows rows [])

  -- `build` of each filter, for the search data of the suites' column and the clients of the rows.
  unfoldable pub build_select : List Text → List (List Text) → Filter → List Choice
  unfolding column_options client_options
  build_select suites rows Filter.daysago = show_all ∷ date_choices
  build_select suites rows Filter.suite = show_all ∷ map as_choice (column_options suites)
  build_select suites rows Filter.client = show_all ∷ map as_choice (client_options rows)
  build_select suites rows Filter.status = show_all ∷ status_choices

  -- `f.apply(value)` and `this._selects[f.key()].val(value)`.
  unfoldable pub set_filter : Filter → Text → Panel → Panel
  unfolding set_val
  set_filter f v p = record p {
    controls = apply minus_x_days f v p.controls;
    chosen = update f (set_val (p.choices f) v) p.chosen;
  }

  pub set_params : Map Text → Panel → Panel
  unfolding set_filter by_key
  set_params [] p = p
  set_params ((k, v) ∷ q) p = elim (by_key k) as (λ _. Panel) [
    | none ↦ set_params q p
    | some f ↦ set_params q (set_filter f v p)
  ]

  -- `ColumnFilterSet.build`: the first option of a new select box is chosen, then the filters of the hash
  -- are applied.
  unfoldable pub build : List Text → List (List Text) → Controls → Panel
  unfolding set_params build_select
  build suites rows controls =
      set_params controls.url
        (record { controls = controls; choices = build_select suites rows; chosen = λ f. some [] })

  -- The callback of a select box, for the option that is chosen.
  unfoldable pub choose_option : Filter → Text → Panel → Panel
  choose_option f v p = record p {
    controls = apply minus_x_days f v p.controls;
    chosen = update f (some v) p.chosen;
  }

  -- `ColumnFilterSet.clear`.
  unfoldable pub clear_panel : Panel → Panel
  unfolding set_filter
  clear_panel p =
      set_filter Filter.status []
        (set_filter Filter.client [] (set_filter Filter.suite [] (set_filter Filter.daysago [] p)))
