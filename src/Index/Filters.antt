-- ===== src/Index/Filters.antt =====
-- cmd/hiveview/assets/lib/app-index.js: the filters of the table and the hash of the URL. How a date
-- is written, and what the table does to draw, are parameters or left out: a draw is what it searches.
pub mod Agree
pub mod Draws
pub mod Options
pub mod Pattern
mod Tests
use xrpl_hive.Base.{
  ℕ, Bool, true, false, not, ◌&&◌, ◌||◌, List, [], ◌∷◌, ◌++◌, Option, none, some, Text, codes, ◌==◌,
  if◌then◌else◌,
}
use xrpl_hive.Maps.{same, Map, get, delete_param, set_param}

-- The subclasses of `ColumnFilter`, in the order of the columns.
pub data Filter : Type 0 where
  daysago : Filter
  suite : Filter
  client : Filter
  status : Filter

unfoldable pub key : Filter → Text
key Filter.daysago = codes "daysago"
key Filter.suite = codes "suite"
key Filter.client = codes "client"
key Filter.status = codes "status"

abbrev pub same_filter : Filter → Filter → Bool
same_filter Filter.daysago Filter.daysago = true
same_filter Filter.suite Filter.suite = true
same_filter Filter.client Filter.client = true
same_filter Filter.status Filter.status = true
same_filter _ _ = false

-- `byKey`.
pub by_key : Text → Option Filter
unfolding key
by_key k =
    if same (key Filter.daysago) k
    then some Filter.daysago
    else (if same (key Filter.suite) k
        then some Filter.suite
        else (if same (key Filter.client) k
            then some Filter.client
            else (if same (key Filter.status) k then some Filter.status else none)))

-- What a draw of the table searches: the columns, and the clients of the custom searches.
pub record Drawn : Type 0 where
  pub columns : Filter → Option Text
  pub custom : List Text

-- The controls: the values of the filters (`none` is undefined), the searches of the table's columns,
-- the stack of custom searches, each by the client that it is for, the last draw, the hash of the URL, and whether the notice is shown.
pub record Controls : Type 0 where
  pub values : Filter → Option Text
  pub columns : Filter → Option Text
  pub searches : List Text
  pub drawn : Drawn
  pub url : Map Text
  pub notice : Bool

abbrev pub empty : Text → Bool
empty [] = true
empty (c ∷ t) = false

abbrev pub update : Filter → Option Text → (Filter → Option Text) → Filter → Option Text
update f v g h = if same_filter h f then v else g h

-- `storeToURL`.
pub store_to_url : Filter → Text → Map Text → Map Text
unfolding key
store_to_url f v p = if empty v then delete_param (key f) p else set_param (key f) v p

abbrev pub is_active : Option Text → Bool
is_active none = false
is_active (some v) = not (empty v)

unfoldable pub filter_changed : (Filter → Option Text) → Bool
filter_changed values =
    is_active (values Filter.daysago)
    || (is_active (values Filter.suite)
        || (is_active (values Filter.client) || is_active (values Filter.status)))

-- A special character of regular expressions: . * + ? ^ $ { } ( ) | [ ] \.
pub special : ℕ → Bool
special c =
    (c == 46 || (c == 42 || (c == 43 || (c == 63 || (c == 94 || (c == 36 || c == 123))))))
    || (c == 125 || (c == 40 || (c == 41 || (c == 124 || (c == 91 || (c == 93 || c == 92))))))

unfoldable pub escape_reg_exp : Text → Text
unfolding special
escape_reg_exp [] = []
escape_reg_exp (c ∷ t) = if special c then 92 ∷ c ∷ escape_reg_exp t else c ∷ escape_reg_exp t

-- `$.fn.dataTable.ext.search.push` and `pop`.
abbrev pub push_search : Text → List Text → List Text
push_search v searches = searches ++ v ∷ []

pub pop_search : List Text → List Text
pop_search [] = []
pop_search (v ∷ []) = []
pop_search (v ∷ w ∷ searches) = v ∷ pop_search (w ∷ searches)

module _ (minus_x_days : Text → Text) where
  pub value_to_reg_exp : Filter → Text → Text
  unfolding escape_reg_exp
  value_to_reg_exp Filter.daysago v = escape_reg_exp (minus_x_days v)
  value_to_reg_exp Filter.suite v = 94 ∷ (escape_reg_exp v ++ 36 ∷ [])
  value_to_reg_exp Filter.client v = escape_reg_exp v
  value_to_reg_exp Filter.status v = escape_reg_exp v

  abbrev pub column_search : Filter → Text → Option Text
  column_search f v = if empty v then none else some (value_to_reg_exp f v)

  -- The end of `apply`. The value is compared with a field that is never set, so it has changed.
  unfoldable pub store_and_notify :
      Filter → Text → (Filter → Option Text) → List Text → Drawn → Controls → Controls
  unfolding store_to_url filter_changed
  store_and_notify f v columns searches drawn s =
      let values = update f (some v) s.values in
      record {
        values = values;
        columns = columns;
        searches = searches;
        drawn = drawn;
        url = store_to_url f v s.url;
        notice = filter_changed values;
      }

  unfoldable pub apply_column : Filter → Text → Controls → Controls
  unfolding store_and_notify value_to_reg_exp
  apply_column f v s =
      let columns = update f (column_search f v) s.columns in
      store_and_notify f v columns s.searches (record { columns = columns; custom = s.searches }) s

  -- `ClientFilter.apply`: the custom search is pushed for its own draw, and popped.
  unfoldable pub apply_client : Text → Controls → Controls
  unfolding store_and_notify pop_search
  apply_client v s =
      let pushed = if empty v then s.searches else push_search v s.searches in
      store_and_notify Filter.client v s.columns (if empty v then s.searches else pop_search pushed)
        (record { columns = s.columns; custom = pushed }) s

  unfoldable pub apply : Filter → Text → Controls → Controls
  unfolding apply_client apply_column
  apply Filter.client v s = apply_client v s
  apply Filter.daysago v s = apply_column Filter.daysago v s
  apply Filter.suite v s = apply_column Filter.suite v s
  apply Filter.status v s = apply_column Filter.status v s

  -- `ColumnFilterSet.clear`.
  unfoldable pub clear : Controls → Controls
  unfolding apply
  clear s =
      apply Filter.status []
        (apply Filter.client [] (apply Filter.suite [] (apply Filter.daysago [] s)))

  -- The end of `ColumnFilterSet.build`, for the parameters of the URL.
  unfoldable pub apply_params : Map Text → Controls → Controls
  unfolding apply by_key
  apply_params [] s = s
  apply_params ((k, v) ∷ p) s = elim (by_key k) as (λ _. Controls) [
    | none ↦ apply_params p s
    | some f ↦ apply_params p (apply f v s)
  ]
