-- ===== src/Index/Filters/Options/Tests.antt =====
-- Runs of the select boxes, and an instance of each result.
use xrpl_hive.Base.{
  inl, inr, Bool, true, false, [], ◌∷◌, List, none, some, Text, codes, ◌≡◌, ◌≢◌, ◌↔◌, refl, arith,
  All,
}
use xrpl_hive.Html.{includes}
use xrpl_hive.Index.{join}
use xrpl_hive.Index.Filters.{Filter, key, Controls}
use xrpl_hive.Index.Filters.Options.{
  Panel, row_matches, search_client, column_options, client_options, build, set_val, set_filter,
  build_select, choose_option, clear_panel,
}
use xrpl_hive.Index.Filters.Options.Offered.{Offers}
use xrpl_hive.Index.Filters.Options.Search.{Name, row_matches-Names}
use xrpl_hive.Index.Filters.Options.Added.{Each}
use xrpl_hive.Index.Filters.Options.Found.{client_options-Each}
use xrpl_hive.Index.Filters.Options.Restored.{last_value, Kept, build-Kept, choose_option-Kept}

abbrev keep_text : Text → Text
keep_text t = t

-- For tests, texts are in order as they come.
abbrev any_order : Text → Text → Bool
any_order t u = true

abbrev two_rows : List (List Text)
two_rows = (codes "a" ∷ codes "b" ∷ []) ∷ (codes "a" ∷ []) ∷ []

a-Name : Name (codes "a")
a-Name = (λ e. cc, (omega arith, tt))

b-Name : Name (codes "b")
b-Name = (λ e. cc, (omega arith, tt))

two_rows-Name : All (All Name) two_rows
two_rows-Name = ((a-Name, (b-Name, tt)), ((a-Name, tt), tt))

two_rows_options :
    client_options keep_text keep_text any_order two_rows ≡ codes "a" ∷ codes "b" ∷ codes "a,b" ∷ []
unfolding client_options xrpl_hive.Index.Filters.Options.collect_rows xrpl_hive.Sorting.sort_by
    xrpl_hive.Index.join
two_rows_options = refl

-- A suite with a comma in its name is offered by its parts only.
comma_options :
    column_options keep_text keep_text any_order (codes "sync,full" ∷ [])
    ≡ codes "sync" ∷ codes "full" ∷ []
unfolding column_options xrpl_hive.Index.Filters.Options.collect_parts xrpl_hive.Sorting.sort_by
comma_options = refl

row_matches-Names_example :
    ((v : Text)
      → Name v
      → row_matches v (codes "a" ∷ codes "b" ∷ []) ≡ includes v (codes "a" ∷ codes "b" ∷ []))
    × ((t u : Text) (ts : List Text)
        → All Name (t ∷ u ∷ ts)
        → (row_matches (join (t ∷ u ∷ ts)) (codes "a" ∷ codes "b" ∷ []) ≡ true)
          ↔ (codes "a" ∷ codes "b" ∷ [] ≡ t ∷ u ∷ ts))
row_matches-Names_example = row_matches-Names (codes "a" ∷ codes "b" ∷ []) two_rows-Name.0

client_options-Each_example :
    (let options = client_options keep_text keep_text any_order two_rows in
      All (λ t. search_client t two_rows ≢ []) options
      × All (Each (λ t. includes t options ≡ true)) two_rows)
client_options-Each_example =
    client_options-Each keep_text keep_text any_order two_rows two_rows-Name

abbrev restored : Controls
restored = record {
  values = λ _. none;
  columns = λ _. none;
  searches = [];
  drawn = record { columns = λ _. none; custom = [] };
  url = (codes "client", codes "b") ∷ (codes "group-by", codes "suite") ∷ [];
  notice = false;
}

abbrev panel : Panel
panel = build keep_text keep_text any_order [] two_rows restored

panel-Kept :
    Kept panel × ((f : Filter) → panel.controls.values f ≡ last_value none (key f) restored.url)
panel-Kept = build-Kept keep_text keep_text any_order [] two_rows restored (λ f. refl) refl

build-Kept_example :
    Kept panel × ((f : Filter) → panel.controls.values f ≡ last_value none (key f) restored.url)
build-Kept_example = build-Kept keep_text keep_text any_order [] two_rows restored (λ f. refl) refl

fail_offered : Offers (codes "FAIL") (panel.choices Filter.status)
unfolding build set_val set_filter xrpl_hive.Index.Filters.Options.set_params build_select
fail_offered = inr (inr (inl refl))

choose_option-Kept_example :
    Kept (choose_option keep_text keep_text any_order Filter.status (codes "FAIL") panel)
    × Kept (clear_panel keep_text keep_text any_order panel)
    × ((g : Filter) → (clear_panel keep_text keep_text any_order panel).controls.values g ≡ some [])
choose_option-Kept_example =
    choose_option-Kept keep_text keep_text any_order Filter.status (codes "FAIL") panel fail_offered
      panel-Kept.0
