-- ===== src/Index/Filters/Tests.antt =====
-- Runs of the filters, and an instance of each result.
use xrpl_hive.Base.{true, false, [], ◌∷◌, none, some, Text, codes, ◌≡◌, refl}
use xrpl_hive.Maps.{get}
use xrpl_hive.Index.Filters.{
  Filter, key, same_filter, Controls, apply, clear, apply_params, column_search, filter_changed,
}
use xrpl_hive.Index.Filters.Draws.{SearchSays, apply-drawn}

abbrev pub same_text : Text → Text
same_text t = t

-- The page with a sort order in the hash, before any filter is set.
abbrev pub fresh : Controls
fresh = record {
  values = λ _. none;
  columns = λ _. none;
  searches = [];
  drawn = record { columns = λ _. none; custom = [] };
  url = (codes "summary-sort", codes "name") ∷ [];
  notice = false;
}

abbrev chosen : Controls
chosen = apply same_text Filter.client (codes "a") fresh

restored_run :
    (apply_params same_text
        ((codes "suite", codes "a.b") ∷ (codes "x", codes "y") ∷ [])
        fresh).columns
      Filter.suite
    ≡ some (codes "^a\\.b$")
unfolding apply_params apply xrpl_hive.Index.Filters.value_to_reg_exp
restored_run = refl

apply-drawn_example :
    (let s1 = apply same_text Filter.client (codes "a") fresh in
      let s2 = apply same_text Filter.suite (codes "s") s1 in
      (s1.drawn.custom ≡ codes "a" ∷ [])
      × (s2.drawn.custom ≡ [])
      × (s2.values Filter.client ≡ some (codes "a"))
      × (get (key Filter.client) s2.url ≡ some (codes "a"))
      × (s2.notice ≡ true)
      × SearchSays same_text Filter.suite (codes "s") (s2.drawn.columns Filter.suite)
      × ((g : Filter) → same_filter g Filter.suite ≡ false → s2.drawn.columns g ≡ fresh.columns g))
apply-drawn_example =
    apply-drawn same_text Filter.suite (codes "a") (codes "s") fresh (λ e. cc) refl
