-- ===== src/Index/Filters/Draws.antt =====
-- What the table searches after a client and then another filter are chosen.
use xrpl_hive.Base.{
  true, false, Bool, ◌||◌, List, [], ◌∷◌, ◌++◌, Option, none, some, Text, ◌≡◌, ◌≢◌, refl, ap, ◌∙◌,
  arith,
}
use xrpl_hive.Maps.{get}
use xrpl_hive.Index.Filters.{
  Filter, key, same_filter, Controls, push_search, pop_search, apply, apply_client, apply_column,
  store_and_notify, filter_changed,
}
use xrpl_hive.Index.Filters.Agree.{get-apply_url}
use xrpl_hive.Index.Filters.Pattern.{
  Pattern, reads_search, value_to_reg_exp-suite, reads-escape_reg_exp,
}

pub pop_search-push_search : (v : Text) (ss : List Text) → pop_search (push_search v ss) ≡ ss
unfolding pop_search
pop_search-push_search v [] = refl
pop_search-push_search v (u ∷ []) = refl
pop_search-push_search v (u ∷ w ∷ ss) = ap (λ xs. u ∷ xs) (pop_search-push_search v (w ∷ ss))

module _ (minus_x_days : Text → Text) where
  -- What the column of a filter is searched for: the suite as a whole, and else a text anywhere, which is
  -- the written date for a number of days.
  abbrev pub says : Filter → Text → Pattern
  says Filter.daysago v = record { from_start = false; letters = minus_x_days v; to_end = false }
  says Filter.suite v = record { from_start = true; letters = v; to_end = true }
  says Filter.client v = record { from_start = false; letters = v; to_end = false }
  says Filter.status v = record { from_start = false; letters = v; to_end = false }

  -- The search of a column for a value.
  abbrev pub SearchSays : Filter → Text → Option Text → Type 0
  SearchSays f v search =
      (v ≡ [] → search ≡ none) × (v ≢ [] → reads_search search ≡ some (says f v))

  column_says :
      (f : Filter) (v : Text) (s : Controls)
      → same_filter f Filter.client ≡ false
      → SearchSays f v ((apply minus_x_days f v s).drawn.columns f)
  unfolding apply apply_column store_and_notify
  column_says Filter.client v s h = absurd (ground arith)
  column_says Filter.daysago [] s h = (λ e. refl, λ n. absurd (n refl))
  column_says Filter.suite [] s h = (λ e. refl, λ n. absurd (n refl))
  column_says Filter.status [] s h = (λ e. refl, λ n. absurd (n refl))
  column_says Filter.daysago (c ∷ v) s h =
      (λ e. cc, λ n. reads-escape_reg_exp (minus_x_days (c ∷ v)))
  column_says Filter.suite (c ∷ v) s h = (λ e. cc, λ n. value_to_reg_exp-suite minus_x_days (c ∷ v))
  column_says Filter.status (c ∷ v) s h = (λ e. cc, λ n. reads-escape_reg_exp (c ∷ v))

  or-true : (a b : Bool) → (a || (b || true)) ≡ true
  or-true true b = refl
  or-true false true = refl
  or-true false false = refl

  -- A client that is not empty is chosen, and then another filter gets a value. The first draw has the
  -- search for the client on top of the searches that were there. The second has only those, so the
  -- client is not searched any more, though its filter and the URL still have it and the notice is shown;
  -- it searches the column of the other filter for what the value says, or for nothing if that is empty,
  -- and every other column as before.
  pub apply-drawn :
      (f : Filter) (client value : Text) (s : Controls)
      → client ≢ []
      → same_filter f Filter.client ≡ false
      → (let s1 = apply minus_x_days Filter.client client s in
          let s2 = apply minus_x_days f value s1 in
          (s1.drawn.custom ≡ s.searches ++ client ∷ [])
          × (s2.drawn.custom ≡ s.searches)
          × (s2.values Filter.client ≡ some client)
          × (get (key Filter.client) s2.url ≡ some client)
          × (s2.notice ≡ true)
          × SearchSays f value (s2.drawn.columns f)
          × ((g : Filter) → same_filter g f ≡ false → s2.drawn.columns g ≡ s.columns g))
  unfolding apply apply_column apply_client store_and_notify filter_changed key
  apply-drawn f [] value s n h = absurd (n refl)
  apply-drawn Filter.client (c ∷ client) value s n h = absurd (ground arith)
  apply-drawn Filter.daysago (c ∷ client) value s n h =
      let s1 = apply minus_x_days Filter.client (c ∷ client) s in
      (
        refl,
        pop_search-push_search (c ∷ client) s.searches,
        refl,
        get-apply_url minus_x_days (key Filter.client) Filter.daysago value s1
            ∙ get-apply_url minus_x_days (key Filter.client) Filter.client (c ∷ client) s,
        or-true _ _,
        column_says Filter.daysago value s1 h,
        λ g e. rw e refl,
      )
  apply-drawn Filter.suite (c ∷ client) value s n h =
      let s1 = apply minus_x_days Filter.client (c ∷ client) s in
      (
        refl,
        pop_search-push_search (c ∷ client) s.searches,
        refl,
        get-apply_url minus_x_days (key Filter.client) Filter.suite value s1
            ∙ get-apply_url minus_x_days (key Filter.client) Filter.client (c ∷ client) s,
        or-true _ _,
        column_says Filter.suite value s1 h,
        λ g e. rw e refl,
      )
  apply-drawn Filter.status (c ∷ client) value s n h =
      let s1 = apply minus_x_days Filter.client (c ∷ client) s in
      (
        refl,
        pop_search-push_search (c ∷ client) s.searches,
        refl,
        get-apply_url minus_x_days (key Filter.client) Filter.status value s1
            ∙ get-apply_url minus_x_days (key Filter.client) Filter.client (c ∷ client) s,
        or-true _ _,
        column_says Filter.status value s1 h,
        λ g e. rw e refl,
      )
