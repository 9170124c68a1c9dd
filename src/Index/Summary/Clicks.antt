-- ===== src/Index/Summary/Clicks.antt =====
-- What the clicks on boxes and titles leave in the filters.
use xrpl_hive.Base.{true, false, [], ◌∷◌, ◌++◌, none, some, Text, ◌≡◌, ◌≢◌, refl, ◌∙◌}
use xrpl_hive.Maps.{get}
use xrpl_hive.Index.Filters.{
  Filter, key, same_filter, filter_changed, store_and_notify, apply_client, apply_column, apply,
}
use xrpl_hive.Index.Filters.Pattern.{reads_search, value_to_reg_exp-suite}
use xrpl_hive.Index.Filters.Draws.{pop_search-push_search}
use xrpl_hive.Index.Filters.Agree.{get-apply_url}
use xrpl_hive.Index.Summary.{Summary, filter_suite_and_client, filter_client}

module _ (minus_x_days : Text → Text) where
  -- A click on the title of a client, whose name is not empty: the URL has the client and no suite, and
  -- the notice is shown; but the draw has only the custom searches that were there before, none for this
  -- client, and it searches no suite, and every other column as before.
  pub filter_client-drawn :
      (client : Text) (s : Summary)
      → client ≢ []
      → (let c = (filter_client minus_x_days client s).controls in
          (get (key Filter.client) c.url ≡ some client)
          × (get (key Filter.suite) c.url ≡ none)
          × (c.notice ≡ true)
          × (c.drawn.custom ≡ s.controls.searches)
          × (c.drawn.columns Filter.suite ≡ none)
          × ((g : Filter)
              → same_filter g Filter.suite ≡ false
              → c.drawn.columns g ≡ s.controls.columns g))
  unfolding filter_client apply apply_column apply_client store_and_notify filter_changed key
  filter_client-drawn [] s h = absurd (h refl)
  filter_client-drawn (x ∷ client) s h =
      let c = record s.controls { values = λ _. none } in
      let c1 = apply minus_x_days Filter.client (x ∷ client) c in
      (
        get-apply_url minus_x_days (key Filter.client) Filter.suite [] c1
            ∙ get-apply_url minus_x_days (key Filter.client) Filter.client (x ∷ client) c,
        get-apply_url minus_x_days (key Filter.suite) Filter.suite [] c1,
        refl,
        pop_search-push_search (x ∷ client) s.controls.searches,
        refl,
        λ g e. rw e refl,
      )

  -- A click on a box, whose suite and client are not empty: the URL has the suite and the client,
  -- the notice is shown, and the draw has a custom search for the client behind those that were
  -- there, and searches in the column of suites by a regular expression that says the suite's name,
  -- from start to end, with no character read as an operator.
  pub filter_suite_and_client-drawn :
      (suite client : Text) (s : Summary)
      → suite ≢ []
      → client ≢ []
      → (let c = (filter_suite_and_client minus_x_days suite client s).controls in
          (get (key Filter.suite) c.url ≡ some suite)
          × (get (key Filter.client) c.url ≡ some client)
          × (c.notice ≡ true)
          × (c.drawn.custom ≡ s.controls.searches ++ client ∷ [])
          × (reads_search (c.drawn.columns Filter.suite)
              ≡ some (record { from_start = true; letters = suite; to_end = true })))
  unfolding filter_suite_and_client apply apply_column apply_client store_and_notify filter_changed
      key
  filter_suite_and_client-drawn [] client s h k = absurd (h refl)
  filter_suite_and_client-drawn (x ∷ suite) [] s h k = absurd (k refl)
  filter_suite_and_client-drawn (x ∷ suite) (y ∷ client) s h k =
      let c = record s.controls { values = λ _. none } in
      let c1 = apply minus_x_days Filter.suite (x ∷ suite) c in
      (
        get-apply_url minus_x_days (key Filter.suite) Filter.client (y ∷ client) c1
            ∙ get-apply_url minus_x_days (key Filter.suite) Filter.suite (x ∷ suite) c,
        get-apply_url minus_x_days (key Filter.client) Filter.client (y ∷ client) c1,
        refl,
        refl,
        value_to_reg_exp-suite minus_x_days (x ∷ suite),
      )
