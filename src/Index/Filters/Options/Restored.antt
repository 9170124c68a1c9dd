-- ===== src/Index/Filters/Options/Restored.antt =====
-- The filters that are restored from the hash of the URL, and what their select boxes show.
use xrpl_hive.Base.{
  Bool, true, false, ◌↔◌, List, [], ◌∷◌, Option, none, some, Text, ◌≡◌, refl, ap, sym, ◌∙◌, inl,
  inr, if◌then◌else◌, Bool-cases,
}
use xrpl_hive.Maps.{same, Map, get}
use xrpl_hive.Index.Filters.{
  Filter, key, Controls, apply, apply_column, apply_client, store_and_notify, filter_changed,
}
use xrpl_hive.Index.Filters.Agree.{
  stored, UrlAgrees, apply-Stored, get-apply_url, same-key, apply-UrlAgrees,
}
use xrpl_hive.Index.Filters.Options.{
  Panel, set_filter, set_params, build_select, build, choose_option, clear_panel,
}
use xrpl_hive.Index.Filters.Options.Offered.{
  Offers, ShowsEach, SomeActive, ShowsValues-ShowsEach, set_val-offered, filter_changed_iff,
}
use xrpl_hive.Index.Filters.Options.Shown.{
  option_for, by_key-cases, set_filter-ShowsValues, choose_option-ShowsValues,
  set_params-ShowsValues,
}

-- The last value that a list of parameters has for a key, or another.
abbrev pub last_value : Option Text → Text → Map Text → Option Text
last_value o k [] = o
last_value o k ((j, v) ∷ q) = last_value (if same k j then some v else o) k q

-- The select boxes and the hash of the URL agree with the values of the filters, and the notice is shown
-- exactly if the value of a filter is set and not empty.
abbrev pub Kept : Panel → Type 0
Kept p =
    ShowsEach p × UrlAgrees p.controls × ((p.controls.notice ≡ true) ↔ SomeActive p.controls.values)

notice_iff :
    (c : Controls) → c.notice ≡ filter_changed c.values → (c.notice ≡ true) ↔ SomeActive c.values
notice_iff c e =
    let (found, shown) = filter_changed_iff c.values in (λ h. found (sym e ∙ h), λ a. e ∙ shown a)

-- What the hash has for a key after the parameters are applied, where it had something before.
abbrev last_stored : Option Text → Text → Map Text → Option Text
last_stored o k [] = o
last_stored o k ((j, v) ∷ q) = last_stored (if same k j then stored (some v) else o) k q

last_stored-stored :
    (k : Text) (q : Map Text) (o o' : Option Text)
    → o ≡ stored o'
    → last_stored o k q ≡ stored (last_value o' k q)
last_stored-stored k [] o o' e = e
last_stored-stored k ((j, v) ∷ q) o o' e = elim (Bool-cases (same k j)) [
  | inl y ↦ rw y (last_stored-stored k q (stored (some v)) (some v) refl)
  | inr n ↦ rw n (last_stored-stored k q o o' e)
]

-- The hash itself is the list of parameters: what it has for a key is replaced, if it has something.
last_stored-get :
    (k : Text) (q : Map Text) (o : Option Text)
    → (get k q ≡ none → o ≡ none)
    → last_stored o k q ≡ stored (last_value none k q)
last_stored-get k [] o h = h refl
last_stored-get k ((j, v) ∷ q) o h = elim (Bool-cases (same k j)) [
  | inl y ↦ rw y (last_stored-stored k q (stored (some v)) (some v) refl)
  | inr n ↦ rw n (last_stored-get k q o (rw n at h))
]

module _ (minus_x_days trim : Text → Text) (text_le : Text → Text → Bool) where
  values_after :
      (f : Filter) (q : Map Text) (p : Panel)
      → (set_params minus_x_days trim text_le q p).controls.values f
        ≡ last_value (p.controls.values f) (key f) q
  unfolding set_params set_filter
  values_after f [] p = refl
  values_after f ((k, v) ∷ q) p = elim (by_key-cases k) [
    | inl (nothing, apart) ↦ rw (nothing, apart f) (values_after f q p)
    | inr (g, found, e) ↦
        let now : (apply minus_x_days g v p.controls).values f
            ≡ (if same (key f) k then some v else p.controls.values f) =
          ap (λ u. u f) (apply-Stored minus_x_days g v p.controls).0
          ∙ ap (λ b. if b then some v else p.controls.values f) (sym (same-key f g))
          ∙ ap (λ j. if same (key f) j then some v else p.controls.values f) (sym e) in
        rw found (
          values_after f q (set_filter minus_x_days trim text_le g v p)
          ∙ ap (λ o. last_value o (key f) q) now)
  ]

  url_after :
      (f : Filter) (q : Map Text) (p : Panel)
      → get (key f) (set_params minus_x_days trim text_le q p).controls.url
        ≡ last_stored (get (key f) p.controls.url) (key f) q
  unfolding set_params set_filter
  url_after f [] p = refl
  url_after f ((k, v) ∷ q) p = elim (by_key-cases k) [
    | inl (nothing, apart) ↦ rw (nothing, apart f) (url_after f q p)
    | inr (g, found, e) ↦
        let now : get (key f) (apply minus_x_days g v p.controls).url
            ≡ (if same (key f) k then stored (some v) else get (key f) p.controls.url) =
          get-apply_url minus_x_days (key f) g v p.controls
          ∙ ap (λ j. if same (key f) j then stored (some v) else get (key f) p.controls.url)
              (sym e) in
        rw found (
          url_after f q (set_filter minus_x_days trim text_le g v p)
          ∙ ap (λ o. last_stored o (key f) q) now)
  ]

  notice_after :
      (q : Map Text) (p : Panel)
      → p.controls.notice ≡ filter_changed p.controls.values
      → (let c = (set_params minus_x_days trim text_le q p).controls in
          c.notice ≡ filter_changed c.values)
  unfolding set_params set_filter
  notice_after [] p h = h
  notice_after ((k, v) ∷ q) p h = elim (by_key-cases k) [
    | inl (nothing, _) ↦ rw nothing (notice_after q p h)
    | inr (g, found, _) ↦ rw found (
        notice_after q (set_filter minus_x_days trim text_le g v p)
          (apply-Stored minus_x_days g v p.controls).2)
  ]

  -- The panel before the filters of the hash are applied.
  abbrev fresh_panel : List Text → List (List Text) → Controls → Panel
  fresh_panel suites rows c = record {
    controls = c;
    choices = build_select minus_x_days trim text_le suites rows;
    chosen = λ f. some [];
  }

  values_built :
      (suites : List Text) (rows : List (List Text)) (c : Controls)
      → ((f : Filter) → c.values f ≡ none)
      → (f : Filter)
      → (set_params minus_x_days trim text_le c.url (fresh_panel suites rows c)).controls.values f
        ≡ last_value none (key f) c.url
  values_built suites rows c fresh f =
      values_after f c.url (fresh_panel suites rows c)
      ∙ ap (λ o. last_value o (key f) c.url) (fresh f)

  url_built :
      (suites : List Text) (rows : List (List Text)) (c : Controls)
      → ((f : Filter) → c.values f ≡ none)
      → UrlAgrees (set_params minus_x_days trim text_le c.url (fresh_panel suites rows c)).controls
  url_built suites rows c fresh f =
      url_after f c.url (fresh_panel suites rows c)
      ∙ last_stored-get (key f) c.url (get (key f) c.url) (λ e. e)
      ∙ ap stored (sym (values_built suites rows c fresh f))

  none_active :
      (values : Filter → Option Text)
      → ((f : Filter) → values f ≡ none)
      → filter_changed values ≡ false
  unfolding filter_changed
  none_active values h =
      rw (h Filter.daysago, h Filter.suite, h Filter.client, h Filter.status) refl

  -- Filters without values are restored from the hash of the URL: each gets the last value that the hash
  -- has for it. Then each select box shows the option with the value, or none if no option has it; the
  -- hash has the values that are not empty, and the notice is shown exactly if there is one.
  pub build-Kept :
      (suites : List Text) (rows : List (List Text)) (c : Controls)
      → ((f : Filter) → c.values f ≡ none)
      → c.notice ≡ false
      → (let p = build minus_x_days trim text_le suites rows c in
          Kept p × ((f : Filter) → p.controls.values f ≡ last_value none (key f) c.url))
  unfolding build
  build-Kept suites rows c fresh hidden = (
    (
      (ShowsValues-ShowsEach (build minus_x_days trim text_le suites rows c)).0 (
          set_params-ShowsValues minus_x_days trim text_le c.url (fresh_panel suites rows c) (λ f.
            ap (option_for (build_select minus_x_days trim text_le suites rows f))
              (sym (fresh f)))),
      url_built suites rows c fresh,
      notice_iff (build minus_x_days trim text_le suites rows c).controls (
          notice_after c.url (fresh_panel suites rows c)
            (hidden ∙ sym (none_active c.values fresh))),
    ),
    values_built suites rows c fresh,
  )

  set_filter-Kept :
      (f : Filter) (v : Text) (p : Panel)
      → Kept p
      → Kept (set_filter minus_x_days trim text_le f v p)
  unfolding set_filter
  set_filter-Kept f v p (shown, url, notice) = (
    (ShowsValues-ShowsEach (set_filter minus_x_days trim text_le f v p)).0 (
        set_filter-ShowsValues minus_x_days trim text_le f v p ((ShowsValues-ShowsEach p).1 shown)),
    (apply-UrlAgrees minus_x_days f v p.controls url).0,
    notice_iff (apply minus_x_days f v p.controls) (apply-Stored minus_x_days f v p.controls).2,
  )

  cleared :
      (p : Panel) (g : Filter)
      → (clear_panel minus_x_days trim text_le p).controls.values g ≡ some []
  unfolding set_filter clear_panel apply apply_column apply_client store_and_notify
  cleared p Filter.daysago = refl
  cleared p Filter.suite = refl
  cleared p Filter.client = refl
  cleared p Filter.status = refl

  -- Each select box shows the option with its filter's value, or none if no option has it; the hash has the
  -- values that are not empty, and the notice is shown exactly if there is one. All this holds after an
  -- option is chosen in a select box that has it, and after all filters are cleared, when all values are
  -- empty.
  pub choose_option-Kept :
      (f : Filter) (v : Text) (p : Panel)
      → Offers v (p.choices f)
      → Kept p
      → Kept (choose_option minus_x_days trim text_le f v p)
        × Kept (clear_panel minus_x_days trim text_le p)
        × ((g : Filter) → (clear_panel minus_x_days trim text_le p).controls.values g ≡ some [])
  unfolding choose_option clear_panel
  choose_option-Kept f v p offered (shown, url, notice) = (
    (
      (ShowsValues-ShowsEach (choose_option minus_x_days trim text_le f v p)).0 (
          choose_option-ShowsValues minus_x_days trim text_le f v p
            (set_val-offered v (p.choices f) offered) ((ShowsValues-ShowsEach p).1 shown)),
      (apply-UrlAgrees minus_x_days f v p.controls url).0,
      notice_iff (apply minus_x_days f v p.controls) (apply-Stored minus_x_days f v p.controls).2,
    ),
    set_filter-Kept Filter.status [] _ (
        set_filter-Kept Filter.client [] _ (
          set_filter-Kept Filter.suite [] _
            (set_filter-Kept Filter.daysago [] p (shown, url, notice)))),
    cleared p,
  )
