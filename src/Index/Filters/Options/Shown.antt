-- ===== src/Index/Filters/Options/Shown.antt =====
-- The select boxes show the values of the filters.
use xrpl_hive.Base.{
  Bool, true, false, List, [], ◌∷◌, Option, none, some, Text, ◌≡◌, refl, ap, sym, ◌∙◌, ◌⊎◌, inl,
  inr, Bool-cases,
}
use xrpl_hive.Maps.{same, same-≡, Map}
use xrpl_hive.Index.Filters.{Filter, key, by_key, same_filter, update}
use xrpl_hive.Index.Filters.Agree.{apply-Stored}
use xrpl_hive.Index.Filters.Options.{Choice, Panel, set_val, set_filter, set_params, choose_option}

-- What the select box of a filter shows for its value: the option with the value, or none; and "Show all"
-- before a value is set.
abbrev pub option_for : List Choice → Option Text → Option Text
option_for choices none = some []
option_for choices (some v) = set_val choices v

-- Each select box shows the value of its filter.
abbrev pub ShowsValues : Panel → Type 0
ShowsValues p = (f : Filter) → p.chosen f ≡ option_for (p.choices f) (p.controls.values f)

-- A key is that of the filter found by it, or of none.
pub by_key-cases :
    (k : Text)
    → ((by_key k ≡ none) × ((f : Filter) → same (key f) k ≡ false))
      ⊎ ((g : Filter) × (by_key k ≡ some g) × (k ≡ key g))
unfolding by_key key
by_key-cases k = elim (Bool-cases (same (key Filter.daysago) k)) [
  | inl q ↦ inr (Filter.daysago, rw q refl, sym (same-≡ (key Filter.daysago) k q))
  | inr n1 ↦ elim (Bool-cases (same (key Filter.suite) k)) [
    | inl q ↦ inr (Filter.suite, rw (n1, q) refl, sym (same-≡ (key Filter.suite) k q))
    | inr n2 ↦ elim (Bool-cases (same (key Filter.client) k)) [
      | inl q ↦ inr (Filter.client, rw (n1, n2, q) refl, sym (same-≡ (key Filter.client) k q))
      | inr n3 ↦ elim (Bool-cases (same (key Filter.status) k)) [
        | inl q ↦ inr (Filter.status, rw (n1, n2, n3, q) refl, sym (same-≡ (key Filter.status) k q))
        | inr n4 ↦ inl (rw (n1, n2, n3, n4) refl, each n1 n2 n3 n4)
      ]
    ]
  ]
]
  where
    each :
        same (key Filter.daysago) k ≡ false
        → same (key Filter.suite) k ≡ false
        → same (key Filter.client) k ≡ false
        → same (key Filter.status) k ≡ false
        → (f : Filter) → same (key f) k ≡ false
    each n1 n2 n3 n4 Filter.daysago = n1
    each n1 n2 n3 n4 Filter.suite = n2
    each n1 n2 n3 n4 Filter.client = n3
    each n1 n2 n3 n4 Filter.status = n4

same_filter-≡ : (f g : Filter) → same_filter f g ≡ true → f ≡ g
same_filter-≡ Filter.daysago Filter.daysago h = refl
same_filter-≡ Filter.daysago Filter.suite h = cc
same_filter-≡ Filter.daysago Filter.client h = cc
same_filter-≡ Filter.daysago Filter.status h = cc
same_filter-≡ Filter.suite Filter.daysago h = cc
same_filter-≡ Filter.suite Filter.suite h = refl
same_filter-≡ Filter.suite Filter.client h = cc
same_filter-≡ Filter.suite Filter.status h = cc
same_filter-≡ Filter.client Filter.daysago h = cc
same_filter-≡ Filter.client Filter.suite h = cc
same_filter-≡ Filter.client Filter.client h = refl
same_filter-≡ Filter.client Filter.status h = cc
same_filter-≡ Filter.status Filter.daysago h = cc
same_filter-≡ Filter.status Filter.suite h = cc
same_filter-≡ Filter.status Filter.client h = cc
same_filter-≡ Filter.status Filter.status h = refl

update-ShowsValues :
    (f g : Filter) (v : Text) (choices : Filter → List Choice)
    (chosen values : Filter → Option Text) (o : Option Text)
    → o ≡ set_val (choices f) v
    → chosen g ≡ option_for (choices g) (values g)
    → update f o chosen g ≡ option_for (choices g) (update f (some v) values g)
update-ShowsValues f g v choices chosen values o e h = elim (Bool-cases (same_filter g f)) [
  | inl q ↦ rw q (e ∙ ap (λ x. set_val (choices x) v) (sym (same_filter-≡ g f q)))
  | inr q ↦ rw q h
]

module _ (minus_x_days trim : Text → Text) (text_le : Text → Text → Bool) where
  pub set_filter-ShowsValues :
      (f : Filter) (v : Text) (p : Panel)
      → ShowsValues p
      → ShowsValues (set_filter minus_x_days trim text_le f v p)
  unfolding set_filter
  set_filter-ShowsValues f v p h g =
      update-ShowsValues f g v p.choices p.chosen p.controls.values (set_val (p.choices f) v) refl
        (h g)
      ∙ ap (λ u. option_for (p.choices g) (u g)) (sym (apply-Stored minus_x_days f v p.controls).0)

  pub choose_option-ShowsValues :
      (f : Filter) (v : Text) (p : Panel)
      → set_val (p.choices f) v ≡ some v
      → ShowsValues p
      → ShowsValues (choose_option minus_x_days trim text_le f v p)
  unfolding choose_option
  choose_option-ShowsValues f v p offered h g =
      update-ShowsValues f g v p.choices p.chosen p.controls.values (some v) (sym offered) (h g)
      ∙ ap (λ u. option_for (p.choices g) (u g)) (sym (apply-Stored minus_x_days f v p.controls).0)

  pub set_params-ShowsValues :
      (q : Map Text) (p : Panel)
      → ShowsValues p
      → ShowsValues (set_params minus_x_days trim text_le q p)
  unfolding set_params
  set_params-ShowsValues [] p h = h
  set_params-ShowsValues ((k, v) ∷ q) p h = elim (by_key-cases k) [
    | inl (nothing, _) ↦ rw nothing (set_params-ShowsValues q p h)
    | inr (f, found, _) ↦ rw found (
        set_params-ShowsValues q (set_filter minus_x_days trim text_le f v p)
          (set_filter-ShowsValues f v p h))
  ]
