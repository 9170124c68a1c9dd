-- ===== src/Index/Filters/Options/Offered.antt =====
-- What the select boxes and the notice have to show for the values of the filters.
use xrpl_hive.Base.{
  Bool, true, false, ◌||◌, List, [], ◌∷◌, Option, none, some, Text, ◌≡◌, ◌≢◌, ◌⊎◌, ◌↔◌, refl, sym,
  ◌∙◌, inl, inr, Bool-cases,
}
use mathlib.Core.Bool.{true≢false}
use xrpl_hive.Maps.{same, same-≡, same_refl}
use xrpl_hive.Index.Filters.{Filter, is_active, filter_changed}
use xrpl_hive.Index.Filters.Options.{Choice, Panel, has_value, set_val}
use xrpl_hive.Index.Filters.Options.Shown.{option_for, ShowsValues}

-- One of the options has the value.
abbrev pub Offers : Text → List Choice → Type 0
Offers v [] = ⊥
Offers v (c ∷ cs) = (v ≡ c.value) ⊎ Offers v cs

-- What a select box shows for a value: the option that has it, or none if no option does. Before a value
-- is set it shows the first option, whose value is empty.
abbrev pub Shows : List Choice → Option Text → Option Text → Type 0
Shows choices none shown = shown ≡ some []
Shows choices (some v) shown =
    (Offers v choices → shown ≡ some v) × ((¬ Offers v choices) → shown ≡ none)

-- The value of some filter is set and not empty.
abbrev pub SomeActive : (Filter → Option Text) → Type 0
SomeActive values = (f : Filter) × (v : Text) × (values f ≡ some v) × (v ≢ [])

offered : (v : Text) (cs : List Choice) → has_value v cs ≡ true → Offers v cs
unfolding has_value
offered v [] h = absurd (true≢false (sym h))
offered v (c ∷ cs) h = elim (Bool-cases (same v c.value)) [
  | inl q ↦ inl (same-≡ v c.value q)
  | inr q ↦ inr (offered v cs (rw (has_value, q) at h))
]

has_offered : (v : Text) (cs : List Choice) → Offers v cs → has_value v cs ≡ true
unfolding has_value
has_offered v [] o = absurd o
has_offered v (c ∷ cs) (inl e) = rw (← e, same_refl v) refl
has_offered v (c ∷ cs) (inr o) = elim (Bool-cases (same v c.value)) [
  | inl q ↦ rw q refl
  | inr q ↦ rw (q, has_offered v cs o) refl
]

pub set_val-offered : (v : Text) (cs : List Choice) → Offers v cs → set_val cs v ≡ some v
unfolding set_val
set_val-offered v cs o = rw (has_offered v cs o) refl

set_val-not_offered : (v : Text) (cs : List Choice) → ¬ Offers v cs → set_val cs v ≡ none
unfolding set_val
set_val-not_offered v cs n = elim (Bool-cases (has_value v cs)) [
  | inl q ↦ absurd (n (offered v cs q))
  | inr q ↦ rw q refl
]

option_for-Shows :
    (cs : List Choice) (o shown : Option Text) → shown ≡ option_for cs o → Shows cs o shown
option_for-Shows cs none shown e = e
option_for-Shows cs (some v) shown e =
    (λ o. e ∙ set_val-offered v cs o, λ n. e ∙ set_val-not_offered v cs n)

Shows-option_for :
    (cs : List Choice) (o shown : Option Text) → Shows cs o shown → shown ≡ option_for cs o
Shows-option_for cs none shown e = e
Shows-option_for cs (some v) shown (here, away) = elim (Bool-cases (has_value v cs)) [
  | inl q ↦ let o = offered v cs q in here o ∙ sym (set_val-offered v cs o)
  | inr q ↦
      let n : ¬ Offers v cs = λ o. true≢false (sym (has_offered v cs o) ∙ q) in
      away n ∙ sym (set_val-not_offered v cs n)
]

-- Each select box shows the value of its filter, as far as it has an option for it.
abbrev pub ShowsEach : Panel → Type 0
ShowsEach p = (f : Filter) → Shows (p.choices f) (p.controls.values f) (p.chosen f)

pub ShowsValues-ShowsEach : (p : Panel) → ShowsValues p ↔ ShowsEach p
ShowsValues-ShowsEach p = (
  λ h f. option_for-Shows (p.choices f) (p.controls.values f) (p.chosen f) (h f),
  λ h f. Shows-option_for (p.choices f) (p.controls.values f) (p.chosen f) (h f),
)

is_active-some : (o : Option Text) → is_active o ≡ true → (v : Text) × (o ≡ some v) × (v ≢ [])
is_active-some none h = absurd (true≢false (sym h))
is_active-some (some []) h = absurd (true≢false (sym h))
is_active-some (some (c ∷ v)) h = (c ∷ v, refl, λ e. cc)

active_some : (o : Option Text) (v : Text) → o ≡ some v → v ≢ [] → is_active o ≡ true
active_some o [] e n = absurd (n refl)
active_some o (c ∷ v) e n = rw e refl

any_active : (b c : Bool) → (b || c) ≡ true → (b ≡ true) ⊎ (c ≡ true)
any_active true c h = inl refl
any_active false c h = inr h

pub filter_changed_iff :
    (values : Filter → Option Text) → (filter_changed values ≡ true) ↔ SomeActive values
unfolding filter_changed
filter_changed_iff values = (found, shown)
  where
    of_filter : (f : Filter) → is_active (values f) ≡ true → SomeActive values
    of_filter f h = let (v, e, n) = is_active-some (values f) h in (f, v, e, n)

    found : filter_changed values ≡ true → SomeActive values
    found h = elim (any_active _ _ h) [
      | inl a ↦ of_filter Filter.daysago a
      | inr h1 ↦ elim (any_active _ _ h1) [
        | inl a ↦ of_filter Filter.suite a
        | inr h2 ↦ elim (any_active _ _ h2) [
          | inl a ↦ of_filter Filter.client a
          | inr a ↦ of_filter Filter.status a
        ]
      ]
    ]

    or-true : (b : Bool) → (b || true) ≡ true
    or-true true = refl
    or-true false = refl

    shown : SomeActive values → filter_changed values ≡ true
    shown (Filter.daysago, v, e, n) = rw (active_some (values Filter.daysago) v e n) refl
    shown (Filter.suite, v, e, n) = rw (active_some (values Filter.suite) v e n) (or-true _)
    shown (Filter.client, v, e, n) =
        rw (active_some (values Filter.client) v e n, or-true (is_active (values Filter.suite)))
          (or-true _)
    shown (Filter.status, v, e, n) =
        rw
          (
            active_some (values Filter.status) v e n,
            or-true (is_active (values Filter.client)),
            or-true (is_active (values Filter.suite)),
          )
          (or-true _)
