-- ===== src/Index/Groups/Distinct.antt =====
-- No key stands twice in the groups, so what stands under a key is what the key gives.
use xrpl_hive.Base.{
  ℕ, true, false, List, [], ◌∷◌, ◌++◌, none, some, Text, ◌≡◌, refl, ap, sym, ◌∙◌, All, Bool-cases,
  inl, inr, Option-cases,
}
use mathlib.Core.Bool.{true≢false}
use xrpl_hive.Maps.{
  same, same-≡, same_refl, Map, get, put, ensure, update_values, or_else, get-put,
  get-update_values,
}
use xrpl_hive.Index.{
  Entry, Groups, push_run, join, collect_suites, push_clients, collect_clients, recent_runs,
  sort_and_limit, suite_groups, process_client_groups,
}
use xrpl_hive.Index.Groups.{pushed_group, push_run-pushed}
use xrpl_hive.Index.Groups.Given.{
  or_else-get-AllValues, put-ensure-AllValues, update_values-AllValues,
}

module _ {V : Type 0} where
  abbrev pub DistinctKeys : Map V → Type 0
  DistinctKeys [] = Unit
  DistinctKeys ((k, v) ∷ m) = (get k m ≡ none) × DistinctKeys m

  put-DistinctKeys : (k : Text) (v : V) (m : Map V) → DistinctKeys m → DistinctKeys (put k v m)
  put-DistinctKeys k v [] d = (refl, tt)
  put-DistinctKeys k v ((j, w) ∷ m) d = elim (Bool-cases (same k j)) [
    | inl q ↦ rw (put, q) d
    | inr q ↦ rw (put, q) (get-put j k v m ∙ rw (apart j q) d.0, put-DistinctKeys k v m d.1)
  ]
    where
      apart : (j : Text) → same k j ≡ false → same j k ≡ false
      apart j q = elim (Bool-cases (same j k)) [
        | inl e ↦
            let t : same k j ≡ true = rw (same-≡ j k e) (same_refl k) in
            absurd (true≢false (sym t ∙ q))
        | inr e ↦ e
      ]

  ensure-DistinctKeys :
      (k : Text) (v : V) (m : Map V) → DistinctKeys m → DistinctKeys (ensure k v m)
  ensure-DistinctKeys k v m d = elim (Option-cases (get k m)) [
    | inl e ↦
        let q : ensure k v m ≡ put k v m =
          ap (λ o. elim o as (λ _. Map V) [ none ↦ put k v m | some x ↦ m ]) e in
        rw q (put-DistinctKeys k v m d)
    | inr (x, e) ↦
        let q : ensure k v m ≡ m =
          ap (λ o. elim o as (λ _. Map V) [ none ↦ put k v m | some y ↦ m ]) e in
        rw q d
  ]

  update_values-DistinctKeys :
      (f : V → V) (m : Map V) → DistinctKeys m → DistinctKeys (update_values f m)
  update_values-DistinctKeys f [] d = tt
  update_values-DistinctKeys f ((k, v) ∷ m) d =
      (get-update_values f k m ∙ rw d.0 refl, update_values-DistinctKeys f m d.1)

  -- Each key gives its own value.
  pub DistinctKeys-get : (m : Map V) → DistinctKeys m → All (λ e. get e.0 m ≡ some e.1) m
  DistinctKeys-get m d = each m m d (λ k v e. e)
    where
      each :
          (whole m : Map V)
          → DistinctKeys m
          → ((k : Text) (v : V) → get k m ≡ some v → get k whole ≡ some v)
          → All (λ e. get e.0 whole ≡ some e.1) m
      each whole [] d sub = tt
      each whole ((k, v) ∷ m) d sub = (
        sub k v (rw (same_refl k) refl),
        each whole m d.1 (λ j w e. sub j w (elim (Bool-cases (same j k)) [
          | inl q ↦
              let no : none ≡ some w = sym d.0 ∙ ap (λ t. get t m) (sym (same-≡ j k q)) ∙ e in cc
          | inr q ↦ rw q e
        ])),
      )

abbrev pub Distinct : Groups → Type 0
Distinct groups = DistinctKeys groups × All (λ g. DistinctKeys g.1) groups

push_run-Distinct :
    (outer inner : Text) (e : Entry) (groups : Groups)
    → Distinct groups
    → Distinct (push_run outer inner e groups)
push_run-Distinct outer inner e groups (d, a) =
    let group = or_else [] (get outer groups) in
    let group_distinct = or_else-get-AllValues DistinctKeys outer [] groups tt a in
    let inside =
      put-DistinctKeys inner (or_else [] (get inner group) ++ e ∷ []) (ensure inner [] group)
        (ensure-DistinctKeys inner [] group group_distinct) in
    rw (push_run-pushed outer inner e groups) (
      put-DistinctKeys outer (pushed_group outer inner e groups) (ensure outer [] groups)
          (ensure-DistinctKeys outer [] groups d),
      put-ensure-AllValues DistinctKeys outer (pushed_group outer inner e groups) [] groups inside
          a,
    )

collect_suites-Distinct :
    (es : List Entry) (groups : Groups) → Distinct groups → Distinct (collect_suites es groups)
unfolding collect_suites
collect_suites-Distinct [] groups a = a
collect_suites-Distinct (e ∷ es) groups a =
    collect_suites-Distinct es _ (push_run-Distinct e.name (join e.clients) e groups a)

push_clients-Distinct :
    (cs : List Text) (e : Entry) (groups : Groups)
    → Distinct groups
    → Distinct (push_clients cs e groups)
unfolding push_clients
push_clients-Distinct [] e groups a = a
push_clients-Distinct (c ∷ cs) e groups a =
    push_clients-Distinct cs e _ (push_run-Distinct c e.name e groups a)

collect_clients-Distinct :
    (es : List Entry) (groups : Groups) → Distinct groups → Distinct (collect_clients es groups)
unfolding collect_clients
collect_clients-Distinct [] groups a = a
collect_clients-Distinct (e ∷ es) groups a =
    collect_clients-Distinct es _ (push_clients-Distinct e.clients e groups a)

sort_and_limit-Distinct :
    (time : Text → ℕ) (groups : Groups) → Distinct groups → Distinct (sort_and_limit time groups)
unfolding sort_and_limit
sort_and_limit-Distinct time groups (d, a) = (
  update_values-DistinctKeys (update_values (recent_runs time)) groups d,
  update_values-AllValues DistinctKeys (update_values (recent_runs time)) groups
      (λ group h. update_values-DistinctKeys (recent_runs time) group h) a,
)

pub suite_groups-Distinct : (time : Text → ℕ) (es : List Entry) → Distinct (suite_groups time es)
unfolding suite_groups
suite_groups-Distinct time es =
    sort_and_limit-Distinct time _ (collect_suites-Distinct es [] (tt, tt))

pub process_client_groups-Distinct :
    (time : Text → ℕ) (es : List Entry) → Distinct (process_client_groups time es)
unfolding process_client_groups
process_client_groups-Distinct time es =
    sort_and_limit-Distinct time _ (collect_clients-Distinct es [] (tt, tt))
