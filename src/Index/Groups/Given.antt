-- ===== src/Index/Groups/Given.antt =====
-- No group of runs is empty.
use xrpl_hive.Base.{
  ℕ, List, [], ◌∷◌, ◌++◌, none, some, Text, ◌≡◌, ◌≢◌, refl, ap, arith, Bool-cases, inl, inr,
  Option-cases, All, take,
}
use xrpl_hive.Maps.{same, Map, get, put, ensure, update_values, or_else, same_refl}
use xrpl_hive.Index.{
  Entry, Groups, push_run, join, collect_suites, push_clients, collect_clients, insert_run,
  sort_runs, recent_runs, sort_and_limit, suite_groups, process_client_groups,
}
use xrpl_hive.Index.Groups.{pushed_group, push_run-pushed}

abbrev pub GivenRuns : Map (List Entry) → Type 0
GivenRuns group = All (λ r. r.1 ≢ []) group

abbrev pub Given : Groups → Type 0
Given groups = All (λ g. GivenRuns g.1) groups

module _ {V : Type 0} (P : V → Type 0) where
  abbrev pub AllValues : Map V → Type 0
  AllValues m = All (λ e. P e.1) m

  put-AllValues : (k : Text) (v : V) (m : Map V) → P v → AllValues m → AllValues (put k v m)
  put-AllValues k v [] p a = (p, tt)
  put-AllValues k v ((j, w) ∷ m) p a = elim (Bool-cases (same k j)) [
    | inl q ↦ rw (put, q) (p, a.1)
    | inr q ↦ rw (put, q) (a.0, put-AllValues k v m p a.1)
  ]

  pub or_else-get-AllValues :
      (k : Text) (d : V) (m : Map V) → P d → AllValues m → P (or_else d (get k m))
  or_else-get-AllValues k d [] p a = p
  or_else-get-AllValues k d ((j, w) ∷ m) p a = elim (Bool-cases (same k j)) [
    | inl q ↦ rw (get, q) a.0
    | inr q ↦ rw (get, q) (or_else-get-AllValues k d m p a.1)
  ]

  -- A value that is put in the place of another.
  put-put-AllValues :
      (k : Text) (v w : V) (m : Map V) → P v → AllValues m → AllValues (put k v (put k w m))
  put-put-AllValues k v w [] p a = rw (put, same_refl k) (p, tt)
  put-put-AllValues k v w ((j, x) ∷ m) p a = elim (Bool-cases (same k j)) [
    | inl q ↦ rw (put, q, put, q) (p, a.1)
    | inr q ↦ rw (put, q, put, q) (a.0, put-put-AllValues k v w m p a.1)
  ]

  pub put-ensure-AllValues :
      (k : Text) (v w : V) (m : Map V) → P v → AllValues m → AllValues (put k v (ensure k w m))
  put-ensure-AllValues k v w m p a = elim (Option-cases (get k m)) [
    | inl e ↦
        let q : ensure k w m ≡ put k w m =
          ap (λ o. elim o as (λ _. Map V) [ none ↦ put k w m | some x ↦ m ]) e in
        rw q (put-put-AllValues k v w m p a)
    | inr (x, e) ↦
        let q : ensure k w m ≡ m =
          ap (λ o. elim o as (λ _. Map V) [ none ↦ put k w m | some y ↦ m ]) e in
        rw q (put-AllValues k v m p a)
  ]

  pub update_values-AllValues :
      (f : V → V) (m : Map V)
      → ((v : V) → P v → P (f v))
      → AllValues m
      → AllValues (update_values f m)
  update_values-AllValues f [] h a = tt
  update_values-AllValues f ((k, v) ∷ m) h a = (h v a.0, update_values-AllValues f m h a.1)

snoc-given : (runs : List Entry) (e : Entry) → runs ++ e ∷ [] ≢ []
snoc-given [] e h = cc
snoc-given (r ∷ runs) e h = cc

push_run-Given :
    (outer inner : Text) (e : Entry) (groups : Groups)
    → Given groups
    → Given (push_run outer inner e groups)
push_run-Given outer inner e groups a =
    let group = or_else [] (get outer groups) in
    let group_given = or_else-get-AllValues GivenRuns outer [] groups tt a in
    let runs = or_else [] (get inner group) in
    rw (push_run-pushed outer inner e groups) (
      put-ensure-AllValues GivenRuns outer (pushed_group outer inner e groups) [] groups
        (put-ensure-AllValues (λ r. r ≢ []) inner (runs ++ e ∷ []) [] group (snoc-given runs e)
          group_given)
        a)

collect_suites-Given :
    (es : List Entry) (groups : Groups) → Given groups → Given (collect_suites es groups)
unfolding collect_suites
collect_suites-Given [] groups a = a
collect_suites-Given (e ∷ es) groups a =
    collect_suites-Given es _ (push_run-Given e.name (join e.clients) e groups a)

push_clients-Given :
    (cs : List Text) (e : Entry) (groups : Groups) → Given groups → Given (push_clients cs e groups)
unfolding push_clients
push_clients-Given [] e groups a = a
push_clients-Given (c ∷ cs) e groups a =
    push_clients-Given cs e _ (push_run-Given c e.name e groups a)

collect_clients-Given :
    (es : List Entry) (groups : Groups) → Given groups → Given (collect_clients es groups)
unfolding collect_clients
collect_clients-Given [] groups a = a
collect_clients-Given (e ∷ es) groups a =
    collect_clients-Given es _ (push_clients-Given e.clients e groups a)

recent_runs-given : (time : Text → ℕ) (runs : List Entry) → runs ≢ [] → recent_runs time runs ≢ []
unfolding recent_runs sort_runs insert_run
recent_runs-given time [] h = absurd (h refl)
recent_runs-given time (e ∷ es) h = inserted (sort_runs time es)
  where
    inserted : (xs : List Entry) → take 5 (insert_run time e xs) ≢ []
    inserted [] k = cc
    inserted (x ∷ xs) k = ground arith

sort_and_limit-Given :
    (time : Text → ℕ) (groups : Groups) → Given groups → Given (sort_and_limit time groups)
unfolding sort_and_limit
sort_and_limit-Given time groups a =
    update_values-AllValues GivenRuns (update_values (recent_runs time)) groups
      (λ group.
        update_values-AllValues (λ r. r ≢ []) (recent_runs time) group (recent_runs-given time))
      a

pub suite_groups-Given : (time : Text → ℕ) (es : List Entry) → Given (suite_groups time es)
unfolding suite_groups
suite_groups-Given time es = sort_and_limit-Given time _ (collect_suites-Given es [] tt)

pub process_client_groups-Given :
    (time : Text → ℕ) (es : List Entry) → Given (process_client_groups time es)
unfolding process_client_groups
process_client_groups-Given time es = sort_and_limit-Given time _ (collect_clients-Given es [] tt)
