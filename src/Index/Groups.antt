-- ===== src/Index/Groups.antt =====
-- The runs that the page shows for a suite and clients, or for a client and a suite, against the
-- entries of the listing.
pub mod Given
pub mod Distinct
use xrpl_hive.Base.{
  ℕ, true, false, ◌&&◌, List, [], ◌∷◌, ◌++◌, Option, none, some, Text, ◌≡◌, refl, ap, sym, ◌∙◌,
  if◌then◌else◌, Bool-cases, inl, inr, append_assoc, append-nil,
}
use mathlib.Core.Option
use xrpl_hive.Index.{
  Entry, Groups, push_run, join, collect_suites, push_clients, collect_clients, recent_runs,
  sort_and_limit, suite_groups, process_client_groups,
}
use xrpl_hive.Maps.{same, Map, get, put, ensure, update_values}
use xrpl_hive.Maps.{same_refl, same-≡, or_else, get-put, get-ensure, get-update_values}

-- The runs that stand under two keys.
abbrev pub look : Text → Text → Groups → Option (List Entry)
look outer inner groups = elim (get outer groups) as (λ _. Option (List Entry)) [
  | none ↦ none
  | some group ↦ get inner group
]

-- The runs of a group, if there are any, with others behind them.
abbrev pub extend : Option (List Entry) → List Entry → Option (List Entry)
extend o [] = o
extend none (e ∷ es) = some (e ∷ es)
extend (some runs) (e ∷ es) = some (runs ++ e ∷ es)

abbrev pushed_group : Text → Text → Entry → Groups → Map (List Entry)
pushed_group outer inner e groups =
    let group = or_else [] (get outer groups) in
    put inner (or_else [] (get inner group) ++ e ∷ []) (ensure inner [] group)

abbrev pushed : Text → Text → Entry → Groups → Groups
pushed outer inner e groups = put outer (pushed_group outer inner e groups) (ensure outer [] groups)

get-ensure_self {ℓ} :
    {V : Type ℓ} (k : Text) (v : V) (m : Map V) → get k (ensure k v m) ≡ some (or_else v (get k m))
get-ensure_self k v m = get-ensure k k v m ∙ rw (same_refl k) refl

push_run-pushed :
    (outer inner : Text) (e : Entry) (groups : Groups)
    → push_run outer inner e groups ≡ pushed outer inner e groups
unfolding push_run
push_run-pushed outer inner e groups =
    rw
      (
        push_run,
        get-ensure_self outer [] groups,
        get-ensure_self inner [] (or_else [] (get outer groups)),
      )
      refl

-- An outer key that is missing stands for an empty group.
get-or_else : (o i : Text) (groups : Groups) → get i (or_else [] (get o groups)) ≡ look o i groups
get-or_else o i groups = or_none (get o groups)
  where
    or_none :
        (x : Option (Map (List Entry)))
        → get i (or_else [] x)
          ≡ (elim x as (λ _. Option (List Entry)) [ none ↦ none | some group ↦ get i group ])
    or_none none = refl
    or_none (some group) = refl

extend_one :
    (x : Option (List Entry)) (e : Entry) → some (or_else [] x ++ e ∷ []) ≡ extend x (e ∷ [])
extend_one none e = refl
extend_one (some runs) e = refl

get-pushed :
    (o outer inner : Text) (e : Entry) (groups : Groups)
    → same o outer ≡ false
    → get o (pushed outer inner e groups) ≡ get o groups
get-pushed o outer inner e groups h =
    get-put o outer _ (ensure outer [] groups) ∙ rw (h) (get-ensure o outer [] groups ∙ rw h refl)

get-pushed_hit :
    (o outer inner : Text) (e : Entry) (groups : Groups)
    → same o outer ≡ true
    → get o (pushed outer inner e groups) ≡ some (pushed_group outer inner e groups)
get-pushed_hit o outer inner e groups h = get-put o outer _ (ensure outer [] groups) ∙ rw h refl

get-pushed_group :
    (i outer inner : Text) (e : Entry) (groups : Groups)
    → get i (pushed_group outer inner e groups)
      ≡ extend (look outer i groups) (if same i inner then e ∷ [] else [])
get-pushed_group i outer inner e groups =
    get-put i inner _ (ensure inner [] (or_else [] (get outer groups)))
    ∙ elim (Bool-cases (same i inner)) [
      | inl q ↦
          let k = same-≡ i inner q in
          rw (q, get-or_else outer inner groups, k) (extend_one (look outer inner groups) e)
      | inr q ↦
          rw (q, get-ensure i inner [] (or_else [] (get outer groups)), q)
            (get-or_else outer i groups)
    ]

look-push_run :
    (outer inner : Text) (e : Entry) (groups : Groups) (o i : Text)
    → look o i (push_run outer inner e groups)
      ≡ extend (look o i groups) (if same o outer && same i inner then e ∷ [] else [])
look-push_run outer inner e groups o i =
    rw (push_run-pushed outer inner e groups) (elim (Bool-cases (same o outer)) [
      | inl q ↦
          let k = same-≡ o outer q in
          rw (look, get-pushed_hit o outer inner e groups q, q)
            (get-pushed_group i outer inner e groups
              ∙ ap (λ t. extend (look t i groups) (if same i inner then e ∷ [] else [])) (sym k))
      | inr q ↦ rw (look, get-pushed o outer inner e groups q, q) refl
    ])

-- The entries of a suite for a list of clients, in the order of the listing.
abbrev pub runs_of_suite : Text → Text → List Entry → List Entry
runs_of_suite suite clients [] = []
runs_of_suite suite clients (e ∷ es) =
    (if same suite e.name && same clients (join e.clients) then e ∷ [] else [])
    ++ runs_of_suite suite clients es

-- An entry, once for each time that it names the client, if it is of the suite.
abbrev pub runs_of_entry : Text → Text → Entry → List Text → List Entry
runs_of_entry client suite e [] = []
runs_of_entry client suite e (c ∷ cs) =
    (if same client c && same suite e.name then e ∷ [] else []) ++ runs_of_entry client suite e cs

abbrev pub runs_of_client : Text → Text → List Entry → List Entry
runs_of_client client suite [] = []
runs_of_client client suite (e ∷ es) =
    runs_of_entry client suite e e.clients ++ runs_of_client client suite es

extend-extend :
    (x : Option (List Entry)) (a b : List Entry) → extend (extend x a) b ≡ extend x (a ++ b)
extend-extend x [] b = refl
extend-extend none (e ∷ a) [] = ap (λ t. some (e ∷ t)) (sym (append-nil a))
extend-extend (some r) (e ∷ a) [] = ap (λ t. some (r ++ e ∷ t)) (sym (append-nil a))
extend-extend none (e ∷ a) (f ∷ b) = refl
extend-extend (some r) (e ∷ a) (f ∷ b) = ap some (append_assoc r (e ∷ a) (f ∷ b))

look-collect_suites :
    (es : List Entry) (groups : Groups) (o i : Text)
    → look o i (collect_suites es groups) ≡ extend (look o i groups) (runs_of_suite o i es)
unfolding collect_suites
look-collect_suites [] groups o i = refl
look-collect_suites (e ∷ es) groups o i =
    look-collect_suites es (push_run e.name (join e.clients) e groups) o i
    ∙ ap (λ x. extend x (runs_of_suite o i es)) (look-push_run e.name (join e.clients) e groups o i)
    ∙ extend-extend (look o i groups) _ (runs_of_suite o i es)

look-push_clients :
    (cs : List Text) (e : Entry) (groups : Groups) (o i : Text)
    → look o i (push_clients cs e groups) ≡ extend (look o i groups) (runs_of_entry o i e cs)
unfolding push_clients
look-push_clients [] e groups o i = refl
look-push_clients (c ∷ cs) e groups o i =
    look-push_clients cs e (push_run c e.name e groups) o i
    ∙ ap (λ x. extend x (runs_of_entry o i e cs)) (look-push_run c e.name e groups o i)
    ∙ extend-extend (look o i groups) _ (runs_of_entry o i e cs)

look-collect_clients :
    (es : List Entry) (groups : Groups) (o i : Text)
    → look o i (collect_clients es groups) ≡ extend (look o i groups) (runs_of_client o i es)
unfolding collect_clients
look-collect_clients [] groups o i = refl
look-collect_clients (e ∷ es) groups o i =
    look-collect_clients es (push_clients e.clients e groups) o i
    ∙ ap (λ x. extend x (runs_of_client o i es)) (look-push_clients e.clients e groups o i)
    ∙ extend-extend (look o i groups) _ (runs_of_client o i es)

look-sort_and_limit :
    (time : Text → ℕ) (groups : Groups) (o i : Text)
    → look o i (sort_and_limit time groups) ≡ Option.map (recent_runs time) (look o i groups)
unfolding sort_and_limit
look-sort_and_limit time groups o i =
    ap (λ x. elim x as (λ _. Option (List Entry)) [ none ↦ none | some group ↦ get i group ])
      (get-update_values (update_values (recent_runs time)) o groups)
    ∙ inner (get o groups)
  where
    inner :
        (x : Option (Map (List Entry)))
        → (elim (Option.map (update_values (recent_runs time)) x) as (λ _. Option (List Entry)) [
          | none ↦ none
          | some group ↦ get i group
        ])
          ≡ Option.map
              (recent_runs time)
              (elim x as (λ _. Option (List Entry)) [ none ↦ none | some group ↦ get i group ])
    inner none = refl
    inner (some group) = get-update_values (recent_runs time) i group

-- The suite groups have, under a suite and a text of clients, the recent ones of the entries with that
-- name and these clients, in the order of the listing before the sort; and nothing if there is no
-- such entry.
pub suite_groups-runs_of_suite :
    (time : Text → ℕ) (entries : List Entry) (suite clients : Text)
    → look suite clients (suite_groups time entries)
      ≡ Option.map (recent_runs time) (extend none (runs_of_suite suite clients entries))
unfolding suite_groups
suite_groups-runs_of_suite time entries suite clients =
    look-sort_and_limit time (collect_suites entries []) suite clients
    ∙ ap (Option.map (recent_runs time)) (look-collect_suites entries [] suite clients)

-- The client groups have, under a client and a suite, the recent ones of the entries of that suite,
-- each as often as it names the client; and nothing if there is no such entry.
pub process_client_groups-runs_of_client :
    (time : Text → ℕ) (entries : List Entry) (client suite : Text)
    → look client suite (process_client_groups time entries)
      ≡ Option.map (recent_runs time) (extend none (runs_of_client client suite entries))
unfolding process_client_groups
process_client_groups-runs_of_client time entries client suite =
    look-sort_and_limit time (collect_clients entries []) client suite
    ∙ ap (Option.map (recent_runs time)) (look-collect_clients entries [] client suite)
