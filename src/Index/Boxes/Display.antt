-- ===== src/Index/Boxes/Display.antt =====
-- The boxes that the page displays for the groups of a listing.
use xrpl_hive.Base.{ℕ, Bool, true, false, List, [], ◌∷◌, Option, some, Text, ◌≡◌, ◌≢◌, refl, All}
use xrpl_hive.Sorting.{All-sort_by}
use xrpl_hive.Maps.{Map}
use xrpl_hive.Index.{Entry, suite_groups, process_client_groups}
use xrpl_hive.Index.Groups.Given.{GivenRuns, suite_groups-Given, process_client_groups-Given}
use xrpl_hive.Index.Boxes.{
  Dates, ClientBox, SuiteBox, box_of, collect_all, by_name, suite_box, display_suite_groups,
  client_box, display_client_groups,
}

-- Two lists, related item by item.
abbrev pub Pointwise {ℓ κ} : {A : Type ℓ} {B : Type κ} → (A → B → Type 0) → List A → List B → Type 0
Pointwise R [] [] = Unit
Pointwise R [] (y ∷ ys) = ⊥
Pointwise R (x ∷ xs) [] = ⊥
Pointwise R (x ∷ xs) (y ∷ ys) = R x y × Pointwise R xs ys

collect_all-Pointwise {ℓ κ} :
    {A : Type ℓ} {B : Type κ} (f : A → Option B) (P : A → Type 0) (R : A → B → Type 0) (xs : List A)
    → ((x : A) → P x → (y : B) × (f x ≡ some y) × R x y)
    → All P xs
    → (ys : List B) × (collect_all f xs ≡ some ys) × Pointwise R xs ys
unfolding collect_all
collect_all-Pointwise f P R [] each a = ([], refl, tt)
collect_all-Pointwise f P R (x ∷ xs) each a =
    let (y, e, r) = each x a.0 in
    let (ys, es, rs) = collect_all-Pointwise f P R xs each a.1 in
    (y ∷ ys, rw (collect_all, e, es) refl, (r, rs))

-- A client box shows the runs of a group: the figures are those of the first, the latest.
abbrev pub ShowsRuns : (Text → Text) → Text → Text → Text → List Entry → ClientBox → Type 0
ShowsRuns written suite client name [] box = ⊥
ShowsRuns written suite client name (latest ∷ runs) box =
    (box.suite ≡ suite)
    × (box.client ≡ client)
    × (box.name ≡ name)
    × (box.time ≡ written latest.start)
    × (box.passes ≡ latest.passes)
    × (box.fails ≡ latest.fails)
    × (box.selected ≡ false)

-- A box of a suite shows its groups in the order of their clients, and a box of a client its groups in
-- the order of their suites.
abbrev pub ShowsSuite : (Text → Text → Bool) → Text × Map (List Entry) → SuiteBox → Type 0
ShowsSuite locale_le (suite, results) box =
    (box.title ≡ suite)
    × (box.selected ≡ false)
    × Pointwise (λ (r : Text × List Entry). ShowsRuns (λ t. t) suite r.0 r.0 r.1)
        (by_name locale_le results) box.boxes

abbrev pub ShowsClient : (Text → Text → Bool) → Dates → Text × Map (List Entry) → SuiteBox → Type 0
ShowsClient locale_le dates (client, results) box =
    (box.title ≡ client)
    × (box.selected ≡ false)
    × Pointwise (λ (r : Text × List Entry). ShowsRuns dates.text r.0 client r.0 r.1)
        (by_name locale_le results) box.boxes

box_of-ShowsRuns :
    (dates : Dates) (written : Text → Text) (suite client name : Text) (runs : List Entry)
    → runs ≢ []
    → (box : ClientBox) × (box_of dates written suite client name runs ≡ some box)
      × ShowsRuns written suite client name runs box
unfolding box_of
box_of-ShowsRuns dates written suite client name [] h = absurd (h refl)
box_of-ShowsRuns dates written suite client name (latest ∷ runs) h =
    (_, refl, (refl, refl, refl, refl, refl, refl, refl))

module _ (locale_le : Text → Text → Bool) (dates : Dates) where
  suite_box-ShowsSuite :
      (g : Text × Map (List Entry))
      → GivenRuns g.1
      → (box : SuiteBox) × (suite_box locale_le dates g ≡ some box) × ShowsSuite locale_le g box
  unfolding suite_box by_name
  suite_box-ShowsSuite (suite, results) a =
      let (boxes, e, p) =
        collect_all-Pointwise (λ (r : Text × List Entry). box_of dates (λ t. t) suite r.0 r.0 r.1)
          (λ r. r.1 ≢ []) (λ r. ShowsRuns (λ t. t) suite r.0 r.0 r.1) (by_name locale_le results)
          (λ r. box_of-ShowsRuns dates (λ t. t) suite r.0 r.0 r.1)
          (All-sort_by (λ x y. locale_le x.0 y.0) (λ r. r.1 ≢ []) results a) in
      (
        record { by_client = false; title = suite; boxes = boxes; selected = false },
        rw (suite_box, e) refl,
        (refl, refl, p),
      )

  client_box-ShowsClient :
      (g : Text × Map (List Entry))
      → GivenRuns g.1
      → (box : SuiteBox) × (client_box locale_le dates g ≡ some box)
        × ShowsClient locale_le dates g box
  unfolding client_box by_name
  client_box-ShowsClient (client, results) a =
      let (boxes, e, p) =
        collect_all-Pointwise
          (λ (r : Text × List Entry). box_of dates dates.text r.0 client r.0 r.1) (λ r. r.1 ≢ [])
          (λ r. ShowsRuns dates.text r.0 client r.0 r.1) (by_name locale_le results)
          (λ r. box_of-ShowsRuns dates dates.text r.0 client r.0 r.1)
          (All-sort_by (λ x y. locale_le x.0 y.0) (λ r. r.1 ≢ []) results a) in
      (
        record { by_client = true; title = client; boxes = boxes; selected = false },
        rw (client_box, e) refl,
        (refl, refl, p),
      )

  -- For every listing, the display by suite has a box for each suite in the order of the names, and in
  -- it one for each list of clients, in order, with the figures of the latest run; and the display by
  -- client a box for each client, and in it one for each suite. No box is selected, and none of the two
  -- displays fails for a group without runs.
  pub display_groups-Pointwise :
      (time : Text → ℕ) (entries : List Entry)
      → ((boxes : List SuiteBox) × (display_suite_groups locale_le dates (suite_groups time entries)
            ≡ some boxes)
          × Pointwise (ShowsSuite locale_le) (by_name locale_le (suite_groups time entries)) boxes)
        × ((boxes : List SuiteBox) × (display_client_groups locale_le dates
                (process_client_groups time entries)
              ≡ some boxes)
            × Pointwise
                (ShowsClient locale_le dates)
                (by_name locale_le (process_client_groups time entries))
                boxes)
  unfolding display_suite_groups display_client_groups by_name
  display_groups-Pointwise time entries = (
    collect_all-Pointwise (suite_box locale_le dates) (λ g. GivenRuns g.1) (ShowsSuite locale_le)
        (by_name locale_le (suite_groups time entries)) suite_box-ShowsSuite
        (All-sort_by (λ x y. locale_le x.0 y.0) (λ g. GivenRuns g.1) (suite_groups time entries)
          (suite_groups-Given time entries)),
    collect_all-Pointwise (client_box locale_le dates) (λ g. GivenRuns g.1)
        (ShowsClient locale_le dates) (by_name locale_le (process_client_groups time entries))
        client_box-ShowsClient
        (All-sort_by (λ x y. locale_le x.0 y.0) (λ g. GivenRuns g.1)
          (process_client_groups time entries) (process_client_groups-Given time entries)),
  )
