-- ===== src/Index/Boxes/Tests.antt =====
-- Boxes of a listing, and an instance of what the display shows.
use xrpl_hive.Base.{
  Bool, true, false, ◌⊎◌, inl, inr, Bool-cases, arith, List, [], ◌∷◌, some, Text, codes, ◌≡◌, refl,
  leb, map,
}
use mathlib.Core.Option
use xrpl_hive.Index.{suite_groups, process_client_groups}
use xrpl_hive.Index.Tests.{digit, listing}
use xrpl_hive.Index.Boxes.{
  Dates, ClientBox, SuiteBox, by_name, display_suite_groups, display_client_groups,
}
use xrpl_hive.Index.Boxes.Listed.{BySuite, ByClient, display_groups-Displays}

-- Names in the order of their first characters, and a time that is not shown.
abbrev first_le : Text → Text → Bool
first_le [] t = true
first_le (c ∷ s) [] = false
first_le (c ∷ s) (d ∷ t) = leb c d

abbrev no_dates : Dates
no_dates = record { ago = λ t. []; text = λ t. t }

abbrev no_time : Text → Text
no_time t = []

titles : List SuiteBox → List (Text × List Text)
titles = map (λ (box : SuiteBox). (box.title, map (λ (c : ClientBox). c.client) box.boxes))

display_suite_groups_run :
    Option.map titles (display_suite_groups first_le no_dates (suite_groups digit listing))
    ≡ some ((codes "rpc", codes "a" ∷ []) ∷ (codes "sync", codes "a,b" ∷ []) ∷ [])
unfolding titles display_suite_groups suite_groups xrpl_hive.Index.Boxes.suite_box
    xrpl_hive.Index.recent_runs xrpl_hive.Index.join xrpl_hive.Sorting.sort_by
display_suite_groups_run = refl

first_total : (a b : Text) → (first_le a b ≡ true) ⊎ (first_le b a ≡ true)
first_total [] b = inl refl
first_total (c ∷ a) [] = inr refl
first_total (c ∷ a) (d ∷ b) = elim (Bool-cases (leb c d)) [
  | inl q ↦ inl q
  | inr q ↦ inr (ground arith)
]

first_trans : (a b c : Text) → first_le a b ≡ true → first_le b c ≡ true → first_le a c ≡ true
first_trans [] b c p q = refl
first_trans (x ∷ a) [] c p q = cc
first_trans (x ∷ a) (y ∷ b) [] p q = cc
first_trans (x ∷ a) (y ∷ b) (z ∷ c) p q = ground arith

display_groups-Displays_example :
    ((boxes : List SuiteBox) × (display_suite_groups first_le no_dates (suite_groups digit listing)
        ≡ some boxes)
      × BySuite first_le no_dates digit first_total first_trans listing boxes)
    × ((boxes : List SuiteBox) × (display_client_groups first_le no_dates
            (process_client_groups digit listing)
          ≡ some boxes)
        × ByClient first_le no_dates digit first_total first_trans listing boxes)
display_groups-Displays_example =
    display_groups-Displays first_le no_dates digit first_total first_trans listing
