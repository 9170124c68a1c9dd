-- ===== src/Index/Boxes/Listed.antt =====
-- What the page displays of a listing.
use xrpl_hive.Base.{ℕ, Bool, true, List, some, Text, ◌≡◌, ◌⊎◌}
use xrpl_hive.Index.{Entry, suite_groups, process_client_groups}
use xrpl_hive.Index.Groups.{
  runs_of_suite, runs_of_client, suite_groups-runs_of_suite, process_client_groups-runs_of_client,
}
use xrpl_hive.Index.Groups.Distinct.{suite_groups-Distinct, process_client_groups-Distinct}
use xrpl_hive.Index.Boxes.{Dates, SuiteBox, display_suite_groups, display_client_groups}
use xrpl_hive.Index.Boxes.Display.{display_groups-Pointwise}
use xrpl_hive.Index.Boxes.Latest.{Displays, shown_Displays}

module _ (locale_le : Text → Text → Bool) (dates : Dates) (time : Text → ℕ)
    (total : (a b : Text) → (locale_le a b ≡ true) ⊎ (locale_le b a ≡ true))
    (trans : (a b c : Text)
      → locale_le a b ≡ true
      → locale_le b c ≡ true
      → locale_le a c ≡ true) where
  -- The display by suite: a box for a suite, in it one for each text of clients.
  abbrev pub BySuite : List Entry → List SuiteBox → Type 0
  BySuite entries =
      Displays locale_le time (λ t. t) (λ suite clients. suite) (λ suite clients. clients)
        (λ suite clients. runs_of_suite suite clients entries)

  -- The display by client: a box for a client, in it one for each suite, with the text of a `Date`.
  abbrev pub ByClient : List Entry → List SuiteBox → Type 0
  ByClient entries =
      Displays locale_le time dates.text (λ client suite. suite) (λ client suite. client)
        (λ client suite. runs_of_client client suite entries)

  -- The comparison of names is total and transitive. Then both displays of a listing come out without an
  -- error. The titles of the boxes are in order, and so are the names of the client boxes in each. A client
  -- box has the start and the figures of a run of its suite and clients, or of its client and suite, and
  -- none of the others is newer; and there is a box for every suite and list of clients, or client and
  -- suite, that has a run. No box is selected. By client, the start is the text of a `Date`.
  pub display_groups-Displays :
      (entries : List Entry)
      → ((boxes : List SuiteBox) × (display_suite_groups locale_le dates (suite_groups time entries)
            ≡ some boxes)
          × BySuite entries boxes)
        × ((boxes : List SuiteBox) × (display_client_groups locale_le dates
                (process_client_groups time entries)
              ≡ some boxes)
            × ByClient entries boxes)
  display_groups-Displays entries =
      let ((by_suite, e, p), (by_client, f, q)) =
        display_groups-Pointwise locale_le dates time entries in
      (
        (
          by_suite,
          e,
          shown_Displays locale_le time (λ t. t) (λ suite clients. suite) (λ suite clients. clients)
              (λ suite clients. runs_of_suite suite clients entries) total trans
              (suite_groups time entries) (suite_groups-Distinct time entries)
              (suite_groups-runs_of_suite time entries) by_suite p,
        ),
        (
          by_client,
          f,
          shown_Displays locale_le time dates.text (λ client suite. suite) (λ client suite. client)
              (λ client suite. runs_of_client client suite entries) total trans
              (process_client_groups time entries) (process_client_groups-Distinct time entries)
              (process_client_groups-runs_of_client time entries) by_client q,
        ),
      )
