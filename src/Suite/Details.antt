-- ===== src/Suite/Details.antt =====
-- cmd/hiveview/assets/lib/app-suite.js: the box with the details of a test, by what its elements say,
-- and the links to the logs of its clients. The functions on HTML texts are parameters; every test has a
-- description.
pub mod Shown
pub mod Arrived
pub mod Refused
mod Tests
mod LogTests
use mathlib.Core.Option
use xrpl_hive.Base.{
  ℕ, Bool, true, false, not, ◌&&◌, ◌||◌, List, [], ◌∷◌, ◌++◌, Option, none, some, Text, ℤ, codes,
  map, ◌==◌, if◌then◌else◌,
}
use xrpl_hive.Maps.{Map}
use xrpl_hive.Browser.{Browser}
use xrpl_hive.Routes.{results_root, LogOffsets, client_log}
use xrpl_hive.Utils.{format_duration}
use xrpl_hive.Suite.{TestCase}
use xrpl_hive.Suite.Output.{
  Line, Block, LogData, no_items, highlight_errors_in_test_output, format_test_log,
}
use xrpl_hive.TestLog.Lines.{HeadTail, split_head_tail}
use xrpl_hive.TestLog.Loader.{
  Error, Offsets, Loader, Outcome, done, thrown, out_of_fuel, ◌>>=◌, new_loader,
}
use xrpl_hive.TestLog.Tail.{Ends}

-- An entry of `clientInfo`.
pub record Instance : Type 0 where
  pub name : Text
  pub log_file : Text
  pub log_offsets : Option LogOffsets

-- A test of the suite file.
pub record Test : Type 0 where
  pub name : Text
  pub description : Text
  pub result : TestCase
  pub details : Option Text
  pub log : Option Offsets
  pub client_info : Option (Map Instance)

-- A test with what the page adds to it.
pub record Case : Type 0 where
  pub test_index : Text
  pub duration : ℤ
  pub test : Test

-- The suite file, but for its tests.
pub record Origin : Type 0 where
  pub suite_id : Text
  pub name : Text
  pub test_details_log : Text

pub data TestStatus : Type 0 where
  passed : TestStatus
  timeout : TestStatus
  fail : TestStatus

unfoldable pub format_test_status : TestCase → TestStatus
format_test_status result = if result.pass then passed else if result.timeout then timeout else fail

-- A link to a log, with the bytes that its title names.
pub record LogLink : Type 0 where
  pub url : Text
  pub text : Text
  pub bytes : Option LogOffsets

unfoldable pub test_has_clients : Test → Bool
test_has_clients test = elim test.client_info as (λ _. Bool) [
  | none ↦ false
  | some m ↦ not (no_items m)
]

-- The functions of html.js and of texts that the box uses.
pub record Html : Type 0 where
  pub encode : Text → Text
  pub urls_to_links : Text → Text
  pub sanitize : Text → Text
  pub trim : Text → Text

-- What the box has, in order.
pub data Section : Type 0 where
  status : TestStatus → Section
  clients : List LogLink → Section
  duration : Text → Section
  description : Text → Section
  details : List Block → Section
  spinner : Section
  failure : Line → Section
  no_output : Section

-- The columns that the table hides.
pub record Hidden : Type 0 where
  pub status : Bool
  pub logs : Bool
  pub duration : Bool

abbrev contains : ℕ → Text → Bool
contains c [] = false
contains c (x ∷ t) = x == c || contains c t

-- `/<[^>]*>/`: a '<' and a '>' somewhere behind it.
abbrev pub has_tag : Text → Bool
has_tag [] = false
has_tag (c ∷ t) = let rest = has_tag t in c == 60 && contains 62 t || rest

abbrev pub when {ℓ} : {A : Type ℓ} → Bool → A → List A
when true x = x ∷ []
when false x = []

module _ (b : Browser) (html : Html) where
  log_link : Origin → Text → Instance → LogLink
  log_link suite test_index i = record {
    url =
        client_log b suite.suite_id suite.name test_index (results_root ++ i.log_file)
          i.log_offsets;
    text = i.name;
    bytes = i.log_offsets;
  }

  unfoldable pub format_client_logs_list : Origin → Text → Option (Map Instance) → List LogLink
  unfolding log_link
  format_client_logs_list suite test_index none = []
  format_client_logs_list suite test_index (some info) =
      map (λ (i : Text × Instance). log_link suite test_index i.1) info

  description_html : Text → Text
  description_html text =
      let text' = html.trim text in
      if has_tag text' then html.sanitize text' else html.urls_to_links (html.encode text')

  -- The box in front of the output.
  pub header_sections : Origin → Hidden → Case → List Section
  unfolding format_test_status test_has_clients format_client_logs_list description_html
  header_sections suite hidden d =
      when hidden.status (Section.status (format_test_status d.test.result))
      ++ when (hidden.logs && test_has_clients d.test)
          (Section.clients (format_client_logs_list suite d.test_index d.test.client_info))
      ++ when hidden.duration (Section.duration (format_duration b.write d.duration))
      ++ when (not (no_items d.test.description))
          (Section.description (description_html d.test.description))

  abbrev pub log_section : Origin → Text → LogData → Section
  log_section suite test_index log =
      Section.details (format_test_log html.encode b suite.suite_id suite.name test_index log)

  -- The output that stands in the test, at most 25 lines of its head and its tail.
  pub inline_output : Origin → Case → Text → Outcome Section
  inline_output suite d text = elim (split_head_tail text 25) as (λ _. Outcome Section) [
    | none ↦ out_of_fuel
    | some r ↦ done (
        log_section suite d.test_index
          (record { head = r.head; tail = r.tail; hidden_lines = some r.hidden_lines }))
  ]

  -- The output in a file of its own, or none.
  after_details : List Section → Origin → Case → Outcome (List Section × Option Loader)
  after_details header suite d = elim d.test.log as (λ _. Outcome (List Section × Option Loader)) [
    | none ↦ done (header ++ Section.no_output ∷ [], none)
    | some offsets ↦
        new_loader (results_root ++ suite.test_details_log) offsets
        >>= (λ l. done (header ++ Section.spinner ∷ [], some l))
  ]

  -- `formatTestDetails`: the box, and the loader of the log that it waits for, if any. The constructor of
  -- the loader can throw.
  unfoldable pub format_test_details :
      Origin → Hidden → Case → Outcome (List Section × Option Loader)
  unfolding header_sections inline_output after_details
  format_test_details suite hidden d =
      let header = header_sections suite hidden d in
      elim d.test.details as (λ _. Outcome (List Section × Option Loader)) [
        | none ↦ after_details header suite d
        | some text ↦
            if no_items text
            then after_details header suite d
            else inline_output suite d text >>= (λ s. done (header ++ s ∷ [], none))
      ]

  pub without_spinner : List Section → List Section
  without_spinner [] = []
  without_spinner (Section.spinner ∷ s) = without_spinner s
  without_spinner (x ∷ s) = x ∷ without_spinner s

  -- The box when the head and the tail of the log are there, or an error; how many lines are hidden is
  -- not known. `describe` is the text of an error.
  unfoldable pub log_arrived :
      (Error → Text) → Origin → Case → Outcome Ends → List Section → List Section
  unfolding without_spinner
  log_arrived describe suite d (done ends) box =
      without_spinner box
      ++ log_section suite d.test_index
          (record { head = ends.head; tail = ends.tail; hidden_lines = none })
        ∷ []
  log_arrived describe suite d (thrown e) box =
      without_spinner box ++ Section.failure (highlight_errors_in_test_output (describe e)) ∷ []
  log_arrived describe suite d out_of_fuel box = box
