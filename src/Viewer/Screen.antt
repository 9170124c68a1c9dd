-- ===== src/Viewer/Screen.antt =====
-- cmd/hiveview/assets/lib/app-viewer.js: what the page shows for its URL and for what it loads. The
-- browser, the server and what they answer are parameters; HTML around a text is left out, and what is
-- not a number in the URL is none or 0, as the code reads it.
pub mod Opening
pub mod Loading
mod Tests
use xrpl_hive.Base.{
  ℕ, Bool, true, false, not, ◌&&◌, ◌||◌, List, [], ◌∷◌, ◌++◌, Option, none, some, Bytes, Text,
  codes, newline, length, map, drop, take, ◌==◌, if◌then◌else◌,
}
use xrpl_hive.Maps.{same, Map, get}
use xrpl_hive.Browser.{Browser, Location}
use xrpl_hive.Routes.{results_root, suite, test_in_suite, query_param}
use xrpl_hive.TestLog.Decode.{TextDecoder}
use xrpl_hive.TestLog.Loader.{
  Server, Error, Offsets, new_loader, Outcome, done, thrown, out_of_fuel, ◌>>=◌,
}
use xrpl_hive.TestLog.Tail.{text}
use xrpl_hive.Viewer.{
  ByteRange, LineRange, Page, Shown, show_text, set_hl, byte_range_to_line_numbers,
}

pub record Link : Type 0 where
  pub url : Text
  pub text : Text

-- The page: its titles, the links, the input of a file name, the rows and the highlight.
pub record Screen : Type 0 where
  pub document_title : Text
  pub file_title : Text
  pub link_back : Option Link
  pub raw_url : Option Text
  pub raw_text : Option Text
  pub file_load : Text
  pub shown : Shown
  pub page : Page

-- What the page loads next, if anything: the log of a test in a suite file, or a file.
pub data Request : Type 0 where
  nothing : Request
  suite_request : Text → Text → ℕ → Request
  file_request : Text → ℕ → Option ByteRange → Request

-- What is caught by a `catch`, as far as `showError` tells it.
pub data Err : Type 0 where
  no_error : Err
  error : Text → Text → Err
  status : ℕ → Err
  other : Text → Err

abbrev given : Option Text → Bool
given none = false
given (some []) = false
given (some (c ∷ t)) = true

-- A value in a text: `null` is its name.
abbrev pub text_of : Option Text → Text
text_of none = codes "null"
text_of (some t) = t

-- `showText` on the page: new rows, none of them highlighted.
pub put_text : Text → Screen → Screen
put_text t s =
    let shown = show_text t in
    let fresh = map (λ _. false) shown.lines in
    record s {
      shown = shown;
      page = record { gutter = fresh; content = fresh; scrolled = s.page.scrolled };
    }

-- `showText(undefined)` throws at `split`, when the rows are gone and the count is not yet set.
pub put_undefined : Screen → Screen
put_undefined s = record s {
  shown = record { lines = []; line_count = s.shown.line_count };
  page = record { gutter = []; content = []; scrolled = s.page.scrolled };
}

pub show_title : Option Text → Text → Screen → Screen
show_title type title s = record s {
  document_title = title ++ codes " - xrpl hive";
  file_title = elim type as (λ _. Text) [ none ↦ title | some t ↦ t ++ (codes " " ++ title) ];
}

pub show_raw_link : Text → Option Text → Screen → Screen
show_raw_link url text s = record s {
  raw_url = some url;
  raw_text = if given text then text else s.raw_text;
}

module _ (b : Browser) where
  err_text : Err → Text
  err_text no_error = []
  err_text (error name message) = codes "\n" ++ (name ++ (codes ": " ++ message))
  err_text (status n) = codes "\nstatus " ++ b.write n
  err_text (other t) = codes "\n" ++ t

  pub show_error : Text → Err → Screen → Screen
  unfolding err_text put_text
  show_error text err s =
      put_text (codes "Error!\n" ++ (text ++ err_text err))
        (record s { file_title = codes "Error" })

  pub show_link_back : Text → Option Text → Option Text → Screen → Screen
  show_link_back suite_id suite_name test_id s =
      let name = text_of suite_name in
      let test = text_of test_id in
      let link : Link =
        (if given test_id
          then record {
            url = test_in_suite b suite_id name test;
            text = codes "Back to test " ++ (test ++ (codes " in suite ‘" ++ (name ++ codes "’")));
          }
          else record {
            url = suite b suite_id name;
            text = codes "Back to test suite ‘" ++ (name ++ codes "’");
          }) in
      record s { link_back = some link }

  -- `parseInt` of the text behind "#L", where null and NaN are 0.
  line_of : Text → ℕ
  line_of [] = 0
  line_of (c ∷ t) =
      if c == 76 then elim (b.parse_int t) as (λ _. ℕ) [ none ↦ 0 | some n ↦ n ] else 0

  pub byte_range_of : Option Text → Option Text → Option ByteRange
  byte_range_of none end = none
  byte_range_of (some begin) none = none
  byte_range_of (some begin) (some end) = elim (b.parse_int begin) as (λ _. Option ByteRange) [
    | none ↦ none
    | some x ↦ elim (b.parse_int end) as (λ _. Option ByteRange) [
      | none ↦ none
      | some y ↦ some (record { begin = x; end = y })
    ]
  ]

  -- The handler of the ready event, for the hash and the parameters of the URL. `example` is the text of
  -- the page without parameters.
  unfoldable pub open_page : Text → Text → (Text → Option Text) → Screen → Screen × Request
  unfolding line_of byte_range_of show_link_back show_error put_text
  open_page example hash param s =
      let line = line_of hash in
      let byte_range = byte_range_of (param (codes "begin")) (param (codes "end")) in
      let suite_file = param (codes "suiteid") in
      let test_index = param (codes "testid") in
      let file = param (codes "file") in
      let s' =
        (if given suite_file
          then show_link_back (text_of suite_file) (param (codes "suitename")) test_index s
          else s) in
      if same (text_of (param (codes "showtestlog"))) (codes "1")
      then (if not (given suite_file) || not (given test_index)
          then (
            show_error (codes "Invalid parameters! Missing 'suitefile' or 'testid' in URL.")
                no_error s',
            nothing,
          )
          else (s', suite_request (results_root ++ text_of suite_file) (text_of test_index) line))
      else (if given file
          then (
            put_text (codes "Loading file...") (record s' { file_load = text_of file }),
            file_request (text_of file) line byte_range,
          )
          else (put_text example s', nothing))

  unfoldable pub ready : Text → Location → Screen → Screen × Request
  unfolding open_page
  ready example l s = open_page example l.hash (query_param b l) s

-- What a load comes to.
pub data Loaded {ℓ} (A : Type ℓ) : Type ℓ where
  loaded : A → Loaded A
  failed : Err → Loaded A

-- `url.replace(resultsRE, '')`.
pub without_root : Text → Text
without_root url =
    if same (take (length results_root) url) results_root
    then drop (length results_root) url
    else url

-- The end of `fetchFile`: the byte range if there is one, else the line.
pub highlight_file : (Text → Bytes) → Text → ℕ → Option ByteRange → Screen → Screen
highlight_file encode text line none s = record s { page = set_hl line true 0 s.page }
highlight_file encode text line (some range) s =
    let lines = byte_range_to_line_numbers encode text range in
    record s { page = set_hl lines.start true lines.end s.page }

-- `fetchFile`, for what the load of the file comes to.
unfoldable pub fetch_file :
    Browser → (Text → Bytes) → Text → ℕ → Option ByteRange → Loaded Text → Screen → Screen
unfolding show_raw_link show_error put_text show_title highlight_file
fetch_file b encode url line byte_range (failed err) s =
    show_error b (codes "Failed to load " ++ url) err (show_raw_link url none s)
fetch_file b encode url line byte_range (loaded text) s =
    highlight_file encode text line byte_range
      (put_text text (show_title none (without_root url) (show_raw_link url none s)))

-- A test case, with its output or the place of it.
pub record TestCase : Type 0 where
  pub name : Text
  pub details : Option Text
  pub log : Option Offsets

-- A suite file, and the text that `JSON.stringify` makes of it.
pub record SuiteFile : Type 0 where
  pub test_cases : Option (Map TestCase)
  pub test_details_log : Text
  pub json : Text

-- `data['testCases'][testIndex]`.
abbrev pub test_case : SuiteFile → Text → Option TestCase
test_case f test_index = elim f.test_cases as (λ _. Option TestCase) [
  | none ↦ none
  | some cases ↦ get test_index cases
]

-- The end of `fetchTestLog`; the text is undefined where a test has none.
pub show_log : Text → Option Text → ℕ → Screen → Screen
unfolding put_undefined
show_log name none line s = put_undefined (show_title (some (codes "Test:")) name s)
show_log name (some t) line s =
    let s' = put_text t (show_title (some (codes "Test:")) name s) in
    record s' { page = set_hl line true 0 s'.page }

-- `describe` gives the message of an error of the loader, `chunked` the chunks in which a body comes.
module _ (b : Browser) (server : Server) (td : TextDecoder) (chunked : Bytes → List Bytes)
    (describe : Error → Text) where
  after_load : Text → ℕ → Screen → Outcome Text → Screen
  after_load name line s (done t) = show_log name (some t) line s
  after_load name line s (thrown e) =
      show_error b (codes "Loading test log failed.") (error (codes "Error") (describe e)) s
  after_load name line s out_of_fuel = s

  -- A suite without a log to load was shown before.
  show_test : SuiteFile → TestCase → ℕ → Screen → Screen
  unfolding after_load
  show_test f test line s =
      if given test.details
      then show_log test.name test.details line s
      else elim test.log as (λ _. Screen) [
        | none ↦
            show_log test.name none line (show_error b (codes "test has no details/log") no_error s)
        | some offsets ↦
            let url = results_root ++ f.test_details_log in
            elim (new_loader url offsets) as (λ _. Screen) [
              | done l ↦
                  after_load test.name line (show_raw_link url (some (codes "raw suite output")) s)
                    (text server td chunked l)
              | thrown e ↦ after_load test.name line s (thrown e)
              | out_of_fuel ↦ s
            ]
      ]

  -- `fetchTestLog`, for what the load of the suite file comes to.
  unfoldable pub fetch_test_log : Text → Text → ℕ → Loaded SuiteFile → Screen → Screen
  unfolding show_test show_error show_log put_text
  fetch_test_log suite_file test_index line (failed err) s =
      show_error b (codes "Can't load suite file: " ++ suite_file) err s
  fetch_test_log suite_file test_index line (loaded f) s =
      elim (test_case f test_index) as (λ _. Screen) [
        | none ↦ show_error b (codes "Invalid test data returned by server: " ++ f.json) no_error s
        | some test ↦ show_test f test line s
      ]
