-- ===== src/Viewer/Screen/Loading.antt =====
-- What the viewer shows for what it has loaded.
use xrpl_hive.Base.{
  ℕ, zero, suc, ◌+◌, ◌<◌, ◌≤◌, ◌≡◌, refl, ap, ◌∙◌, Bool, true, false, ◌&&◌, List, [], ◌∷◌, ◌++◌,
  Option, none, some, Text, Bytes, codes, map, get_elem?, length, take, drop, concat, arith, leb,
  some_inj,
}
use mathlib.Core.Option
use xrpl_hive.Browser.{Browser}
use xrpl_hive.Routes.{results_root}
use xrpl_hive.TestLog.Decode.{TextDecoder, Ascii}
use xrpl_hive.TestLog.Loader.{
  Server, Error, Offsets, Loader, new_loader, Outcome, done, thrown, out_of_fuel, ◌>>=◌,
}
use xrpl_hive.TestLog.Loader.Fetch.{Serves}
use xrpl_hive.TestLog.Tail.{text}
use xrpl_hive.TestLog.Tail.Whole.{text-region}
use xrpl_hive.Viewer.{ByteRange, Shown, Page, show_text, set_hl, byte_range_to_line_numbers}
use xrpl_hive.Viewer.Range.{
  line_number, line_number-append, line_number-pos, byte_range_to_line_numbers-line_number,
}
use xrpl_hive.Viewer.Highlight.{set_hl_rows}
use xrpl_hive.Viewer.Screen.{
  Screen, Loaded, loaded, failed, Err, SuiteFile, TestCase, test_case, fetch_file, highlight_file,
  fetch_test_log, show_error, show_test, show_log, after_load, no_error, show_raw_link,
}

get_elem?-map_const :
    (f : Bool → Bool) (ls : List Text) (i : ℕ)
    → Option.map f (get_elem? (map (λ _. false) ls) i) ≡ Option.map (λ _. f false) (get_elem? ls i)
get_elem?-map_const f [] i = refl
get_elem?-map_const f (l ∷ ls) zero = refl
get_elem?-map_const f (l ∷ ls) (suc i) = get_elem?-map_const f ls i

-- A file that is loaded for the bytes of a test is shown whole, and a row is highlighted exactly if its
-- line is among those from the first byte's to the last byte's, where the bytes are some and lie in
-- the file.
pub fetch_file_range :
    (b : Browser) (encode : Text → Bytes) (url : Text) (line : ℕ) (file : Text) (s : Screen)
    (r : ByteRange) (before inside : Bytes) (last : ℕ) (after : Bytes) (i : ℕ)
    → encode file ≡ before ++ (inside ++ last ∷ after)
    → r.begin ≡ length before
    → r.end ≡ length before + length inside + 1
    → (let s' = fetch_file b encode url line (some r) (loaded file) s in
        (s'.shown ≡ show_text file)
        × (get_elem? s'.page.content i
            ≡ Option.map
                (λ _.
                  leb (line_number before) (i + 1) && leb (i + 1) (line_number (before ++ inside)))
                (get_elem? (show_text file).lines i)))
unfolding fetch_file
fetch_file_range b encode url line file s r before inside last after i e h k =
    let fresh = map (λ _. false) (show_text file).lines in
    let p : Page = record { gutter = fresh; content = fresh; scrolled = s.page.scrolled } in
    let first = line_number before in
    let final = line_number (before ++ inside) in
    let lines =
      byte_range_to_line_numbers-line_number encode file r before inside last after e h k in
    let order : first ≤ final =
      omega (arith, line_number-append before inside, line_number-pos inside) in
    (
      refl,
      ap (λ n. get_elem? (set_hl n.start true n.end p).content i) lines
          ∙ (set_hl_rows first final true p i (line_number-pos before) order).1
          ∙ get_elem?-map_const (λ _. leb first (i + 1) && leb (i + 1) final) (show_text file).lines
              i,
    )

-- The first row says that there is an error, and so does the title.
abbrev pub ShowsError : Screen → Type 0
ShowsError s = (get_elem? s.shown.lines 0 ≡ some (codes "Error!")) × (s.file_title ≡ codes "Error")

show_error-ShowsError :
    (b : Browser) (text : Text) (err : Err) (s : Screen) → ShowsError (show_error b text err s)
unfolding show_error show_text
show_error-ShowsError b text err s = (refl, refl)

new_loader_range :
    (url : Text) (begin size : ℕ)
    → new_loader url (record { begin = begin; end = begin + size })
      ≡ done (record {
        log_file_name = url;
        length = size;
        offsets = record { begin = begin; end = begin + size };
      })
unfolding new_loader
new_loader_range url begin size = ground arith

module _ (b : Browser) (server : Server) (td : TextDecoder) (chunked : Bytes → List Bytes)
    (describe : Error → Text) (suite_file test_index : Text) (line : ℕ) (f : SuiteFile) (s : Screen)
    (test : TestCase) (found : test_case f test_index ≡ some test) where
  fetch_test_log-found :
      fetch_test_log b server td chunked describe suite_file test_index line (loaded f) s
      ≡ show_test b server td chunked describe f test line s
  unfolding fetch_test_log
  fetch_test_log-found =
      ap
        (λ o. elim o as (λ _. Screen) [
          | none ↦
              show_error b (codes "Invalid test data returned by server: " ++ f.json) no_error s
          | some t ↦ show_test b server td chunked describe f t line s
        ])
        found

  -- A test with neither output nor a place of it leaves the page without rows, under the title of the
  -- test: the error that was shown before is gone.
  pub fetch_test_log_nothing :
      test.details ≡ none
      → test.log ≡ none
      → (let s' =
            fetch_test_log b server td chunked describe suite_file test_index line (loaded f) s in
          (s'.shown.lines ≡ []) × (s'.file_title ≡ codes "Test: " ++ test.name))
  unfolding fetch_test_log xrpl_hive.Viewer.Screen.show_title
  fetch_test_log_nothing d n =
      let shown = fetch_test_log-found ∙ no_log test.details test.log d n in
      (ap (λ x. x.shown.lines) shown, ap (λ x. x.file_title) shown)
    where
      no_log :
          (details : Option Text) (log : Option Offsets)
          → details ≡ none
          → log ≡ none
          → show_test b server td chunked describe f
              (record { name = test.name; details = details; log = log })
              line
              s
            ≡ show_log test.name none line
                (show_error b (codes "test has no details/log") no_error s)
      no_log none none _ _ = refl
      no_log (some t) log d _ = cc
      no_log none (some o) _ n = cc

  -- What is shown for the loader of a log.
  loading : Outcome Loader → Screen
  loading r = elim r as (λ _. Screen) [
    | done l ↦
        after_load b server td chunked describe test.name line
          (show_raw_link (results_root ++ f.test_details_log) (some (codes "raw suite output")) s)
          (text server td chunked l)
    | thrown e ↦ after_load b server td chunked describe test.name line s (thrown e)
    | out_of_fuel ↦ s
  ]

  with_log :
      (details : Option Text) (log : Option Offsets) (o : Offsets)
      → details ≡ none
      → log ≡ some o
      → show_test b server td chunked describe f
          (record { name = test.name; details = details; log = log })
          line
          s
        ≡ loading (new_loader (results_root ++ f.test_details_log) o)
  unfolding show_test loading
  with_log none (some o') o _ n =
      ap (λ x. loading (new_loader (results_root ++ f.test_details_log) x)) (some_inj n)
  with_log (some t) log o d _ = cc
  with_log none none o _ n = cc

  -- If the log of a test lies in a file in ASCII, which the server gives by ranges, and is not empty,
  -- `fetchTestLog` shows the rows of the log, in whatever chunks it comes, under the title of the test.
  pub fetch_test_log_rows :
      (file : Bytes) (begin size : ℕ)
      → test.details ≡ none
      → test.log ≡ some (record { begin = begin; end = begin + size })
      → 0 < size
      → begin + size ≤ length file
      → Serves server (results_root ++ f.test_details_log) file
      → Ascii (take size (drop begin file))
      → ((body : Bytes) → concat (chunked body) ≡ body)
      → (let s' =
            fetch_test_log b server td chunked describe suite_file test_index line (loaded f) s in
          (s'.shown ≡ show_text (take size (drop begin file)))
          × (s'.file_title ≡ codes "Test: " ++ test.name))
  unfolding fetch_test_log xrpl_hive.Viewer.Screen.show_title loading
  fetch_test_log_rows file begin size d n pos_size fits served ascii parts =
      let url = results_root ++ f.test_details_log in
      let l : Loader = record {
        log_file_name = url;
        length = size;
        offsets = record { begin = begin; end = begin + size };
      } in
      let linked = show_raw_link url (some (codes "raw suite output")) s in
      let shown =
        fetch_test_log-found
        ∙ with_log test.details test.log (record { begin = begin; end = begin + size }) d n
        ∙ ap loading (new_loader_range url begin size)
        ∙ ap (after_load b server td chunked describe test.name line linked)
            (text-region server td chunked l file served ascii fits pos_size parts) in
      (ap (λ x. x.shown) shown, ap (λ x. x.file_title) shown)

  -- If the log of a test does not come, for its offsets or for the server's answer, `fetchTestLog`
  -- shows an error.
  pub fetch_test_log_fails :
      (o : Offsets) (e : Error)
      → test.details ≡ none
      → test.log ≡ some o
      → (new_loader (results_root ++ f.test_details_log) o >>= text server td chunked) ≡ thrown e
      → ShowsError
          (fetch_test_log b server td chunked describe suite_file test_index line (loaded f) s)
  unfolding after_load show_error loading text
  fetch_test_log_fails o e d n t =
      let shown = fetch_test_log-found ∙ with_log test.details test.log o d n in
      let (row, title) = fails (new_loader (results_root ++ f.test_details_log) o) t in
      (ap (λ x. get_elem? x.shown.lines 0) shown ∙ row, ap (λ x. x.file_title) shown ∙ title)
    where
      fails :
          (r : Outcome Loader) → (r >>= text server td chunked) ≡ thrown e → ShowsError (loading r)
      fails (done l) h =
          let linked =
            show_raw_link (results_root ++ f.test_details_log) (some (codes "raw suite output"))
              s in
          let after = ap (after_load b server td chunked describe test.name line linked) h in
          let (row, title) =
            show_error-ShowsError b (codes "Loading test log failed.")
              (Err.error (codes "Error") (describe e)) linked in
          (ap (λ x. get_elem? x.shown.lines 0) after ∙ row, ap (λ x. x.file_title) after ∙ title)
      fails (thrown e') h =
          show_error-ShowsError b (codes "Loading test log failed.")
            (Err.error (codes "Error") (describe e')) s
      fails out_of_fuel h = cc
