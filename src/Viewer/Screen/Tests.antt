-- ===== src/Viewer/Screen/Tests.antt =====
-- Runs of the viewer's page, and an instance of each result.
use xrpl_hive.Base.{
  ◌+◌, ◌≡◌, refl, true, List, [], ◌∷◌, none, some, Text, Bytes, codes, slice, get_elem?, arith,
  append-nil,
}
use mathlib.Core.Option
use xrpl_hive.Browser.{location}
use xrpl_hive.Browser.Example.{example_browser}
use xrpl_hive.Routes.{LogOffsets, client_log}
use xrpl_hive.TestLog.Decode.{byte_decoder}
use xrpl_hive.TestLog.Loader.{Server, Error}
use xrpl_hive.Base.{pos, negsuc}
use xrpl_hive.Viewer.{show_text}
use xrpl_hive.Viewer.Screen.{
  Screen, file_request, ready, loaded, SuiteFile, TestCase, fetch_file, fetch_test_log,
}
use xrpl_hive.Viewer.Screen.Opening.{Opens, back_to_test, ready-client_log}
use xrpl_hive.Viewer.Screen.Loading.{fetch_file_range, fetch_test_log_rows}

abbrev blank : Screen
blank = record {
  document_title = [];
  file_title = [];
  link_back = none;
  raw_url = none;
  raw_text = none;
  file_load = [];
  shown = record { lines = []; line_count = 0 };
  page = record { gutter = []; content = []; scrolled = none };
}

abbrev offsets : LogOffsets
offsets = record { begin = 2; end = 4 }

ready-client_log_example :
    Opens
      (ready example_browser []
        (location (
          client_log example_browser
            (codes "s")
            (codes "n")
            (codes "7")
            (codes "f")
            (some offsets)))
        blank)
      (file_request (codes "f") 0 (some (record { begin = 2; end = 4 })))
      (back_to_test example_browser (codes "s") (codes "n") (codes "7"))
ready-client_log_example =
    ready-client_log example_browser [] (codes "s") (codes "n") (codes "7") (codes "f")
      (some offsets) blank (λ h. cc) (λ h. cc) (λ h. cc) (omega arith, omega arith)

abbrev bytes_of : Text → Bytes
bytes_of t = t

fetch_file_range_example :
    (let s' =
        fetch_file example_browser bytes_of
          (codes "f")
          0
          (some (record { begin = 2; end = 4 }))
          (loaded (codes "a\nb\nc"))
          blank in
      (s'.shown ≡ show_text (codes "a\nb\nc"))
      × (get_elem? s'.page.content 1
          ≡ Option.map (λ _. true) (get_elem? (show_text (codes "a\nb\nc")).lines 1)))
fetch_file_range_example =
    fetch_file_range example_browser bytes_of (codes "f") 0 (codes "a\nb\nc") blank
      (record { begin = 2; end = 4 }) (codes "a\n") (codes "b") 10 (codes "c") 1 refl refl refl

-- A server with one file.
abbrev log_bytes : Bytes
log_bytes = codes "x\nyz\n"

abbrev logs : Server
logs = λ name a b. record {
  ok = true;
  status = 206;
  body = elim a as (λ _. Bytes) [
    | pos i ↦ elim b as (λ _. Bytes) [ pos j ↦ slice log_bytes i (j + 1) | negsuc j ↦ [] ]
    | negsuc i ↦ []
  ];
}

abbrev whole : Bytes → List Bytes
whole bytes = bytes ∷ []

abbrev logged_test : TestCase
logged_test = record {
  name = codes "t";
  details = none;
  log = some (record { begin = 2; end = 5 });
}

abbrev wrong_test : TestCase
wrong_test = record { name = codes "w"; details = none; log = some (record { begin = 5; end = 2 }) }

abbrev silent_test : TestCase
silent_test = record { name = codes "u"; details = none; log = none }

abbrev suite_file : SuiteFile
suite_file = record {
  test_cases =
      some ((codes "1", logged_test) ∷ (codes "2", silent_test) ∷ (codes "3", wrong_test) ∷ []);
  test_details_log = codes "d.log";
  json = [];
}

abbrev no_message : Error → Text
no_message e = []

abbrev fetched : Text → Screen
fetched index =
    fetch_test_log example_browser logs byte_decoder whole no_message (codes "s") index 0
      (loaded suite_file) blank

fetch_test_log_rows_example :
    ((fetched (codes "1")).shown ≡ show_text (codes "yz\n"))
    × ((fetched (codes "1")).file_title ≡ codes "Test: t")
fetch_test_log_rows_example =
    fetch_test_log_rows example_browser logs byte_decoder whole no_message (codes "s") (codes "1") 0
      suite_file blank logged_test refl log_bytes 2 3 refl refl (omega arith) (omega arith)
      (λ a b h lt. refl) (omega arith) append-nil
