-- ===== src/Suite/Details/LogTests.antt =====
-- A test with its output in a file of its own.
use xrpl_hive.Base.{
  ℕ, zero, suc, false, [], ◌∷◌, ◌++◌, List, Text, Bytes, codes, none, some, All, ◌≡◌, refl, arith,
  map,
}
use xrpl_hive.Browser.Example.{example_browser}
use xrpl_hive.Routes.{results_root}
use xrpl_hive.TestLog.Decode.{Ascii, byte_decoder}
use xrpl_hive.TestLog.Lines.Spec.{Plain, terminate}
use xrpl_hive.TestLog.Loader.{Server, Error, Offsets, done}
use xrpl_hive.TestLog.Example.{static_server, static_server-Serves}
use xrpl_hive.TestLog.Loader.Failed.{refusal}
use xrpl_hive.TestLog.Tail.{head_and_tail_lines}
use xrpl_hive.TestLog.Tail.Visits.{text_of}
use xrpl_hive.Suite.Details.{Case, Section, header_sections, format_test_details, log_arrived}
use xrpl_hive.Suite.Output.{highlight_errors_in_test_output}
use xrpl_hive.Suite.Details.Refused.{format_test_details-refused}
use xrpl_hive.Suite.Details.Arrived.{loader_of, ends_blocks, format_test_details-ends_blocks}
use xrpl_hive.Suite.Details.Tests.{plain_html, sync_suite, all_hidden, failed_case}

abbrev blanks : ℕ → List Text
blanks zero = []
blanks (suc n) = [] ∷ blanks n

blanks-Plain : (n : ℕ) → All Plain (blanks n)
blanks-Plain zero = tt
blanks-Plain (suc n) = (tt, blanks-Plain n)

blanks-Ascii : (n : ℕ) → Ascii (text_of (blanks n))
blanks-Ascii zero = tt
blanks-Ascii (suc n) = (omega arith, blanks-Ascii n)

abbrev fifty_lines : Bytes
fifty_lines = text_of (blanks 50)

abbrev fifty_offsets : Offsets
fifty_offsets = record { begin = 0; end = 50 }

abbrev logged_case : Case
logged_case = record failed_case {
  test = record failed_case.test { details = none; log = some fifty_offsets };
}

abbrev no_words : Error → Text
no_words e = []

format_test_details-ends_blocks_example :
    (format_test_details example_browser plain_html sync_suite all_hidden logged_case
      ≡ done (
        header_sections example_browser plain_html sync_suite all_hidden logged_case
            ++ Section.spinner ∷ [],
        some (loader_of sync_suite fifty_offsets),
      ))
    × (log_arrived example_browser plain_html no_words sync_suite logged_case
          (head_and_tail_lines
            (static_server fifty_lines)
            byte_decoder
            2097179
            (loader_of sync_suite fifty_offsets)
            25
            2097152)
          (header_sections example_browser plain_html sync_suite all_hidden logged_case
            ++ Section.spinner ∷ [])
        ≡ header_sections example_browser plain_html sync_suite all_hidden logged_case
          ++ Section.details (
              ends_blocks example_browser plain_html sync_suite
                (codes "1")
                (map terminate (blanks 25))
                (map terminate (blanks 25)))
            ∷ [])
format_test_details-ends_blocks_example =
    format_test_details-ends_blocks example_browser plain_html (static_server fifty_lines)
      byte_decoder no_words sync_suite all_hidden logged_case fifty_lines fifty_offsets (blanks 25)
      [] (blanks 25) 2097179 refl refl (omega arith) (omega arith) (omega arith)
      (static_server-Serves fifty_lines (results_root ++ codes "1.log")) (blanks-Ascii 50) refl
      (blanks-Plain 50) refl refl (omega arith)

-- A server that has no files.
abbrev no_server : Server
no_server name a b = record { ok = false; status = 404; body = [] }

format_test_details-refused_example :
    (format_test_details example_browser plain_html sync_suite all_hidden logged_case
      ≡ done (
        header_sections example_browser plain_html sync_suite all_hidden logged_case
            ++ Section.spinner ∷ [],
        some (loader_of sync_suite fifty_offsets),
      ))
    × (log_arrived example_browser plain_html no_words sync_suite logged_case
          (head_and_tail_lines no_server byte_decoder 9
            (loader_of sync_suite fifty_offsets)
            25
            2097152)
          (header_sections example_browser plain_html sync_suite all_hidden logged_case
            ++ Section.spinner ∷ [])
        ≡ header_sections example_browser plain_html sync_suite all_hidden logged_case
          ++ Section.failure (
              highlight_errors_in_test_output
                (no_words (refusal no_server (loader_of sync_suite fifty_offsets))))
            ∷ [])
format_test_details-refused_example =
    format_test_details-refused example_browser plain_html no_server byte_decoder no_words
      sync_suite all_hidden logged_case fifty_offsets 9 refl refl (omega arith) refl
