-- ===== src/Suite/Details/Tests.antt =====
-- A test with its output, and an instance of what is shown of it.
use xrpl_hive.Base.{true, false, [], ◌∷◌, ◌++◌, none, some, Text, pos, codes, ◌≡◌, refl}
use xrpl_hive.Browser.Example.{example_browser}
use xrpl_hive.TestLog.Lines.Spec.{lines_of}
use xrpl_hive.TestLog.Loader.{done}
use xrpl_hive.Suite.Details.{
  Html, Origin, Hidden, Case, Section, header_sections, format_test_details,
}
use xrpl_hive.Suite.Details.Shown.{shown_blocks, format_test_details-shown_blocks}

abbrev pub same_text : Text → Text
same_text t = t

abbrev pub plain_html : Html
plain_html = record {
  encode = same_text;
  urls_to_links = same_text;
  sanitize = same_text;
  trim = same_text;
}

abbrev pub sync_suite : Origin
sync_suite = record {
  suite_id = codes "1.json";
  name = codes "sync";
  test_details_log = codes "1.log";
}

abbrev pub all_hidden : Hidden
all_hidden = record { status = true; logs = true; duration = true }

abbrev output : Text
output = codes "start\nfailed\n"

abbrev pub failed_case : Case
failed_case = record {
  test_index = codes "1";
  duration = pos 1500;
  test = record {
    name = codes "peers";
    description = codes "finds peers";
    result = record { start = codes "1"; end = codes "2"; pass = false; timeout = false };
    details = some output;
    log = none;
    client_info = none;
  };
}

format_test_details-shown_blocks_example :
    format_test_details example_browser plain_html sync_suite all_hidden failed_case
    ≡ done (
      header_sections example_browser plain_html sync_suite all_hidden failed_case
          ++ Section.details
              (shown_blocks example_browser plain_html sync_suite (codes "1") (lines_of output))
            ∷ [],
      none,
    )
format_test_details-shown_blocks_example =
    format_test_details-shown_blocks example_browser plain_html sync_suite all_hidden failed_case
      output (λ e. cc) refl
