-- ===== src/Index/Listing/Start/Tests.antt =====
-- The page behind a request that failed, and behind one for an empty listing.
use xrpl_hive.Base.{[], none, some, codes, true, false, ◌≡◌, refl}
use xrpl_hive.Index.Tests.{digit}
use xrpl_hive.Index.Listing.Tests.{parse_text, always, no_dates, selectors, clicked}
use xrpl_hive.Index.Listing.Start.{failed, succeeded, requested, answered, press_help}

-- Nothing is shown of the error.
failed_run :
    answered
      (λ t. t)
      parse_text
      digit
      always
      no_dates
      (λ c. 100)
      (λ t. t)
      selectors
      failed
      clicked
      requested
    ≡ some (record { loading = false; page_text = false; listing = none; help = false })
unfolding answered
failed_run = refl

empty_run :
    answered
      (λ t. t)
      parse_text
      digit
      always
      no_dates
      (λ c. 100)
      (λ t. t)
      selectors
      (succeeded [])
      clicked
      requested
    ≡ none
unfolding answered xrpl_hive.Index.Listing.show_file_listing xrpl_hive.Index.Listing.parse_listing
    xrpl_hive.Viewer.split_lines xrpl_hive.Index.Boxes.collect_all
empty_run = refl

help_in_input : press_help (codes "?") true requested ≡ requested
unfolding press_help
help_in_input = refl
