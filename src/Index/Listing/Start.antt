-- ===== src/Index/Listing/Start.antt =====
-- cmd/hiveview/assets/lib/app-index.js: what the handler of the ready event does until it fails, the
-- request for the listing with its handlers, and the key for the help. `showFileListing` stands in
-- the parent.
mod Tests
use xrpl_hive.Base.{
  ℕ, Bool, true, false, not, ◌&&◌, List, Option, none, some, Text, codes, if◌then◌else◌,
}
use xrpl_hive.Maps.{same}
use xrpl_hive.Index.Boxes.{Dates, ClientBox}
use xrpl_hive.Index.Filters.{Controls}
use xrpl_hive.Index.Summary.{Summary}
use xrpl_hive.Index.Listing.{Selectors, Run, show_file_listing}

-- What the request for `listing.jsonl` comes to.
pub data Answer : Type 0 where
  succeeded : Text → Answer
  failed : Answer

-- The classes of the page, and the listing that is shown.
pub record LoadPage : Type 0 where
  pub loading : Bool
  pub page_text : Bool
  pub listing : Option (Summary × List Run)
  pub help : Bool

-- The page while the request is made.
abbrev pub requested : LoadPage
requested = record { loading = true; page_text = false; listing = none; help = false }

module _ (trim : Text → Text) (parse_line : Text → Option Run) (time : Text → ℕ)
    (locale_le : Text → Text → Bool) (dates : Dates) (coverage : ClientBox → ℕ)
    (minus_x_days : Text → Text) (selectors : Selectors) where
  -- The page behind the answer; `none` is an error in `showFileListing`. A request that fails has no
  -- handler, since $.ajax does not know `failure`.
  unfoldable pub answered : Answer → Controls → LoadPage → Option LoadPage
  unfolding show_file_listing
  answered (succeeded file) controls screen =
      elim (show_file_listing trim parse_line time locale_le dates coverage minus_x_days selectors
          file controls)
        as (λ _. Option LoadPage) [
          | none ↦ none
          | some shown ↦
              some (record screen { loading = false; page_text = true; listing = some shown })
        ]
  answered failed controls screen = some (record screen { loading = false })

-- The key `?` shows the help, unless its target is in an input.
unfoldable pub press_help : Text → Bool → LoadPage → LoadPage
press_help key in_input screen =
    if same key (codes "?") && not in_input then record screen { help = true } else screen
