-- ===== src/Index/Listing/Selected.antt =====
-- The boxes that the page selects when it is opened.
use xrpl_hive.Base.{Bool, true, false, ◌||◌, ◌&&◌, ◌==◌, some, Text, ◌≡◌, All}
use xrpl_hive.Maps.{same}
use xrpl_hive.Index.Boxes.{ClientBox, SuiteBox}
use xrpl_hive.Index.Summary.{Summary, is_box}
use xrpl_hive.Index.Listing.{Selectors, select_from_hash}

abbrev pub Fresh : SuiteBox → Type 0
Fresh box = (box.selected ≡ false) × All (λ (c : ClientBox). c.selected ≡ false) box.boxes

-- The boxes of a suite are selected, and of its client boxes those of a client.
abbrev pub Chosen : Text → Text → SuiteBox → Type 0
Chosen suite client box =
    (box.selected ≡ same box.title suite)
    × All (λ (c : ClientBox). c.selected ≡ is_box suite client c) box.boxes

-- A text without quotes, backslashes and ends of lines.
abbrev pub Plain : Text → Type 0
Plain t =
    All (λ c. (c == 34 || (c == 39 || (c == 92 || (c == 10 || (c == 12 || c == 13))))) ≡ false) t

-- A plain text in quotes stands for itself: a title contains itself, and an attribute is equal to it.
abbrev pub ReadsPlain : Selectors → Type 0
ReadsPlain selectors =
    ((suite : Text)
      → Plain suite
      → (m : Text → Bool) × (selectors.find_suites suite ≡ some m) × (m suite ≡ true))
    × ((suite client : Text)
        → Plain suite
        → Plain client
        → (m : Text → Text → Bool) × (selectors.find_clients suite client ≡ some m)
          × ((s c : Text) → m s c ≡ (same s suite && same c client)))

-- The boxes are selected without an error.
Selects : Selectors → Text → Text → Summary → Type 0
Selects selectors suite client s =
    (selected : Summary) × (select_from_hash selectors s ≡ some selected)
    × All (Chosen suite client) selected.boxes
