-- ===== src/Index/Since/Tests.antt =====
-- Runs of `timeSince`, and an instance of its result.
use xrpl_hive.Base.{ℕ, ◌+◌, [], ◌∷◌, Text, codes, ◌≡◌, refl}
use xrpl_hive.Index.Since.{intervals, interval_since, time_since}
use xrpl_hive.Index.Since.Units.{Describes, interval_since-Describes}

-- A number below 10, as its digit.
abbrev one_digit : ℕ → Text
one_digit n = (48 + n) ∷ []

hours_run : time_since one_digit 7300000 0 ≡ codes "2 hours"
unfolding time_since interval_since
hours_run = refl

minute_run : time_since one_digit 60000 0 ≡ codes "1 minute"
unfolding time_since interval_since
minute_run = refl

interval_since-Describes_example : Describes intervals 7300 (interval_since 7300000 0)
interval_since-Describes_example = interval_since-Describes 7300000 0
