-- ===== src/Utils/Tests.antt =====
-- Runs of the format of durations, and an instance of its result.
use xrpl_hive.Base.{ℕ, ◌+◌, [], ◌∷◌, Text, codes, pos, negsuc, ◌≡◌, refl}
use xrpl_hive.Utils.{format_duration, shown_parts}
use xrpl_hive.Utils.Size.{Near, shown_size, format_bytes, shown_size-Near}
use xrpl_hive.Utils.Duration.{amount, shown_parts-amount}

-- A number below 10, as its digit.
abbrev digit : ℕ → Text
digit n = (48 + n) ∷ []

minutes_run : format_duration digit (pos 125000) ≡ codes " 2min 5s"
unfolding format_duration shown_parts
minutes_run = refl

-- A day, and the units of 0 behind it.
day_run : format_duration digit (pos 86400999) ≡ codes " 1d 0h 0min 0s"
unfolding format_duration shown_parts
day_run = refl

negative_run : format_duration digit (negsuc 6) ≡ codes "- 7ms"
unfolding format_duration shown_parts
negative_run = refl

nothing_run : format_duration digit (pos 0) ≡ []
unfolding format_duration shown_parts
nothing_run = refl

shown_parts-amount_example : amount (shown_parts 61234) ≡ 61000
shown_parts-amount_example = shown_parts-amount 61234

kilobytes_run : format_bytes digit 1536 ≡ codes "1.50KB"
unfolding format_bytes
kilobytes_run = refl

shown_size-Near_example : Near (shown_size 2000000) 2000000
shown_size-Near_example = shown_size-Near 2000000
