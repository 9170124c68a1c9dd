-- ===== src/Index/Since.antt =====
-- cmd/hiveview/assets/lib/app-index.js: how long ago a run started. How a number is written is a
-- parameter. A date that is not past gives no seconds here and less in the code, with the same text.
mod Units
mod Tests
use xrpl_hive.Base.{
  ℕ, ◌-◌, ◌/◌, ◌==◌, Bool, true, false, List, [], ◌∷◌, ◌++◌, Option, none, some, Text, codes, leb,
  if◌then◌else◌,
}

abbrev pub intervals : List (Text × ℕ)
intervals =
    (codes "year", 31536000)
    ∷ (codes "month", 2592000)
    ∷ (codes "week", 604800)
    ∷ (codes "day", 86400)
    ∷ (codes "hour", 3600)
    ∷ (codes "minute", 60)
    ∷ []

-- The unit that the loop returns at, with its number and size.
pub record Interval : Type 0 where
  pub count : ℕ
  pub unit : Text
  pub size : ℕ

find_interval : ℕ → List (Text × ℕ) → Option Interval
find_interval seconds [] = none
find_interval seconds ((unit, size) ∷ units) =
    let rest = find_interval seconds units in
    if leb 1 (seconds / size)
    then some (record { count = seconds / size; unit = unit; size = size })
    else rest

unfoldable pub interval_since : ℕ → ℕ → Option Interval
unfolding find_interval
interval_since now date = find_interval ((now - date) / 1000) intervals

-- `timeSince`, of a date, at a time, in milliseconds.
unfoldable pub time_since : (ℕ → Text) → ℕ → ℕ → Text
unfolding interval_since
time_since write now date = elim (interval_since now date) as (λ _. Text) [
  | none ↦ codes "just now"
  | some i ↦
      if i.count == 1 then codes "1 " ++ i.unit else write i.count ++ (32 ∷ (i.unit ++ codes "s"))
]
