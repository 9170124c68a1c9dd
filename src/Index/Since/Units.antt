-- ===== src/Index/Since/Units.antt =====
-- `timeSince`: the unit that it chooses.
use xrpl_hive.Base.{
  ℕ, ◌+◌, ◌-◌, ◌*◌, ◌/◌, ◌<◌, ◌≤◌, true, false, List, [], ◌∷◌, Option, none, some, Text, ◌≡◌, leb,
  arith, ◌⊎◌, inl, inr, All, codes, drop,
}
use xrpl_hive.Index.Since.{Interval, intervals, find_interval, interval_since}

-- What an interval says of a number of seconds, among units.
abbrev pub Describes : List (Text × ℕ) → ℕ → Option Interval → Type 0
Describes units s none = All (λ u. s < u.1) units
Describes units s (some i) =
    (0 < i.count)
    × (i.count * i.size ≤ s)
    × (s < (i.count + 1) * i.size)
    × All (λ u. (u.1 ≤ i.size) ⊎ (s < u.1)) units

-- One more unit in front, which is larger than the others and does not fit.
Describes-larger :
    (s size : ℕ) (unit : Text) (units : List (Text × ℕ)) (o : Option Interval)
    → s < size
    → Describes units s o
    → Describes ((unit, size) ∷ units) s o
Describes-larger s size unit units none h d = (h, d)
Describes-larger s size unit units (some i) h (a, b, c, d) = (a, b, c, (inr h, d))

All-smaller :
    (s size : ℕ) (units : List (Text × ℕ))
    → All (λ u. u.1 ≤ size) units
    → All (λ u. (u.1 ≤ size) ⊎ (s < u.1)) units
All-smaller s size [] h = tt
All-smaller s size ((t, z) ∷ units) (h, hs) = (inl h, All-smaller s size units hs)

find_interval_step :
    (s size : ℕ) (unit : Text) (units : List (Text × ℕ))
    → ((1 ≤ s / size) → (s / size * size ≤ s) × (s < (s / size + 1) * size))
    → ((s / size < 1) → s < size)
    → All (λ u. u.1 ≤ size) units
    → Describes units s (find_interval s units)
    → Describes ((unit, size) ∷ units) s (find_interval s ((unit, size) ∷ units))
unfolding find_interval
find_interval_step s size unit units fits small below rest = elim (fits_or_not (s / size)) [
  | inl h ↦
      let q : leb 1 (s / size) ≡ true = ground arith in
      let (lower, upper) = fits h in
      rw q (omega arith, lower, upper, (inl (omega arith), All-smaller s size units below))
  | inr h ↦
      let q : leb 1 (s / size) ≡ false = ground arith in
      rw q (Describes-larger s size unit units (find_interval s units) (small h) rest)
]
  where
    fits_or_not : (n : ℕ) → (1 ≤ n) ⊎ (n < 1)
    fits_or_not n = omega arith

-- The interval is the largest unit that fits into the seconds since the date, with the number of times
-- that it fits; and without one, the seconds are less than each unit.
pub interval_since-Describes :
    (now date : ℕ) → Describes intervals ((now - date) / 1000) (interval_since now date)
unfolding interval_since find_interval
interval_since-Describes now date =
    let s = (now - date) / 1000 in
    find_interval_step s 31536000 (codes "year") (drop 1 intervals)
      (λ h. (omega arith, omega arith)) (λ h. omega arith) (omega arith)
      (find_interval_step s 2592000 (codes "month") (drop 2 intervals)
        (λ h. (omega arith, omega arith)) (λ h. omega arith) (omega arith)
        (find_interval_step s 604800 (codes "week") (drop 3 intervals)
          (λ h. (omega arith, omega arith)) (λ h. omega arith) (omega arith)
          (find_interval_step s 86400 (codes "day") (drop 4 intervals)
            (λ h. (omega arith, omega arith)) (λ h. omega arith) (omega arith)
            (find_interval_step s 3600 (codes "hour") (drop 5 intervals)
              (λ h. (omega arith, omega arith)) (λ h. omega arith) (omega arith)
              (find_interval_step s 60 (codes "minute") (drop 6 intervals)
                (λ h. (omega arith, omega arith)) (λ h. omega arith) tt tt)))))
