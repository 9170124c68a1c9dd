-- ===== src/Utils/Size.antt =====
-- `formatBytes`: the number that is shown for a size.
use xrpl_hive.Base.{
  ℕ, ◌+◌, ◌*◌, ◌/◌, ◌%◌, ◌≤◌, ◌<◌, [], ◌∷◌, ◌++◌, Text, codes, ltb, ltb→lt, if◌then◌else◌, ◌≡◌,
  refl, arith, Bool-cases, inl, inr,
}

-- What is shown of a size: bytes, or hundredths of a larger unit.
pub data Size : Type 0 where
  bytes : ℕ → Size
  kb : ℕ → Size
  mb : ℕ → Size

-- The hundredths of `size / unit` that `toFixed(2)` shows: the nearest, and of two the larger.
abbrev pub hundredths : ℕ → ℕ → ℕ
hundredths unit size = (200 * size + unit) / (2 * unit)

unfoldable pub shown_size : ℕ → Size
shown_size loc =
    if ltb loc 1024
    then bytes loc
    else (if ltb loc 1048576 then kb (hundredths 1024 loc) else mb (hundredths 1048576 loc))

module _ (write : ℕ → Text) where
  -- `toFixed(2)`, of hundredths.
  to_fixed : ℕ → Text
  to_fixed h =
      let cents = h % 100 in write (h / 100) ++ 46 ∷ (48 + cents / 10) ∷ (48 + cents % 10) ∷ []

  unfoldable pub format_bytes : ℕ → Text
  unfolding shown_size to_fixed
  format_bytes loc = elim (shown_size loc) as (λ _. Text) [
    | bytes n ↦ write n ++ codes "B"
    | kb h ↦ to_fixed h ++ codes "KB"
    | mb h ↦ to_fixed h ++ codes "MB"
  ]

-- A shown size that stands for a number of bytes: the number itself below 1024, and else the hundredths
-- of the unit of its range at a distance of at most half a hundredth, where an amount of 1024 units can
-- be shown too.
abbrev pub Near : Size → ℕ → Type 0
Near (bytes n) loc = (n ≡ loc) × (n < 1024)
Near (kb h) loc =
    (1024 ≤ loc)
    × (loc < 1048576)
    × (h * 2048 ≤ 200 * loc + 1024)
    × (200 * loc < h * 2048 + 1024)
    × (100 ≤ h)
    × (h ≤ 102400)
Near (mb h) loc =
    (1048576 ≤ loc)
    × (h * 2097152 ≤ 200 * loc + 1048576)
    × (200 * loc < h * 2097152 + 1048576)
    × (100 ≤ h)

kb-Near : (loc : ℕ) → 1024 ≤ loc → loc < 1048576 → Near (kb (hundredths 1024 loc)) loc
kb-Near loc h k = (h, k, omega arith, omega arith, omega arith, omega arith)

mb-Near : (loc : ℕ) → 1048576 ≤ loc → Near (mb (hundredths 1048576 loc)) loc
mb-Near loc h = (h, omega arith, omega arith, omega arith)

-- A size is shown in bytes exactly if it is below 1024, as it is, in KB exactly if it is from 1024 to
-- 1048575, and else in MB. In KB and MB it is shown in hundredths of the unit, at most half a hundredth
-- off, and as one unit at least, and never as more than 1024.00KB.
pub shown_size-Near : (loc : ℕ) → Near (shown_size loc) loc
unfolding shown_size
shown_size-Near loc = elim (Bool-cases (ltb loc 1024)) [
  | inl small ↦ rw small (refl, ltb→lt loc 1024 small)
  | inr large ↦ elim (Bool-cases (ltb loc 1048576)) [
    | inl q ↦ rw (large, q) (kb-Near loc (ground arith) (ltb→lt loc 1048576 q))
    | inr q ↦ rw (large, q) (mb-Near loc (ground arith))
  ]
]
