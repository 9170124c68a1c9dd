-- ===== src/Utils.antt =====
-- cmd/hiveview/assets/lib/utils.js: the format of a duration. How a number is written is a parameter.
pub mod Duration
pub mod Size
mod Tests
use xrpl_hive.Base.{
  ℕ, zero, suc, ◌+◌, ◌*◌, ◌/◌, ◌%◌, Bool, true, false, not, ◌&&◌, ◌||◌, List, [], ◌∷◌, ◌++◌, Text,
  ℤ, pos, negsuc, codes, ltb, if◌then◌else◌,
}

-- `n ? … : …` on a number.
abbrev pub truthy : ℕ → Bool
truthy zero = false
truthy (suc n) = true

-- The parts of a duration that is not negative, in milliseconds.
pub record Parts : Type 0 where
  pub d : ℕ
  pub h : ℕ
  pub m : ℕ
  pub s : ℕ
  pub ms : ℕ

pub parts : ℕ → Parts
parts dur =
    let dur1 = dur % 86400000 in
    let dur2 = dur1 % 3600000 in
    let dur3 = dur2 % 60000 in
    record {
      d = dur / 86400000;
      h = dur1 / 3600000;
      m = dur2 / 60000;
      s = dur3 / 1000;
      ms = dur3 % 1000;
    }

-- A part of the text: ' ', the number and its unit.
pub data Shown : Type 0 where
  shown : ℕ → Text → Shown

-- `a ? … : …` on the text so far.
abbrev pub written : List Shown → Bool
written [] = false
written (x ∷ xs) = true

abbrev pub add_part : Bool → ℕ → Text → List Shown → List Shown
add_part true n unit a = a ++ Shown.shown n unit ∷ []
add_part false n unit a = a

-- The text as it grows, by its parts.
unfoldable pub shown_parts : ℕ → List Shown
unfolding parts
shown_parts dur =
    let p = parts dur in
    let a1 = add_part (truthy p.d) p.d (codes "d") [] in
    let a2 = add_part (written a1 || truthy p.h) p.h (codes "h") a1 in
    let a3 = add_part (written a2 || truthy p.m) p.m (codes "min") a2 in
    let a4 = add_part (written a3 || truthy p.s) p.s (codes "s") a3 in
    add_part
      (not (truthy p.d)
        && (not (truthy p.h) && (not (truthy p.m) && (not (truthy p.s) && truthy p.ms))))
      p.ms (codes "ms") a4

render : (ℕ → Text) → List Shown → Text
render write [] = []
render write (Shown.shown n unit ∷ a) = 32 ∷ (write n ++ (unit ++ render write a))

unfoldable pub format_duration : (ℕ → Text) → ℤ → Text
unfolding shown_parts render
format_duration write (pos dur) = render write (shown_parts dur)
format_duration write (negsuc n) = 45 ∷ render write (shown_parts (n + 1))
