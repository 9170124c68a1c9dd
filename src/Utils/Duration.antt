-- ===== src/Utils/Duration.antt =====
-- `formatDuration`: what the parts that are shown amount to.
use xrpl_hive.Base.{
  ℕ, zero, suc, ◌+◌, ◌-◌, ◌*◌, ◌%◌, ◌<◌, not, ◌&&◌, ◌||◌, List, [], ◌∷◌, Text, codes, ◌≡◌, refl,
  ltb, if◌then◌else◌, arith,
}
use xrpl_hive.Maps.{same}
use xrpl_hive.Utils.{parts, Shown, truthy, written, add_part, shown_parts}

-- The milliseconds of a unit, 0 for a text that is none.
abbrev pub unit_size : Text → ℕ
unit_size unit =
    if same unit (codes "d")
    then 86400000
    else (if same unit (codes "h")
        then 3600000
        else (if same unit (codes "min")
            then 60000
            else (if same unit (codes "s")
                then 1000
                else (if same unit (codes "ms") then 1 else 0))))

abbrev pub amount : List Shown → ℕ
amount [] = 0
amount (Shown.shown n unit ∷ a) = n * unit_size unit + amount a

parts_amount :
    (dur : ℕ)
    → (let p = parts dur in
        (p.d * 86400000 + p.h * 3600000 + p.m * 60000 + p.s * 1000 + p.ms ≡ dur) × (p.ms < 1000))
unfolding parts
parts_amount dur = (omega arith, omega arith)

-- Parts of any numbers, shown as the code does.
shown_amount :
    (d h m s ms : ℕ)
    → (let a1 = add_part (truthy d) d (codes "d") [] in
        let a2 = add_part (written a1 || truthy h) h (codes "h") a1 in
        let a3 = add_part (written a2 || truthy m) m (codes "min") a2 in
        let a4 = add_part (written a3 || truthy s) s (codes "s") a3 in
        let a5 =
          add_part
            (not (truthy d)
              && (not (truthy h) && (not (truthy m) && (not (truthy s) && truthy ms))))
            ms
            (codes "ms")
            a4 in
        let seconds = d * 86400000 + h * 3600000 + m * 60000 + s * 1000 in
        amount a5 ≡ (if ltb 0 seconds then seconds else ms))
shown_amount zero zero zero zero zero = refl
shown_amount zero zero zero zero (suc ms) = ground arith
shown_amount zero zero zero (suc s) ms = ground arith
shown_amount zero zero (suc m) s ms = ground arith
shown_amount zero (suc h) m s ms = ground arith
shown_amount (suc d) h m s ms = ground arith

-- The parts that are shown of a duration that is not negative amount to it, if it is less than a
-- second, and else to its whole seconds.
pub shown_parts-amount :
    (dur : ℕ) → amount (shown_parts dur) ≡ (if ltb dur 1000 then dur else dur - dur % 1000)
unfolding shown_parts parts
shown_parts-amount dur =
    let p = parts dur in ground (arith, shown_amount p.d p.h p.m p.s p.ms, parts_amount dur)
