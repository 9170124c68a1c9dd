-- ===== src/Common/Theme.antt =====
-- A theme that is chosen stays.
use xrpl_hive.Base.{
  Bool, true, false, not, List, [], ◌∷◌, ◌++◌, Text, codes, ◌≡◌, refl, if◌then◌else◌, Bool-cases,
  inl, inr,
}
use xrpl_hive.Maps.{same}
use xrpl_hive.Common.{Themed, has_class, remove_class, load_theme, toggle_theme}

-- The class for the dark theme, the attribute and the buttons agree.
abbrev pub Shows : Bool → Themed → Type 0
Shows dark s =
    (has_class (codes "dark") s.classes ≡ dark)
    × (s.attribute ≡ (if dark then codes "dark" else codes "light"))
    × (s.sun ≡ dark)

has_class-remove_class : (c : Text) (cs : List Text) → has_class c (remove_class c cs) ≡ false
unfolding remove_class
has_class-remove_class c [] = refl
has_class-remove_class c (d ∷ cs) = elim (Bool-cases (same c d)) [
  | inl q ↦ rw q (has_class-remove_class c cs)
  | inr q ↦ rw (q, q) (has_class-remove_class c cs)
]

has_class-append : (c : Text) (cs : List Text) → same c c ≡ true → has_class c (cs ++ c ∷ []) ≡ true
has_class-append c [] r = rw r refl
has_class-append c (d ∷ cs) r = elim (Bool-cases (same c d)) [
  | inl q ↦ rw q refl
  | inr q ↦ rw q (has_class-append c cs r)
]

-- A click shows the other theme, which the next page that is loaded shows too, whatever the browser
-- prefers.
pub toggle_theme-Shows :
    (s : Themed) (dark prefers_dark : Bool)
    → has_class (codes "dark") s.classes ≡ dark
    → (let s' = toggle_theme s in
        Shows (not dark) s' × Shows (not dark) (load_theme prefers_dark s'.stored))
unfolding toggle_theme load_theme
toggle_theme-Shows s true prefers h =
    rw (toggle_theme, h)
      ((has_class-remove_class (codes "dark") s.classes, refl, refl), (refl, refl, refl))
toggle_theme-Shows s false prefers h =
    rw (toggle_theme, h, h)
      ((has_class-append (codes "dark") s.classes refl, refl, refl), (refl, refl, refl))
