-- ===== src/Common.antt =====
-- cmd/hiveview/assets/lib/app-common.js: the theme, and the progress of a load. The width that a progress
-- gives is a parameter.
pub mod Theme
pub mod Header
use xrpl_hive.Base.{
  ℕ, Bool, true, false, not, List, [], ◌∷◌, ◌++◌, Option, none, some, Text, codes, if◌then◌else◌,
}
use xrpl_hive.Maps.{same}

-- The local storage, the classes of the document, its attribute for the theme, and whether the buttons show
-- the sun.
pub record Themed : Type 0 where
  pub stored : Option Text
  pub classes : List Text
  pub attribute : Text
  pub sun : Bool

abbrev pub has_class : Text → List Text → Bool
has_class c [] = false
has_class c (d ∷ ds) = if same c d then true else has_class c ds

pub remove_class : Text → List Text → List Text
remove_class c [] = []
remove_class c (d ∷ ds) = let rest = remove_class c ds in if same c d then rest else d ∷ rest

-- `classList.toggle(c, force)`.
abbrev pub toggle_class : Text → Bool → List Text → List Text
toggle_class c true cs = if has_class c cs then cs else cs ++ c ∷ []
toggle_class c false cs = remove_class c cs

-- The theme that is stored, or the one that the browser prefers.
abbrev pub chosen_theme : Bool → Option Text → Text
chosen_theme prefers_dark none = if prefers_dark then codes "dark" else codes "light"
chosen_theme prefers_dark (some []) = if prefers_dark then codes "dark" else codes "light"
chosen_theme prefers_dark (some (c ∷ t)) = c ∷ t

-- The start of a page, whose document has no classes of its own.
unfoldable pub load_theme : Bool → Option Text → Themed
load_theme prefers_dark stored =
    let theme = chosen_theme prefers_dark stored in
    record {
      stored = stored;
      classes = theme ∷ [];
      attribute = theme;
      sun = same theme (codes "dark");
    }

-- A click on a button of the theme.
unfoldable pub toggle_theme : Themed → Themed
unfolding remove_class
toggle_theme s =
    let dark = not (has_class (codes "dark") s.classes) in
    let theme = if dark then codes "dark" else codes "light" in
    record {
      stored = some theme;
      classes = toggle_class (codes "dark") dark s.classes;
      attribute = theme;
      sun = dark;
    }

-- The bar of a load: `none` if it is hidden, else its width and whether it is animated.
pub record Bar : Type 0 where
  pub percent : ℕ
  pub animated : Bool

pub data LoadState : Type 0 where
  finished : LoadState
  unknown : LoadState
  progress : ℕ → ℕ → LoadState

-- `floor` of the part that is loaded, in percent. A part of 0 is taken for the end of the load.
unfoldable pub show_load_progress : (ℕ → ℕ → ℕ) → LoadState → Option Bar
show_load_progress percent finished = none
show_load_progress percent unknown = some (record { percent = 100; animated = true })
show_load_progress percent (progress ℕ.zero total) = none
show_load_progress percent (progress (ℕ.suc loaded) total) =
    some (record { percent = percent (ℕ.suc loaded) total; animated = false })

-- What an event of the progress of a request tells the bar.
unfoldable pub on_progress : Bool → ℕ → ℕ → LoadState
on_progress length_computable loaded total =
    if length_computable then progress loaded total else unknown
