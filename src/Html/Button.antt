-- ===== src/Html/Button.antt =====
-- `makeLink` and `makeButton`: the attributes of a button are read from a text by a regular expression.
pub mod Written
mod Tests
use xrpl_hive.Base.{
  ℕ, zero, suc, Bool, true, false, ◌||◌, ◌&&◌, List, map, [], ◌∷◌, ◌++◌, Option, none, some, Text,
  codes, length, ◌==◌, if◌then◌else◌,
}
use xrpl_hive.Maps.{Map, put}
use xrpl_hive.Html.{Nodes, nil, text, element}
use xrpl_hive.Suite.Output.{lower, word_char}

-- What `.` does not match: \n, \r and the separators of lines and paragraphs.
abbrev pub ends_line : ℕ → Bool
ends_line c = c == 10 || (c == 13 || (c == 8232 || c == 8233))

-- `\w*` at the front of a text, and what is behind it.
pub take_word : Text → Text × Text
take_word [] = ([], [])
take_word (c ∷ t) =
    let (word, rest) = take_word t in if word_char c then (c ∷ word, rest) else ([], c ∷ t)

-- `(.*?)` up to the quote, and what is behind the quote.
pub until_quote : ℕ → Text → Option (Text × Text)
until_quote q [] = none
until_quote q (c ∷ t) =
    let rest = until_quote q t in
    if c == q
    then some ([], t)
    else (if ends_line c then none else elim rest as (λ _. Option (Text × Text)) [
      | none ↦ none
      | some (value, behind) ↦ some (c ∷ value, behind)
    ])

pub quoted : Text → Option (Text × Text)
unfolding until_quote
quoted (e ∷ q ∷ t) = if e == 61 && (q == 34 || q == 39) then until_quote q t else none
quoted _ = none

-- The attribute of a word, if it has a letter and is followed by a value.
pub named : Text × Text → Option (Text × Text × Text)
unfolding quoted
named ([], rest) = none
named (c ∷ word, rest) = elim (quoted rest) as (λ _. Option (Text × Text × Text)) [
  | none ↦ none
  | some (value, behind) ↦ some (c ∷ word, value, behind)
]

-- A match of `(\w+)=(['"])(.*?)\2` at the front of a text: name, value, and what is behind.
pub match_attribute : Text → Option (Text × Text × Text)
unfolding take_word named
match_attribute t = named (take_word t)

-- The loop over the matches, each behind the one before.
pub match_all : ℕ → Text → Map Text
unfolding match_attribute
match_all zero t = []
match_all (suc fuel) [] = []
match_all (suc fuel) (c ∷ t) =
    let skipped = match_all fuel t in
    elim (match_attribute (c ∷ t)) as (λ _. Map Text) [
      | none ↦ skipped
      | some (name, value, behind) ↦ (name, value) ∷ match_all fuel behind
    ]

-- `setAttribute` for each match: names are put into lower case.
unfoldable pub set_attributes : Map Text → Map Text → Map Text
set_attributes [] attributes = attributes
set_attributes ((k, v) ∷ m) attributes = set_attributes m (put (map lower k) v attributes)

unfoldable pub make_link : Text → Text → Nodes
make_link url label = element (codes "a") ((codes "href", url) ∷ []) (text label nil) nil

-- `parse` is what the browser makes of the text inside.
unfoldable pub make_button : (Text → Nodes) → Text → Text → Text → Text → Nodes
unfolding match_all set_attributes
make_button parse href label classes attributes =
    element (codes "a")
      (set_attributes (match_all (length attributes) attributes)
        ((codes "href", href) ∷ (codes "class", codes "btn " ++ classes) ∷ []))
      (parse label) nil
