-- ===== src/Html/Button/Written.antt =====
-- Attributes that are written with quotes are read back.
use xrpl_hive.Base.{
  ℕ, zero, suc, ◌≤◌, true, false, [], ◌∷◌, ◌++◌, Option, none, some, Text, length, ◌==◌, ◌≡◌, ◌≢◌,
  refl, ap, sym, ◌∙◌, arith, All, length-append, append_assoc, append-nil,
}
use xrpl_hive.Maps.{Map}
use xrpl_hive.Suite.Output.{word_char}
use xrpl_hive.Html.Button.{
  ends_line, take_word, until_quote, quoted, named, match_attribute, match_all,
}

-- `name="value"`.
abbrev pub attribute_part : Text × Text → Text
attribute_part (name, value) = name ++ 61 ∷ 34 ∷ (value ++ 34 ∷ [])

-- Attributes with spaces between them.
abbrev pub attribute_text : Map Text → Text
attribute_text [] = []
attribute_text (a ∷ []) = attribute_part a
attribute_text (a ∷ b ∷ m) = attribute_part a ++ 32 ∷ attribute_text (b ∷ m)

-- Neither the quote nor the end of a line.
abbrev pub Free : ℕ → Type 0
Free c = ((c == 34) ≡ false) × (ends_line c ≡ false)

-- A name of characters of words, and a value without the quote and without the end of a line.
abbrev pub Plain : Text × Text → Type 0
Plain (name, value) = (name ≢ []) × All (λ c. word_char c ≡ true) name × All Free value

take_word-name :
    (name rest : Text)
    → All (λ c. word_char c ≡ true) name
    → take_word (name ++ 61 ∷ rest) ≡ (name, 61 ∷ rest)
unfolding take_word
take_word-name [] rest h = refl
take_word-name (c ∷ name) rest h = rw (h.0, take_word-name name rest h.1) refl

until_quote-value :
    (value rest : Text) → All Free value → until_quote 34 (value ++ 34 ∷ rest) ≡ some (value, rest)
unfolding until_quote
until_quote-value [] rest h = refl
until_quote-value (c ∷ value) rest h = rw (h.0.0, h.0.1, until_quote-value value rest h.1) refl

named-value :
    (c : ℕ) (name value rest : Text)
    → All Free value
    → named (c ∷ name, 61 ∷ 34 ∷ (value ++ 34 ∷ rest)) ≡ some (c ∷ name, value, rest)
unfolding named quoted
named-value c name value rest h =
    ap
      (λ o. elim o as (λ _. Option (Text × Text × Text)) [
        | none ↦ none
        | some (v, behind) ↦ some (c ∷ name, v, behind)
      ])
      (until_quote-value value rest h)

match_attribute-written :
    (a : Text × Text) (rest : Text)
    → Plain a
    → match_attribute (attribute_part a ++ rest) ≡ some (a.0, a.1, rest)
unfolding match_attribute
match_attribute-written ([], value) rest h = absurd (h.0 refl)
match_attribute-written (c ∷ name, value) rest (_, word, free) =
    ap match_attribute (
      append_assoc (c ∷ name) (61 ∷ 34 ∷ (value ++ 34 ∷ [])) rest
      ∙ ap (λ t. c ∷ name ++ 61 ∷ 34 ∷ t) (append_assoc value (34 ∷ []) rest))
    ∙ ap named (take_word-name (c ∷ name) (34 ∷ (value ++ 34 ∷ rest)) word)
    ∙ named-value c name value rest free

-- One attribute in front of a text.
match_all-step :
    (fuel : ℕ) (a : Text × Text) (rest : Text)
    → Plain a
    → match_all (suc fuel) (attribute_part a ++ rest) ≡ a ∷ match_all fuel rest
unfolding match_all
match_all-step fuel ([], value) rest h = absurd (h.0 refl)
match_all-step fuel (c ∷ name, value) rest h =
    ap
      (λ o. elim o as (λ _. Map Text) [
        | none ↦ match_all fuel (name ++ 61 ∷ 34 ∷ (value ++ 34 ∷ []) ++ rest)
        | some (k, v, behind) ↦ (k, v) ∷ match_all fuel behind
      ])
      (match_attribute-written (c ∷ name, value) rest h)

-- A space is not a name.
match_all-space : (fuel : ℕ) (t : Text) → match_all (suc fuel) (32 ∷ t) ≡ match_all fuel t
unfolding match_all match_attribute named take_word
match_all-space fuel t = refl

match_all-nil : (fuel : ℕ) → match_all fuel [] ≡ []
unfolding match_all
match_all-nil zero = refl
match_all-nil (suc fuel) = refl

size_written : (a : Text × Text) → 2 ≤ length (attribute_part a)
size_written (name, value) =
    omega (arith, length-append name (61 ∷ 34 ∷ (value ++ 34 ∷ [])), length-append value (34 ∷ []))

-- Attributes whose values have neither the quote nor the end of a line are read as they were written.
pub match_all-written :
    (m : Map Text) (fuel : ℕ)
    → All Plain m
    → length (attribute_text m) ≤ fuel
    → match_all fuel (attribute_text m) ≡ m
match_all-written [] fuel h f = match_all-nil fuel
match_all-written (a ∷ []) zero h f = absurd (omega (arith, size_written a))
match_all-written (a ∷ []) (suc fuel) h f =
    ap (match_all (suc fuel)) (sym (append-nil (attribute_part a)))
    ∙ match_all-step fuel a [] h.0
    ∙ ap (λ m. a ∷ m) (match_all-nil fuel)
match_all-written (a ∷ b ∷ m) zero h f =
    absurd (
      omega (arith, size_written a, length-append (attribute_part a) (32 ∷ attribute_text (b ∷ m))))
match_all-written (a ∷ b ∷ m) (suc zero) h f =
    absurd (
      omega (arith, size_written a, length-append (attribute_part a) (32 ∷ attribute_text (b ∷ m))))
match_all-written (a ∷ b ∷ m) (suc (suc fuel)) h f =
    match_all-step (suc fuel) a (32 ∷ attribute_text (b ∷ m)) h.0
    ∙ ap (λ r. a ∷ r)
        (match_all-space fuel (attribute_text (b ∷ m))
          ∙ match_all-written (b ∷ m) fuel h.1 (
              omega (
                arith,
                size_written a,
                length-append (attribute_part a) (32 ∷ attribute_text (b ∷ m)),
              )))

-- A text with such attributes is read with as many rounds as it has characters.
pub match_all-text :
    (t : Text) (m : Map Text) → t ≡ attribute_text m → All Plain m → match_all (length t) t ≡ m
match_all-text t m e h =
    ap (λ u. match_all (length u) u) e
    ∙ match_all-written m (length (attribute_text m)) h (omega arith)
