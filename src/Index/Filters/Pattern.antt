-- ===== src/Index/Filters/Pattern.antt =====
-- `escapeRegExp`: what a regular expression without operators says, and that the search for a value
-- says the value.
use mathlib.Core.Bool.{or_assoc, or-false, true≢false}
use xrpl_hive.Base.{
  append-nil, ℕ, Bool, true, false, ◌||◌, [], ◌∷◌, ◌++◌, Option, none, some, Text, codes, ◌==◌, ◌≡◌,
  refl, ap, sym, ◌∙◌, ==_iff, Bool-cases, inl, inr, if◌then◌else◌,
}
use xrpl_hive.Index.Filters.{Filter, special, escape_reg_exp, value_to_reg_exp}

-- A text that is to be found, perhaps at the start only, or at the end.
pub record Pattern : Type 0 where
  pub from_start : Bool
  pub letters : Text
  pub to_end : Bool

abbrev one_of : ℕ → Text → Bool
one_of c [] = false
one_of c (x ∷ t) = c == x || one_of c t

-- A character with a meaning of its own in regular expressions.
abbrev syntax : ℕ → Bool
syntax c = one_of c (codes ".*+?^${}()|[]\\")

abbrev add : ℕ → Option (Text × Bool) → Option (Text × Bool)
add c none = none
add c (some (t, ends)) = some (c ∷ t, ends)

-- Characters that stand for themselves, alone or behind a backslash, and perhaps `$` at the end.
abbrev literal : Text → Option (Text × Bool)
literal [] = some ([], false)
literal (c ∷ []) =
    if c == 36 then some ([], true) else (if syntax c then none else some (c ∷ [], false))
literal (c ∷ d ∷ t) =
    let behind = literal t in
    let rest = literal (d ∷ t) in
    if c == 92
    then (if syntax d then add d behind else none)
    else (if syntax c then none else add c rest)

abbrev from : Bool → Option (Text × Bool) → Option Pattern
from starts none = none
from starts (some (t, ends)) = some (record { from_start = starts; letters = t; to_end = ends })

-- What a regular expression without operators but `^` in front and `$` at the end looks for.
abbrev pub reads : Text → Option Pattern
reads [] = from false (literal [])
reads (c ∷ t) =
    let rest = literal t in
    let whole = literal (c ∷ t) in if c == 94 then from true rest else from false whole

special-syntax : (c : ℕ) → special c ≡ syntax c
unfolding special
special-syntax c = simp (or_assoc, or-false)

-- The characters of a list are each another one.
one_of-false : (c d : ℕ) (t : Text) → one_of d t ≡ true → one_of c t ≡ false → (c == d) ≡ false
one_of-false c d t m h = elim (Bool-cases (c == d)) [
  | inl e ↦ absurd (true≢false (sym m ∙ ap (λ x. one_of x t) (sym ((==_iff c d).0 e)) ∙ h))
  | inr e ↦ e
]

not_end : (c : ℕ) → syntax c ≡ false → (c == 36) ≡ false
not_end c h = one_of-false c 36 (codes ".*+?^${}()|[]\\") refl h

not_escape : (c : ℕ) → syntax c ≡ false → (c == 92) ≡ false
not_escape c h = one_of-false c 92 (codes ".*+?^${}()|[]\\") refl h

not_start : (c : ℕ) → syntax c ≡ false → (c == 94) ≡ false
not_start c h = one_of-false c 94 (codes ".*+?^${}()|[]\\") refl h

plain_char : (c : ℕ) (t : Text) → syntax c ≡ false → literal (c ∷ t) ≡ add c (literal t)
plain_char c [] h = rw (h, not_end c h) refl
plain_char c (d ∷ t) h = rw (h, not_escape c h) refl

escaped_char : (c : ℕ) (t : Text) → syntax c ≡ true → literal (92 ∷ c ∷ t) ≡ add c (literal t)
escaped_char c t h = rw h refl

literal-escape_reg_exp :
    (v rest : Text) (ends : Bool)
    → literal rest ≡ some ([], ends)
    → literal (escape_reg_exp v ++ rest) ≡ some (v, ends)
unfolding escape_reg_exp
literal-escape_reg_exp [] rest ends h = h
literal-escape_reg_exp (c ∷ v) rest ends h = elim (Bool-cases (special c)) [
  | inl e ↦ rw e (
      escaped_char c (escape_reg_exp v ++ rest) (sym (special-syntax c) ∙ e)
      ∙ ap (add c) (literal-escape_reg_exp v rest ends h))
  | inr e ↦ rw e (
      plain_char c (escape_reg_exp v ++ rest) (sym (special-syntax c) ∙ e)
      ∙ ap (add c) (literal-escape_reg_exp v rest ends h))
]

-- What a search with a regular expression looks for.
abbrev pub reads_search : Option Text → Option Pattern
reads_search none = none
reads_search (some re) = reads re

-- Without anchors, the search finds the value anywhere.
pub reads-escape_reg_exp :
    (v : Text)
    → reads (escape_reg_exp v) ≡ some (record { from_start = false; letters = v; to_end = false })
unfolding escape_reg_exp
reads-escape_reg_exp [] = refl
reads-escape_reg_exp (c ∷ v) = elim (Bool-cases (special c)) [
  | inl e ↦ rw e (ap (from false) (whole_escaped e))
  | inr e ↦ rw (e, not_start c (sym (special-syntax c) ∙ e)) (ap (from false) (whole_plain e))
]
  where
    rest_read : literal (escape_reg_exp v) ≡ some (v, false)
    rest_read =
        ap literal (sym (append-nil (escape_reg_exp v))) ∙ literal-escape_reg_exp v [] false refl

    whole_escaped : special c ≡ true → literal (92 ∷ c ∷ escape_reg_exp v) ≡ some (c ∷ v, false)
    whole_escaped e =
        escaped_char c (escape_reg_exp v) (sym (special-syntax c) ∙ e) ∙ ap (add c) rest_read

    whole_plain : special c ≡ false → literal (c ∷ escape_reg_exp v) ≡ some (c ∷ v, false)
    whole_plain e =
        plain_char c (escape_reg_exp v) (sym (special-syntax c) ∙ e) ∙ ap (add c) rest_read

-- The search for a suite finds the value as a whole.
pub value_to_reg_exp-suite :
    (minus_x_days : Text → Text) (v : Text)
    → reads (value_to_reg_exp minus_x_days Filter.suite v)
      ≡ some (record { from_start = true; letters = v; to_end = true })
unfolding value_to_reg_exp
value_to_reg_exp-suite m v = ap (from true) (literal-escape_reg_exp v (36 ∷ []) true refl)
