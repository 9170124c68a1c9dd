-- ===== src/Suite/Output/Errors.antt =====
-- The regular expression for errors.
use xrpl_hive.Base.{
  ℕ, Bool, true, false, ◌&&◌, ◌||◌, List, [], ◌∷◌, ◌++◌, none, some, Text, ◌≡◌, ◌⊎◌, ◌↔◌, refl, ap,
  sym, ◌∙◌, map, ◌==◌, ==_iff, arith, Bool-cases, Option-cases, inl, inr, some_inj,
}
use xrpl_hive.Suite.Output.{
  lower, word_char, word_before, boundary, behind, keywords, matches_here, matches_from,
  tells_error,
}

abbrev pub OneOf : List Text → Text → Type 0
OneOf [] w = ⊥
OneOf (x ∷ xs) w = (w ≡ x) ⊎ OneOf xs w

-- A keyword in any case, with a boundary of words on both sides, in a text behind what `before` says.
abbrev pub Occurs : Bool → List Text → Text → Type 0
Occurs before words t =
    (front word rest : Text) × (t ≡ front ++ (word ++ rest))
    × OneOf words (map lower word)
    × (boundary (word_before before front) (word ++ rest) ≡ true)
    × (boundary (word_before false word) rest ≡ true)

word_char-lower : (c : ℕ) → word_char (lower c) ≡ word_char c
word_char-lower c = ground arith

word_before-lower : (b : Bool) (w : Text) → word_before b (map lower w) ≡ word_before b w
word_before-lower b [] = refl
word_before-lower b (c ∷ w) =
    word_before-lower (word_char (lower c)) w ∙ ap (λ x. word_before x w) (word_char-lower c)

behind-some :
    (w t rest : Text)
    → behind w t ≡ some rest
    → (word : Text) × (t ≡ word ++ rest) × (map lower word ≡ w)
behind-some [] t rest h = ([], some_inj h, refl)
behind-some (k ∷ w) [] rest h = cc
behind-some (k ∷ w) (c ∷ t) rest h = elim (Bool-cases (k == lower c)) [
  | inl e ↦
      let (word, p, q) = behind-some w t rest (rw e at h) in
      (c ∷ word, ap (λ u. c ∷ u) p, rw (q, (==_iff k (lower c)).0 e) refl)
  | inr e ↦ let no : none ≡ some rest = rw e at h in cc
]

behind-append : (word rest : Text) → behind (map lower word) (word ++ rest) ≡ some rest
behind-append [] rest = refl
behind-append (c ∷ word) rest = rw ((==_iff (lower c) (lower c)).1 refl) (behind-append word rest)

or_cases : (a b : Bool) → a || b ≡ true → (a ≡ true) ⊎ (b ≡ true)
or_cases true b h = inl refl
or_cases false b h = inr h

and_both : (a b : Bool) → a && b ≡ true → (a ≡ true) × (b ≡ true)
and_both true b h = (refl, h)
and_both false b h = absurd (ground arith)

here_sound :
    (ws : List Text) (t : Text)
    → matches_here ws t ≡ true
    → (word rest : Text) × (t ≡ word ++ rest)
      × OneOf ws (map lower word)
      × (boundary (word_before false word) rest ≡ true)
here_sound [] t h = absurd (ground arith)
here_sound (w ∷ ws) t h = elim (Option-cases (behind w t)) [
  | inl e ↦ later (here_sound ws t (rw e at h))
  | inr (rest, e) ↦
      let (word, p, q) = behind-some w t rest e in
      elim (or_cases (boundary (word_before false w) rest) (matches_here ws t) (rw e at h)) [
        | inl b ↦ (word, rest, p, inl q, ap (λ x. boundary x rest) (word_before-of word q) ∙ b)
        | inr b ↦ later (here_sound ws t b)
      ]
]
  where
    later :
        ((word rest : Text) × (t ≡ word ++ rest)
          × OneOf ws (map lower word)
          × (boundary (word_before false word) rest ≡ true))
        → (word rest : Text) × (t ≡ word ++ rest)
          × OneOf (w ∷ ws) (map lower word)
          × (boundary (word_before false word) rest ≡ true)
    later (word, rest, p, o, b) = (word, rest, p, inr o, b)

    word_before-of :
        (word : Text) → map lower word ≡ w → word_before false word ≡ word_before false w
    word_before-of word q = sym (word_before-lower false word) ∙ ap (word_before false) q

here_complete :
    (ws : List Text) (word rest : Text)
    → OneOf ws (map lower word)
    → boundary (word_before false word) rest ≡ true
    → matches_here ws (word ++ rest) ≡ true
here_complete [] word rest o b = absurd o
here_complete (w ∷ ws) word rest (inl e) b =
    let q : behind w (word ++ rest) ≡ some rest = rw (← e) (behind-append word rest) in
    let k : boundary (word_before false w) rest ≡ true =
      ap (λ x. boundary x rest) (ap (word_before false) (sym e) ∙ word_before-lower false word)
      ∙ b in
    rw (q, k) refl
here_complete (w ∷ ws) word rest (inr o) b =
    or_right _ (matches_here ws (word ++ rest)) (here_complete ws word rest o b)
  where
    or_right : (x y : Bool) → y ≡ true → x || y ≡ true
    or_right true y h = refl
    or_right false y h = h

from_here :
    (words : List Text) (before : Bool) (t : Text)
    → boundary before t && matches_here words t ≡ true
    → Occurs before words t
from_here words before t h =
    let (p, q) = and_both (boundary before t) (matches_here words t) h in
    let (word, rest, e, o, b) = here_sound words t q in ([], word, rest, e, o, rw (← e) p, b)

from_sound :
    (words : List Text) (before : Bool) (t : Text)
    → matches_from words before t ≡ true
    → Occurs before words t
unfolding matches_from
from_sound words before [] h = from_here words before [] h
from_sound words before (c ∷ t) h =
    elim (or_cases (boundary before (c ∷ t) && matches_here words (c ∷ t))
      (matches_from words (word_char c) t) h) [
        | inl k ↦ from_here words before (c ∷ t) k
        | inr k ↦
            let (front, word, rest, e, o, b, q) = from_sound words (word_char c) t k in
            (c ∷ front, word, rest, ap (λ u. c ∷ u) e, o, b, q)
      ]

from_starts :
    (words : List Text) (before : Bool) (t : Text)
    → boundary before t && matches_here words t ≡ true
    → matches_from words before t ≡ true
unfolding matches_from
from_starts words before [] h = h
from_starts words before (c ∷ t) h = rw h refl

from_complete :
    (words : List Text) (before : Bool) (front word rest : Text)
    → OneOf words (map lower word)
    → boundary (word_before before front) (word ++ rest) ≡ true
    → boundary (word_before false word) rest ≡ true
    → matches_from words before (front ++ (word ++ rest)) ≡ true
unfolding matches_from
from_complete words before [] word rest o p q =
    from_starts words before (word ++ rest) (rw (p, here_complete words word rest o q) refl)
from_complete words before (c ∷ front) word rest o p q =
    rw (from_complete words (word_char c) front word rest o p q) (
      any_true (
        boundary before (c ∷ (front ++ (word ++ rest)))
        && matches_here words (c ∷ (front ++ (word ++ rest)))))
  where
    any_true : (x : Bool) → x || true ≡ true
    any_true true = refl
    any_true false = refl

-- A line is marked exactly if it has `error:`, `fail`, `failed` or `can't launch node`, in any case,
-- with a boundary of words in front and behind: behind the colon, that is a character of a word.
pub tells_error_iff :
    (content : Text) → (tells_error content ≡ true) ↔ Occurs false keywords content
unfolding tells_error
tells_error_iff content = (
  from_sound keywords false content,
  λ (front, word, rest, e, o, p, q). rw e (from_complete keywords false front word rest o p q),
)
