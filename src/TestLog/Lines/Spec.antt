-- ===== src/TestLog/Lines/Spec.antt =====
-- The lines of a text, by recursion on the text: what `countLines` and `splitHeadTail` are held to,
-- and the view of a text as lines that end in a newline and a last one that does not.
use xrpl_hive.Base.{
  ℕ, ◌≡◌, ◌≢◌, refl, ap, none, some, List, [], ◌∷◌, ◌++◌, Text, newline, index_of, length, concat,
  ◌==◌, ==_iff, if◌then◌else◌, arith, All, map, Bool-cases, inl, inr,
}

-- Put a character in front of the first line.
abbrev pub prepend : ℕ → List Text → List Text
prepend c [] = (c ∷ []) ∷ []
prepend c (l ∷ ls) = (c ∷ l) ∷ ls

-- Each line with its newline; the last one has none, and is empty after a final newline.
abbrev pub lines_of : Text → List Text
lines_of [] = [] ∷ []
lines_of (c ∷ cs) = if c == newline then (newline ∷ []) ∷ lines_of cs else prepend c (lines_of cs)

-- The lines as a reader sees them: nothing after a final newline is a line.
abbrev pub pieces : Text → List Text
pieces [] = []
pieces (c ∷ cs) = if c == newline then (newline ∷ []) ∷ pieces cs else prepend c (pieces cs)

abbrev pub Plain : Text → Type 0
Plain = All (λ c. c ≢ newline)

abbrev pub terminate : Text → Text
terminate l = l ++ newline ∷ []

-- Lines that end in a newline, and a last one that does not.
abbrev pub unlines : List Text → Text → Text
unlines [] last = last
unlines (l ∷ ls) last = l ++ newline ∷ unlines ls last

pub record Broken (text : Text) : Type 0 where
  pub full : List Text
  pub last : Text
  pub full_plain : All Plain full
  pub last_plain : Plain last
  pub joined : text ≡ unlines full last

pub break : (text : Text) → Broken text
break [] = record { full = []; last = []; full_plain = tt; last_plain = tt; joined = refl }
break (c ∷ cs) = elim (Bool-cases (c == newline)) [
  | inl e ↦ record {
    full = [] ∷ (break cs).full;
    last = (break cs).last;
    full_plain = (tt, (break cs).full_plain);
    last_plain = (break cs).last_plain;
    joined = cc ((==_iff c newline).0 e, (break cs).joined);
  }
  | inr e ↦ grow c cs (λ h. cc (e, (==_iff c newline).1 h)) (break cs)
]
  where
    grow : (c : ℕ) (cs : Text) → c ≢ newline → Broken cs → Broken (c ∷ cs)
    grow c cs ne b =
        elim b.full as (λ f. All Plain f → cs ≡ unlines f b.last → Broken (c ∷ cs)) [
          | [] ↦ λ fp j. record {
            full = [];
            last = c ∷ b.last;
            full_plain = tt;
            last_plain = (ne, b.last_plain);
            joined = ap (λ t. c ∷ t) j;
          }
          | l ∷ ls ↦ λ fp j. record {
            full = (c ∷ l) ∷ ls;
            last = b.last;
            full_plain = ((ne, fp.0), fp.1);
            last_plain = b.last_plain;
            joined = ap (λ t. c ∷ t) j;
          }
        ]
          b.full_plain b.joined

pub index_of-Plain : (l : Text) → Plain l → index_of newline l ≡ none
index_of-Plain [] h = refl
index_of-Plain (c ∷ l) h = ground (arith, index_of-Plain l h.1)

pub index_of-line :
    (l rest : Text) → Plain l → index_of newline (l ++ newline ∷ rest) ≡ some (length l)
index_of-line [] rest h = refl
index_of-line (c ∷ l) rest h = ground (arith, index_of-line l rest h.1)

pub lines_of-Plain : (l : Text) → Plain l → lines_of l ≡ l ∷ []
lines_of-Plain [] h = refl
lines_of-Plain (c ∷ l) h = ground (arith, lines_of-Plain l h.1)

pub lines_of-line :
    (l rest : Text) → Plain l → lines_of (l ++ newline ∷ rest) ≡ terminate l ∷ lines_of rest
lines_of-line [] rest h = refl
lines_of-line (c ∷ l) rest h = ground (arith, lines_of-line l rest h.1)

pub lines_of-unlines :
    (ls : List Text) (last : Text)
    → All Plain ls
    → Plain last
    → lines_of (unlines ls last) ≡ map terminate ls ++ last ∷ []
lines_of-unlines [] last h p = lines_of-Plain last p
lines_of-unlines (l ∷ ls) last h p =
    cc (lines_of-line l (unlines ls last) h.0, lines_of-unlines ls last h.1 p)

pub concat-prepend : (c : ℕ) (ls : List Text) → concat (prepend c ls) ≡ c ∷ concat ls
concat-prepend c [] = refl
concat-prepend c (l ∷ ls) = refl

-- No character is lost or added.
pub concat-lines_of : (text : Text) → concat (lines_of text) ≡ text
concat-lines_of [] = refl
concat-lines_of (c ∷ cs) =
    ground (arith, concat-lines_of cs, concat-prepend c (lines_of cs), ==_iff c newline)

pub pieces-Plain : (c : ℕ) (l : Text) → Plain (c ∷ l) → pieces (c ∷ l) ≡ (c ∷ l) ∷ []
pieces-Plain c [] h = ground arith
pieces-Plain c (b ∷ l) h = ground (arith, pieces-Plain b l h.1)

pub pieces-line :
    (l rest : Text) → Plain l → pieces (l ++ newline ∷ rest) ≡ terminate l ∷ pieces rest
pieces-line [] rest h = refl
pieces-line (c ∷ l) rest h = ground (arith, pieces-line l rest h.1)

-- A text that ends in a newline can be read apart from what follows.
pub pieces-append :
    (u rest : Text)
    → pieces ((u ++ newline ∷ []) ++ rest) ≡ pieces (u ++ newline ∷ []) ++ pieces rest
pieces-append [] rest = refl
pieces-append (c ∷ u) rest = elim (Bool-cases (c == newline)) [
  | inl e ↦ rw e (ap (λ ls. (newline ∷ []) ∷ ls) (pieces-append u rest))
  | inr e ↦
      rw (e, pieces-append u rest)
        (prepend-append c (pieces (u ++ newline ∷ [])) (pieces rest) (pieces-ne u))
]
  where
    prepend-append :
        (c : ℕ) (ls ms : List Text) → ls ≢ [] → prepend c (ls ++ ms) ≡ prepend c ls ++ ms
    prepend-append c [] ms h = absurd (h refl)
    prepend-append c (l ∷ ls) ms h = refl

    pieces-ne : (u : Text) → pieces (u ++ newline ∷ []) ≢ []
    pieces-ne [] e = cc
    pieces-ne (b ∷ u) e = elim (Bool-cases (b == newline)) [
      | inl q ↦ cons_ne (rw q at e)
      | inr q ↦ prepend_ne (pieces (u ++ newline ∷ [])) (rw q at e)
    ]
      where
        cons_ne : (newline ∷ []) ∷ pieces (u ++ newline ∷ []) ≢ []
        cons_ne h = cc

        prepend_ne : (ls : List Text) → prepend b ls ≢ []
        prepend_ne [] h = cc
        prepend_ne (l ∷ ls) h = cc

pub concat-pieces : (text : Text) → concat (pieces text) ≡ text
concat-pieces [] = refl
concat-pieces (c ∷ cs) =
    ground (arith, concat-pieces cs, concat-prepend c (pieces cs), ==_iff c newline)
