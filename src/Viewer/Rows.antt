-- ===== src/Viewer/Rows.antt =====
-- `showText`: the rows of a text, and the count in the header.
use xrpl_hive.Base.{
  ◌+◌, ◌≡◌, refl, ap, ◌∙◌, List, [], ◌∷◌, ◌++◌, Text, newline, length, length-append, arith, All,
}
use xrpl_hive.TestLog.Lines.Spec.{Plain, unlines}
use xrpl_hive.Viewer.{split_lines, rows, show_text}

-- The last line, if it is not empty.
abbrev pub last_row : Text → List Text
last_row [] = []
last_row (c ∷ cs) = (c ∷ cs) ∷ []

split_lines-Plain : (l : Text) → Plain l → split_lines l ≡ l ∷ []
unfolding split_lines
split_lines-Plain [] h = refl
split_lines-Plain (c ∷ l) h = ground (arith, split_lines-Plain l h.1)

split_lines-line :
    (l rest : Text) → Plain l → split_lines (l ++ newline ∷ rest) ≡ l ∷ split_lines rest
unfolding split_lines
split_lines-line [] rest h = refl
split_lines-line (c ∷ l) rest h = ground (arith, split_lines-line l rest h.1)

split_lines-unlines :
    (ls : List Text) (last : Text)
    → All Plain ls
    → Plain last
    → split_lines (unlines ls last) ≡ ls ++ last ∷ []
split_lines-unlines [] last h p = split_lines-Plain last p
split_lines-unlines (l ∷ ls) last h p =
    split_lines-line l (unlines ls last) h.0 ∙ ap (λ x. l ∷ x) (split_lines-unlines ls last h.1 p)

rows-snoc : (ls : List Text) (last : Text) → rows (ls ++ last ∷ []) ≡ ls ++ last_row last
unfolding rows
rows-snoc [] [] = refl
rows-snoc [] (c ∷ cs) = refl
rows-snoc ((c ∷ cs) ∷ ls) last = ap (λ x. (c ∷ cs) ∷ x) (rows-snoc ls last)
rows-snoc ([] ∷ []) last = ap (λ x. [] ∷ x) (rows-snoc [] last)
rows-snoc ([] ∷ l ∷ ls) last = ap (λ x. [] ∷ x) (rows-snoc (l ∷ ls) last)

-- `showText` shows a row for each line that ends in a newline, also an empty one, and a row for what
-- follows the last newline if that is not empty. The count in the header is the number of newlines and
-- one, so it is one more than the rows if the text ends in a newline or is empty.
pub show_text-unlines :
    (full : List Text) (last : Text)
    → All Plain full
    → Plain last
    → show_text (unlines full last)
      ≡ record { lines = full ++ last_row last; line_count = length full + 1 }
unfolding show_text
show_text-unlines full last h p =
    let cut = split_lines-unlines full last h p in
    let shown = ap rows cut ∙ rows-snoc full last in
    let count = ap length cut ∙ length-append full (last ∷ []) in
    λ i. record { lines = shown i; line_count = count i }
