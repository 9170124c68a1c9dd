-- ===== src/TestLog/Lines/Count.antt =====
-- `countLines`: the search for newlines, and the count against the lines of the text.
use xrpl_hive.Base.{
  ℕ, zero, suc, ◌+◌, ◌≤◌, ◌<◌, ◌≡◌, ap, ◌∙◌, none, some, List, [], ◌∷◌, ◌++◌, Text, newline,
  index_of_from, length, arith, append_assoc, All, map, length-append, drop-append, length-map,
}
use xrpl_hive.TestLog.Lines.{count_lines_loop, count_lines}
use xrpl_hive.TestLog.Lines.Spec.{
  lines_of, Plain, terminate, unlines, Broken, break, index_of-Plain, index_of-line,
  lines_of-unlines,
}

module _ (text pre : Text) where
  pub find_line :
      (l rest : Text)
      → Plain l
      → text ≡ pre ++ (l ++ newline ∷ rest)
      → index_of_from newline text (length pre) ≡ some (length pre + length l)
  find_line l rest h e = rw (e, drop-append, index_of-line l rest h)

  pub find_last :
      (last : Text)
      → Plain last
      → text ≡ pre ++ last
      → index_of_from newline text (length pre) ≡ none
  find_last last h e = rw (e, drop-append, index_of-Plain last h)

  pub length-next : (l : Text) → length pre + length l + 1 ≡ length (pre ++ terminate l)
  length-next l = omega (arith, length-append pre (terminate l), length-append l (newline ∷ []))

  pub next_pre :
      (l rest : Text) → text ≡ pre ++ (l ++ newline ∷ rest) → text ≡ (pre ++ terminate l) ++ rest
  next_pre l rest e = rw e (simp append_assoc)

count_lines_loop_lem :
    (text pre : Text) (ls : List Text) (last : Text) (fuel lines : ℕ)
    → All Plain ls
    → Plain last
    → text ≡ pre ++ unlines ls last
    → length ls < fuel
    → count_lines_loop fuel text lines (length pre) ≡ some (lines + length ls + 1)
unfolding count_lines_loop
count_lines_loop_lem text pre ls last zero lines h p e f = absurd (omega arith)
count_lines_loop_lem text pre [] last (suc fuel) lines h p e f =
    rw (find_last text pre last p e, count_lines_loop) (ap some (omega arith))
count_lines_loop_lem text pre (l ∷ ls) last (suc fuel) lines h p e f =
    rw (find_line text pre l (unlines ls last) h.0 e, count_lines_loop, length-next text pre l)
      (count_lines_loop_lem text (pre ++ terminate l) ls last fuel (lines + 1) h.1 p
          (next_pre text pre l (unlines ls last) e) (omega arith)
        ∙ ap some (omega arith))

pub length-unlines : (ls : List Text) (last : Text) → length ls ≤ length (unlines ls last)
length-unlines [] last = omega arith
length-unlines (l ∷ ls) last =
    omega (arith, length-append l (newline ∷ unlines ls last), length-unlines ls last)

pub length-lines_of : (text : Text) (b : Broken text) → length (lines_of text) ≡ length b.full + 1
length-lines_of text b =
    ap (λ t. length (lines_of t)) b.joined
    ∙ ap length (lines_of-unlines b.full b.last b.full_plain b.last_plain)
    ∙ length-append (map terminate b.full) (b.last ∷ [])
    ∙ omega (arith, length-map terminate b.full)

-- `countLines` returns, and gives the number of lines of the text: one more than its newlines.
pub count_lines-lines_of : (text : Text) → count_lines text ≡ some (length (lines_of text))
unfolding count_lines
count_lines-lines_of text =
    let b = break text in
    count_lines_loop_lem text [] b.full b.last (length text + 1) 0 b.full_plain b.last_plain
      b.joined (omega (arith, length-unlines b.full b.last, ap length b.joined))
    ∙ ap some (omega (arith, length-lines_of text b))
