-- ===== src/TestLog/Lines/Split.antt =====
-- The rounds and the loop of `splitHeadTail`.
use xrpl_hive.Base.{
  ℕ, zero, suc, ◌+◌, ◌-◌, ◌<◌, ◌≡◌, refl, ap, sym, ◌∙◌, some, List, [], ◌∷◌, ◌++◌, Text, newline,
  slice, lt→ltb, ge→ltb, length, take, drop, arith, append_assoc, append-nil, All, map,
  length-append, drop-append, take-append, take-snoc, drop-snoc, min, max,
}
use xrpl_hive.TestLog.Lines.{Cut, collect, line_end, cut_line, cut_loop}
use xrpl_hive.TestLog.Lines.Spec.{Plain, terminate, unlines}
use xrpl_hive.TestLog.Lines.Count.{find_line, find_last, length-next, next_pre}

-- The state of the loop once the lines `done` are placed; `skip` lines are before the tail.
abbrev pub placed : ℕ → ℕ → ℕ → ℕ → List Text → Cut
placed max_lines skip offset end done = record {
  offset = offset;
  end = end;
  line_number = length done;
  head = take max_lines done;
  tail = drop skip done;
  hidden_lines = min skip (length done) - max_lines;
}

abbrev pub skipped : ℕ → ℕ → ℕ
skipped max_lines total = max max_lines (total + 1 - max_lines)

-- One round places one line.
collect-placed :
    (done : List Text) (line : Text) (max_lines total offset end : ℕ)
    → collect total max_lines
        (length done)
        line
        (record (placed max_lines (skipped max_lines total) offset end done) {
          line_number = length done + 1;
        })
      ≡ placed max_lines (skipped max_lines total) offset end (done ++ line ∷ [])
unfolding collect
collect-placed done line max_lines total offset end = ground (
  arith,
  take-snoc max_lines done line,
  drop-snoc (skipped max_lines total) done line,
  length-append done (line ∷ []),
  append-nil (take max_lines done),
  append-nil (drop (skipped max_lines total) done),
)

module _ (text pre : Text) where
  slice_part :
      (l rest : Text)
      → text ≡ pre ++ (l ++ rest)
      → slice text (length pre) (length pre + length l) ≡ l
  slice_part l rest e =
      let n : length pre + length l - length pre ≡ length l = omega arith in
      rw (n, e, drop-append, take-append)

  line_end-line :
      (l rest : Text)
      → Plain l
      → text ≡ pre ++ (l ++ newline ∷ rest)
      → line_end text (length pre) ≡ length pre + length l
  unfolding line_end
  line_end-line l rest h e = rw (find_line text pre l rest h e, line_end)

  line_end-last :
      (l : Text) → Plain l → text ≡ pre ++ l → line_end text (length pre) ≡ length pre + length l
  unfolding line_end
  line_end-last l h e = rw (find_last text pre l h e, line_end) (ap length e ∙ length-append pre l)

  -- The two kinds of round: on a line with a newline, and on the last line.
  cut_line-line :
      (done : List Text) (max_lines total end : ℕ) (l rest : Text)
      → Plain l
      → text ≡ pre ++ (l ++ newline ∷ rest)
      → length done + 1 < total
      → cut_line text total max_lines
          (placed max_lines (skipped max_lines total) (length pre) end done)
        ≡ placed max_lines
            (skipped max_lines total)
            (length (pre ++ terminate l))
            (length pre + length l)
            (done ++ terminate l ∷ [])
  unfolding cut_line
  cut_line-line done max_lines total end l rest h e lt =
      rw
        (
          line_end-line l rest h e,
          lt→ltb _ _ lt,
          slice_part l (newline ∷ rest) e,
          length-next text pre l,
        )
        (collect-placed done (terminate l) max_lines total _ _)

  cut_line-last :
      (done : List Text) (max_lines total end : ℕ) (l : Text)
      → Plain l
      → text ≡ pre ++ l
      → total ≡ length done + 1
      → cut_line text total max_lines
          (placed max_lines (skipped max_lines total) (length pre) end done)
        ≡ placed max_lines
            (skipped max_lines total)
            (length pre + length l + 1)
            (length pre + length l)
            (done ++ l ∷ [])
  unfolding cut_line
  cut_line-last done max_lines total end l h e eq =
      rw
        (
          line_end-last l h e,
          ge→ltb (length done + 1) total (omega arith),
          slice_part l [] (e ∙ ap (λ t. pre ++ t) (sym (append-nil l))),
          append-nil,
        )
        (collect-placed done l max_lines total _ _)

-- With a final end at the end of the text the loop stops.
cut_loop-stop :
    (text : Text) (fuel total max_lines : ℕ) (c : Cut)
    → c.end ≡ length text
    → cut_loop (suc fuel) text total max_lines c ≡ some c
unfolding cut_loop
cut_loop-stop text fuel total max_lines c h = rw (ge→ltb c.end (length text) (omega arith))

cut_loop-go :
    (text : Text) (fuel total max_lines : ℕ) (c : Cut)
    → c.end < length text
    → cut_loop (suc fuel) text total max_lines c
      ≡ cut_loop fuel text total max_lines (cut_line text total max_lines c)
unfolding cut_loop
cut_loop-go text fuel total max_lines c h = rw (lt→ltb c.end (length text) h)

pub cut_loop_lem :
    (text pre : Text) (ls : List Text) (last : Text) (done : List Text)
    (fuel max_lines total end : ℕ)
    → All Plain ls
    → Plain last
    → text ≡ pre ++ unlines ls last
    → length ls + 1 < fuel
    → total ≡ length done + length ls + 1
    → end < length text
    → cut_loop fuel text total max_lines
        (placed max_lines (skipped max_lines total) (length pre) end done)
      ≡ some (
          placed max_lines
            (skipped max_lines total)
            (length text + 1)
            (length text)
            (done ++ (map terminate ls ++ last ∷ [])))
cut_loop_lem text pre ls last done zero m total end h p e f n lt = absurd (omega arith)
cut_loop_lem text pre ls last done (suc zero) m total end h p e f n lt = absurd (omega arith)
cut_loop_lem text pre [] last done (suc (suc fuel)) m total end h p e f n lt =
    cut_loop-go text (suc fuel) total m _ lt
    ∙ rw
        (
          cut_line-last text pre done m total end last p e (omega arith),
          sym (ap length e ∙ length-append pre last),
        )
        (cut_loop-stop text fuel total m _ refl)
cut_loop_lem text pre (l ∷ ls) last done (suc (suc fuel)) m total end h p e f n lt =
    let rest = unlines ls last in
    cut_loop-go text (suc fuel) total m _ lt
    ∙ rw (cut_line-line text pre done m total end l rest h.0 e (omega arith)) (
        cut_loop_lem text (pre ++ terminate l) ls last (done ++ terminate l ∷ []) (suc fuel) m total
          (length pre + length l) h.1 p (next_pre text pre l rest e) (omega arith)
          (omega (arith, length-append done (terminate l ∷ [])))
          (omega (
            arith,
            ap length e,
            length-append pre (l ++ newline ∷ rest),
            length-append l (newline ∷ rest),
          ))
        ∙ simp append_assoc)
