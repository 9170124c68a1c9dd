-- ===== src/TestLog/Loader/Visit.antt =====
-- The inner loop of `iterLines`: each line of a decoded text goes to the callback, with the position
-- behind it.
use xrpl_hive.Base.{
  ℕ, zero, suc, ◌+◌, ◌-◌, ◌<◌, ◌≡◌, refl, ap, sym, ◌∙◌, Bool, true, false, List, [], ◌∷◌, ◌++◌,
  some, Text, newline, slice, length, concat, lt→ltb, ge→ltb, if◌then◌else◌, arith, All,
  append_assoc, append-nil, length-append, drop-append, take-append, Bool-cases, inl, inr,
}
use xrpl_hive.TestLog.Lines.Spec.{
  Plain, terminate, unlines, break, pieces, pieces-Plain, pieces-line,
}
use xrpl_hive.TestLog.Lines.Count.{find_line, find_last, next_pre, length-next}
use xrpl_hive.TestLog.Loader.{Server, Visitor, each_line, line_stop}
use xrpl_hive.TestLog.Decode.{TextDecoder}

-- The callback on each line in turn, until it says stop; the positions count on from `at`.
unfoldable pub visit {ℓ} : {S : Type ℓ} → Visitor S → S → ℕ → List Text → S × Bool
visit func s at [] = (s, true)
visit func s at (l ∷ ls) =
    let called = func s l (at + length l) in
    let rest = visit func called.0 (at + length l) ls in
    if called.1 then rest else (called.0, false)

module _ {ℓ} {S : Type ℓ} (func : Visitor S) where
  pub visit-append :
      (s : S) (at : ℕ) (xs ys : List Text)
      → visit func s at (xs ++ ys) ≡ (
          let first = visit func s at xs in
          if first.1 then visit func first.0 (at + length (concat xs)) ys else first)
  unfolding visit
  visit-append s at [] ys = let e : at ≡ at + 0 = omega arith in ap (λ n. visit func s n ys) e
  visit-append s at (x ∷ xs) ys =
      let e : at + length x + length (concat xs) ≡ at + length (x ++ concat xs) =
        omega (arith, length-append x (concat xs)) in
      elim (Bool-cases (func s x (at + length x)).1) [
        | inl go ↦ rw go (
            visit-append (func s x (at + length x)).0 (at + length x) xs ys
            ∙ ap
                (λ n.
                  let first = visit func (func s x (at + length x)).0 (at + length x) xs in
                  if first.1 then visit func first.0 n ys else first)
                e)
        | inr stop ↦ rw stop
      ]

module _ {ℓ} (server : Server) (td : TextDecoder) {S : Type ℓ} (func : Visitor S) where
  -- One round of the loop: the line ends at `end`, if there is one.
  each_line_step :
      (fuel : ℕ) (text : Text) (output_pos at end : ℕ) (line : Text) (rest : List Text) (s : S)
      → at < length text
      → line_stop text at ≡ end
      → slice text at end ≡ line
      → end ≡ at + length line
      → ((s' : S)
          → each_line server td func fuel text output_pos end s'
            ≡ some (visit func s' (output_pos + at + length line) rest))
      → each_line server td func (suc fuel) text output_pos at s
        ≡ some (visit func s (output_pos + at) (line ∷ rest))
  unfolding each_line visit
  each_line_step fuel text output_pos at end line rest s lt stop part e ih =
      let here : output_pos + end ≡ output_pos + at + length line = omega arith in
      let called = func s line (output_pos + at + length line) in
      rw (lt→ltb at (length text) lt, stop, part, here)
        (elim (Bool-cases called.1) [ inl go ↦ rw go (ih called.0) | inr halt ↦ rw halt ])

  each_line_end :
      (fuel : ℕ) (text : Text) (output_pos at : ℕ) (s : S)
      → at ≡ length text
      → each_line server td func (suc fuel) text output_pos at s ≡ some (s, true)
  unfolding each_line
  each_line_end fuel text output_pos at s e = rw (ge→ltb at (length text) (omega arith))

  line_stop-line :
      (text pre l rest : Text)
      → Plain l
      → text ≡ pre ++ (l ++ newline ∷ rest)
      → line_stop text (length pre) ≡ length (pre ++ terminate l)
  unfolding line_stop
  line_stop-line text pre l rest h e =
      rw (find_line text pre l rest h e, line_stop) (length-next text pre l)

  line_stop-last :
      (text pre l : Text) → Plain l → text ≡ pre ++ l → line_stop text (length pre) ≡ length text
  unfolding line_stop
  line_stop-last text pre l h e = rw (find_last text pre l h e, line_stop)

  slice_part :
      (text pre l rest : Text) (end : ℕ)
      → text ≡ pre ++ (l ++ rest)
      → end ≡ length pre + length l
      → slice text (length pre) end ≡ l
  slice_part text pre l rest end e h =
      let n : end - length pre ≡ length l = omega arith in rw (n, e, drop-append, take-append)

  each_line_lem :
      (ls : List Text) (last text pre : Text) (fuel output_pos : ℕ) (s : S)
      → All Plain ls
      → Plain last
      → text ≡ pre ++ unlines ls last
      → length (unlines ls last) < fuel
      → each_line server td func fuel text output_pos (length pre) s
        ≡ some (visit func s (output_pos + length pre) (pieces (unlines ls last)))
  each_line_lem ls last text pre zero output_pos s h p e f = absurd (omega arith)
  each_line_lem [] [] text pre (suc fuel) output_pos s h p e f =
      unfold visit in
      each_line_end fuel text output_pos (length pre) s (sym (ap length (e ∙ append-nil pre)))
  each_line_lem [] (c ∷ cs) text pre (suc zero) output_pos s h p e f = absurd (omega arith)
  each_line_lem [] (c ∷ cs) text pre (suc (suc fuel)) output_pos s h p e f =
      let size = ap length e ∙ length-append pre (c ∷ cs) in
      rw (pieces-Plain c cs p) (
        each_line_step (suc fuel) text output_pos (length pre) (length text) (c ∷ cs) [] s
          (omega arith) (line_stop-last text pre (c ∷ cs) p e)
          (slice_part text pre (c ∷ cs) [] (length text)
            (e ∙ ap (λ t. pre ++ t) (sym (append-nil (c ∷ cs)))) size)
          size (λ s'. unfold visit in each_line_end fuel text output_pos (length text) s' refl))
  each_line_lem (l ∷ ls) last text pre (suc fuel) output_pos s h p e f =
      let rest = unlines ls last in
      let pre' = pre ++ terminate l in
      let e' = next_pre text pre l rest e in
      rw (pieces-line l rest h.0) (
        each_line_step fuel text output_pos (length pre) (length pre') (terminate l) (pieces rest) s
          (omega (
            arith,
            ap length e,
            length-append pre (l ++ newline ∷ rest),
            length-append l (newline ∷ rest),
          ))
          (line_stop-line text pre l rest h.0 e)
          (slice_part text pre (terminate l) rest (length pre')
            (e' ∙ append_assoc pre (terminate l) rest) (length-append pre (terminate l)))
          (length-append pre (terminate l))
          (λ s'.
            each_line_lem ls last text pre' fuel output_pos s' h.1 p e'
              (omega (arith, length-append l (newline ∷ rest)))
            ∙ (let n : output_pos + length pre' ≡ output_pos + length pre + length (terminate l) =
                  omega (arith, length-append pre (terminate l)) in
                ap (λ k. some (visit func s' k (pieces rest))) n)))

  -- On a whole decoded text the inner loop ends, and visits its lines.
  pub each_line-visit :
      (text : Text) (output_pos : ℕ) (s : S)
      → each_line server td func (length text + 1) text output_pos 0 s
        ≡ some (visit func s output_pos (pieces text))
  each_line-visit text output_pos s =
      let b = break text in
      let n : output_pos + 0 ≡ output_pos = omega arith in
      each_line_lem b.full b.last text [] (length text + 1) output_pos s b.full_plain b.last_plain
        b.joined (omega (arith, ap length b.joined))
      ∙ ap (λ t. some (visit func s (output_pos + 0) (pieces t))) (sym b.joined)
      ∙ ap (λ k. some (visit func s k (pieces text))) n
