-- ===== src/TestLog/Loader/Round.antt =====
-- One round of the loop of `iterLines`, on a log in ASCII from a server that answers range requests.
use xrpl_hive.Base.{
  ℕ, zero, suc, ◌+◌, ◌-◌, ◌≤◌, ◌<◌, ◌≡◌, refl, ap, sym, ◌∙◌, Bool, true, false, [], ◌∷◌, ◌++◌, some,
  none, Text, Bytes, newline, length, take, if◌then◌else◌, arith, append_assoc, length-append,
  length-take, length-drop, take-append_past, append_cancel, inl, inr, ◌⊎◌,
}
use xrpl_hive.TestLog.Decode.{TextDecoder}
use xrpl_hive.TestLog.Lines.Spec.{pieces, pieces-append, concat-pieces}
use xrpl_hive.TestLog.LineDecoder
use xrpl_hive.TestLog.LineDecoder.{LineDecoder, new_line_decoder}
use xrpl_hive.TestLog.LineDecoder.Taken.{Progress, Decoded, available}
use xrpl_hive.TestLog.Loader.{
  Server, Visitor, Loader, Outcome, done, visit_text, after_text, round, iter_loop,
}
use xrpl_hive.TestLog.Loader.Visit.{visit, visit-append, each_line-visit}
use xrpl_hive.TestLog.Loader.Fetch.{Serves, region, fetch_more-Progress}

module _ {ℓ} (server : Server) (td : TextDecoder) {S : Type ℓ} (func : Visitor S) (l : Loader) where
  visit_text-visit :
      (d : LineDecoder td) (text : Text) (at : ℕ) (s : S)
      → d.length ≡ d.remaining + at + length text
      → visit_text server td func d text s ≡ some (visit func s at (pieces text))
  unfolding visit_text LineDecoder.output_position
  visit_text-visit d text at s e =
      let n : d.length - d.remaining - length text ≡ at = omega arith in
      rw n (each_line-visit server td func text at s)

  pub iter_loop-eof :
      (fuel : ℕ) (d : LineDecoder td) (s : S)
      → d.remaining ≡ 0
      → iter_loop server td func (suc fuel) l d s ≡ done s
  unfolding iter_loop LineDecoder.at_eof
  iter_loop-eof fuel d s e = ground arith

  pub iter_loop-round :
      (fuel : ℕ) (d : LineDecoder td) (s : S)
      → 0 < d.remaining
      → iter_loop server td func (suc fuel) l d s
        ≡ round server td func (iter_loop server td func fuel l) l (LineDecoder.decode td d) s
  unfolding iter_loop LineDecoder.at_eof
  iter_loop-round fuel d s h = ground arith

-- A text that was decoded begins what is left of the range.
left_over :
    (n : ℕ) (file out text beyond rest : Bytes)
    → file ≡ (out ++ text) ++ beyond
    → take n file ≡ out ++ rest
    → length (out ++ text) ≤ n
    → rest ≡ text ++ take (n - length (out ++ text)) beyond
left_over n file out text beyond rest e f h = append_cancel out _ _ (
    sym f
    ∙ ap (take n) e
    ∙ take-append_past n (out ++ text) beyond h
    ∙ append_assoc out text (take (n - length (out ++ text)) beyond))

module _ {ℓ} (server : Server) (td : TextDecoder) {S : Type ℓ} (func : Visitor S) (l : Loader)
    (file : Bytes) (served : Serves server l.log_file_name file)
    (size : l.offsets.begin + l.length ≤ length file) where
  -- What the loop does with `fuel` rounds, from a decoder that has returned `out`.
  abbrev pub Visits : ℕ → Type ℓ
  Visits fuel =
      (d : LineDecoder td) (out rest : Text) (s : S)
      → Progress td (region l file) d out
      → d.length ≡ l.length
      → (0 < d.remaining) ⊎ (d.textbuf ≡ [])
      → take l.length (region l file) ≡ out ++ rest
      → d.remaining + (l.length - d.inp) < fuel
      → iter_loop server td func fuel l d s ≡ done (visit func s (length out) (pieces rest)).0

  visit_then :
      (s : S) (at : ℕ) (t u rest : Text)
      → t ≡ u ++ newline ∷ []
      → visit func s at (pieces (t ++ rest)) ≡ (
          let first = visit func s at (pieces t) in
          if first.1 then visit func first.0 (at + length t) (pieces rest) else first)
  visit_then s at t u rest e =
      let first = visit func s at (pieces t) in
      ap (visit func s at) (
        ap (λ x. pieces (x ++ rest)) e
        ∙ pieces-append u rest
        ∙ ap (λ x. pieces x ++ pieces rest) (sym e))
      ∙ visit-append func s at (pieces t) (pieces rest)
      ∙ ap (λ x. if first.1 then visit func first.0 (at + length x) (pieces rest) else first)
          (concat-pieces t)

  pub round_wants :
      (fuel : ℕ) (d d' : LineDecoder td) (out rest : Text) (s : S)
      → Visits fuel
      → Decoded td (region l file) d out d' none
      → d.length ≡ l.length
      → take l.length (region l file) ≡ out ++ rest
      → d.remaining + (l.length - d.inp) < suc fuel
      → round server td func (iter_loop server td func fuel l) l (d', none) s
        ≡ done (visit func s (length out) (pieces rest)).0
  unfolding round
  round_wants fuel d d' out rest s ih (p, q, more, i, m, n) size_d whole f =
      let (d'', fetched, p'', grew, room, same, size'') =
        fetch_more-Progress server td l file served size d' out p q more (n ∙ size_d) in
      rw fetched
        (ih d'' out rest s p'' (size'' ∙ n ∙ size_d) (inl (omega arith)) whole (omega arith))

  after_first :
      (again : S → Outcome S) (first : S × Bool) (target : S → S × Bool)
      → (first.1 ≡ true → again first.0 ≡ done (target first.0).0)
      → after_text server td func again (some first)
        ≡ done (if first.1 then target first.0 else first).0
  unfolding after_text
  after_first again (s, true) target h = h refl
  after_first again (s, false) target h = refl

  stop_or_go : (first : S × Bool) → (if first.1 then (first.0, true) else first).0 ≡ first.0
  stop_or_go (s, true) = refl
  stop_or_go (s, false) = refl

  pub round_shows_last :
      (fuel : ℕ) (d d' : LineDecoder td) (out : Text) (c : ℕ) (cs rest : Text) (s : S)
      → 0 < fuel
      → d'.remaining ≡ 0
      → out ++ c ∷ cs ≡ take d.length (region l file)
      → d'.length ≡ d.length
      → d.length ≡ l.length
      → take l.length (region l file) ≡ out ++ rest
      → round server td func (iter_loop server td func fuel l) l (d', some (c ∷ cs)) s
        ≡ done (visit func s (length out) (pieces rest)).0
  unfolding round
  round_shows_last zero d d' out c cs rest s pos_fuel eof all n size_d whole = absurd (omega arith)
  round_shows_last (suc fuel) d d' out c cs rest s pos_fuel eof all n size_d whole =
      let same : rest ≡ c ∷ cs =
        append_cancel out rest (c ∷ cs)
          (sym whole ∙ ap (λ k. take k (region l file)) (sym size_d) ∙ sym all) in
      let first = visit func s (length out) (pieces (c ∷ cs)) in
      let size_t : d'.length ≡ d'.remaining + length out + length (c ∷ cs) = omega (
        arith,
        ap length all,
        length-append out (c ∷ cs),
        length-take d.length (region l file),
        length-drop l.offsets.begin file,
      ) in
      rw (visit_text-visit server td func l d' (c ∷ cs) (length out) s size_t, same)
        (after_first (iter_loop server td func (suc fuel) l d') first (λ s'. (s', true))
            (λ _. iter_loop-eof server td func l fuel d' first.0 eof)
          ∙ ap done (stop_or_go first))

  pub round_shows_line :
      (fuel : ℕ) (d d' : LineDecoder td) (out t u rest : Text) (s : S)
      → Visits fuel
      → Progress td (region l file) d' (out ++ t)
      → t ≡ u ++ newline ∷ []
      → d'.textbuf ≡ []
      → 0 < length t
      → d'.remaining < d.remaining
      → d'.inp ≡ d.inp
      → d'.length ≡ l.length
      → take l.length (region l file) ≡ out ++ rest
      → d.remaining + (l.length - d.inp) < suc fuel
      → after_text server td func
          (iter_loop server td func fuel l d')
          (visit_text server td func d' t s)
        ≡ done (visit func s (length out) (pieces rest)).0
  round_shows_line fuel d d' out t u rest s ih p ends cleared nonempty less i n whole f =
      let beyond = d'.textbuf ++ (available d'.offset d'.queue ++ p.rest) in
      let left = take (l.length - length (out ++ t)) beyond in
      let parts : rest ≡ t ++ left =
        left_over l.length (region l file) out t beyond rest p.parts whole
          (omega (arith, p.counted)) in
      let size_t : d'.length ≡ d'.remaining + length out + length t =
        omega (arith, p.counted, ap length cleared, length-append out t) in
      let first = visit func s (length out) (pieces t) in
      rw (visit_text-visit server td func l d' t (length out) s size_t) (
        after_first (iter_loop server td func fuel l d') first
          (λ s'. visit func s' (length out + length t) (pieces left))
          (λ _.
            ih d' (out ++ t) left first.0 p n (inr cleared)
              (whole ∙ ap (λ r. out ++ r) parts ∙ sym (append_assoc out t left)) (omega arith)
            ∙ ap (λ k. done (visit func first.0 k (pieces left)).0) (length-append out t))
        ∙ ap (λ v. done v.0)
            (sym (
              ap (λ r. visit func s (length out) (pieces r)) parts
              ∙ visit_then s (length out) t u left ends)))
