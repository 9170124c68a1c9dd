-- ===== src/Suite/Details/Shown.antt =====
-- What the box shows of the output of a test.
use xrpl_hive.Base.{
  ℕ, ◌-◌, ◌<◌, newline, true, false, List, [], ◌∷◌, ◌++◌, Option, none, some, Text, codes, ◌≡◌, ◌≢◌,
  refl, ap, ◌∙◌, leb, length, length-take, length-drop, take, drop, ◌==◌, if◌then◌else◌, arith,
  Bool-cases, inl, inr,
}
use xrpl_hive.Browser.{Browser}
use xrpl_hive.Routes.{test_log}
use xrpl_hive.TestLog.Lines.{HeadTail}
use xrpl_hive.TestLog.Lines.Spec.{lines_of, prepend}
use xrpl_hive.TestLog.Lines.Split.{skipped}
use xrpl_hive.TestLog.Lines.Window.{window, hidden_count, split_head_tail-window}
use xrpl_hive.TestLog.Loader.{Loader, Outcome, done, out_of_fuel, ◌>>=◌}
use xrpl_hive.Suite.Output.{Block, no_items, trunc_text, format_test_detail_lines, format_test_log}
use xrpl_hive.Suite.Details.{
  Origin, Hidden, Case, Html, Section, header_sections, log_section, inline_output, after_details,
  format_test_details,
}

lines_of-given : (text : Text) → lines_of text ≢ []
lines_of-given [] h = cc
lines_of-given (c ∷ text) h = elim (Bool-cases (c == newline)) [
  | inl e ↦ let no : (newline ∷ []) ∷ lines_of text ≡ [] = rw e at h in cc
  | inr e ↦ let no : prepend c (lines_of text) ≡ [] = rw e at h in prepended (lines_of text) no
]
  where
    prepended : (ls : List Text) → prepend c ls ≢ []
    prepended [] k = cc
    prepended (l ∷ ls) k = cc

pub no_items-length {ℓ} : {A : Type ℓ} (xs : List A) → 0 < length xs → no_items xs ≡ false
no_items-length [] h = absurd (omega (arith, h))
no_items-length (x ∷ xs) h = refl

many_lt : (n : ℕ) → leb n 49 ≡ false → 49 < n
many_lt n h = ground arith

window_many :
    (lines : List Text)
    → leb (length lines) 49 ≡ false
    → (hidden_count 25 (length lines) == 0) ≡ false
    → window lines 25 ≡ record {
      head = take 25 lines;
      tail = drop (length lines - 24) lines;
      hidden_lines = length lines - 49;
    }
window_many lines l e =
    let n = many_lt (length lines) l in
    let skip : skipped 25 (length lines) ≡ length lines - 24 = omega (arith, n) in
    let count : hidden_count 25 (length lines) ≡ length lines - 49 = omega (arith, n) in
    rw e (
      ap2 (λ t h. record { head = take 25 lines; tail = drop t lines; hidden_lines = h }) skip
        count)
  where
    ap2 : (f : ℕ → ℕ → HeadTail) {m n k l : ℕ} → m ≡ n → k ≡ l → f m k ≡ f n l
    ap2 f {m} {n} {k} {l} p q = ap (λ x. f x k) p ∙ ap (f n) q

module _ (b : Browser) (html : Html) where
  -- The output as a reader wants it: all lines up to 49, else the first 25 and the last 24, with a link to
  -- the others between them.
  abbrev pub shown_blocks : Origin → Text → List Text → List Block
  shown_blocks suite test_index lines =
      if leb (length lines) 49
      then Block.code true true (format_test_detail_lines html.encode lines) ∷ []
      else Block.code true false (format_test_detail_lines html.encode (take 25 lines))
        ∷ Block.trunc (test_log b suite.suite_id suite.name test_index)
            (b.write (length lines - 49) ++ codes " lines hidden. Click here to see full log.")
        ∷ Block.code false true
            (format_test_detail_lines html.encode (drop (length lines - 24) lines))
        ∷ []

  -- The parts of the output, for lines that are there.
  format_test_log-tail :
      (suite : Origin) (test_index : Text) (head tail : List Text) (hidden : ℕ)
      → no_items head ≡ false
      → no_items tail ≡ false
      → (hidden == 0) ≡ false
      → format_test_log html.encode b suite.suite_id suite.name test_index
          (record { head = head; tail = tail; hidden_lines = some hidden })
        ≡ Block.code true false (format_test_detail_lines html.encode head)
          ∷ Block.trunc
              (test_log b suite.suite_id suite.name test_index)
              (b.write hidden ++ codes " lines hidden. Click here to see full log.")
          ∷ Block.code false true (format_test_detail_lines html.encode tail)
          ∷ []
  unfolding format_test_log trunc_text
  format_test_log-tail suite test_index (x ∷ head) (y ∷ tail) hidden h t k = rw k refl
  format_test_log-tail suite test_index [] tail hidden h t k = absurd (ground arith)
  format_test_log-tail suite test_index (x ∷ head) [] hidden h t k = absurd (ground arith)

  format_window :
      (suite : Origin) (test_index : Text) (lines : List Text)
      → lines ≢ []
      → (let r = window lines 25 in
          format_test_log html.encode b suite.suite_id suite.name test_index
            (record { head = r.head; tail = r.tail; hidden_lines = some r.hidden_lines }))
        ≡ shown_blocks suite test_index lines
  unfolding format_test_log
  format_window suite test_index lines h = elim (Bool-cases (hidden_count 25 (length lines) == 0)) [
    | inl e ↦ few lines h (ground arith) e
    | inr e ↦ many (ground arith) e
  ]
    where
      few :
          (lines : List Text)
          → lines ≢ []
          → leb (length lines) 49 ≡ true
          → (hidden_count 25 (length lines) == 0) ≡ true
          → (let r = window lines 25 in
              format_test_log html.encode b suite.suite_id suite.name test_index
                (record { head = r.head; tail = r.tail; hidden_lines = some r.hidden_lines }))
            ≡ shown_blocks suite test_index lines
      few [] h l e = absurd (h refl)
      few (x ∷ xs) h l e = rw (e, l) refl

      many :
          leb (length lines) 49 ≡ false
          → (hidden_count 25 (length lines) == 0) ≡ false
          → (let r = window lines 25 in
              format_test_log html.encode b suite.suite_id suite.name test_index
                (record { head = r.head; tail = r.tail; hidden_lines = some r.hidden_lines }))
            ≡ shown_blocks suite test_index lines
      many l e =
          let n = many_lt (length lines) l in
          ap
            (λ (r : HeadTail).
              format_test_log html.encode b suite.suite_id suite.name test_index
                (record { head = r.head; tail = r.tail; hidden_lines = some r.hidden_lines }))
            (window_many lines l e)
          ∙ format_test_log-tail suite test_index (take 25 lines) (drop (length lines - 24) lines)
              (length lines - 49)
              (no_items-length (take 25 lines) (omega (arith, n, length-take 25 lines)))
              (no_items-length (drop (length lines - 24) lines)
                (omega (arith, n, length-drop (length lines - 24) lines)))
              (ground (arith, n))
          ∙ rw l refl

  inline_output-shown_blocks :
      (suite : Origin) (d : Case) (text : Text)
      → text ≢ []
      → inline_output b html suite d text
        ≡ done (Section.details (shown_blocks suite d.test_index (lines_of text)))
  unfolding inline_output
  inline_output-shown_blocks suite d text ne =
      ap
        (λ o. elim o as (λ _. Outcome Section) [
          | none ↦ out_of_fuel
          | some r ↦ done (
              log_section b html suite d.test_index
                (record { head = r.head; tail = r.tail; hidden_lines = some r.hidden_lines }))
        ])
        (split_head_tail-window text 25 ne)
      ∙ ap (λ blocks. done (Section.details blocks))
          (format_window suite d.test_index (lines_of text) (lines_of-given text))

  -- A test whose output stands in the suite file: the box is what is in front of the output, and the
  -- output. Up to 49 lines are shown all; of more, the first 25 and the last 24, with the number of the
  -- others in the link to the whole log. No log is loaded.
  pub format_test_details-shown_blocks :
      (suite : Origin) (hidden : Hidden) (d : Case) (text : Text)
      → text ≢ []
      → d.test.details ≡ some text
      → format_test_details b html suite hidden d
        ≡ done (
          header_sections b html suite hidden d
              ++ Section.details (shown_blocks suite d.test_index (lines_of text)) ∷ [],
          none,
        )
  unfolding format_test_details
  format_test_details-shown_blocks suite hidden d [] ne h = absurd (ne refl)
  format_test_details-shown_blocks suite hidden d (c ∷ text) ne h =
      let header = header_sections b html suite hidden d in
      ap
        (λ o. elim o as (λ _. Outcome (List Section × Option Loader)) [
          | none ↦ after_details b html header suite d
          | some t ↦
              if no_items t
              then after_details b html header suite d
              else inline_output b html suite d t >>= (λ s. done (header ++ s ∷ [], none))
        ])
        h
      ∙ ap (λ x. x >>= (λ s. done (header ++ s ∷ [], none)))
          (inline_output-shown_blocks suite d (c ∷ text) ne)
