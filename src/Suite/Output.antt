-- ===== src/Suite/Output.antt =====
-- cmd/hiveview/assets/lib/app-suite.js: the output of a test as the page shows it, with the lines that
-- tell of errors. What `html.encode` makes of a line is a parameter.
pub mod Errors
mod Tests
use mathlib.Core.Option
use xrpl_hive.Base.{
  ℕ, zero, suc, ◌+◌, Bool, true, false, not, ◌&&◌, ◌||◌, List, [], ◌∷◌, ◌++◌, Option, none, some,
  Text, codes, map, leb, ltb, length, ◌==◌, if◌then◌else◌,
}
use xrpl_hive.Browser.{Browser}
use xrpl_hive.Routes.{test_log}

-- A character of a word, and a letter without its case.
abbrev pub lower : ℕ → ℕ
lower c = if leb 65 c && leb c 90 then c + 32 else c

abbrev pub word_char : ℕ → Bool
word_char c = leb 48 c && leb c 57 || (leb 97 (lower c) && leb (lower c) 122 || c == 95)

-- `\b` between the character before, if any, and a text.
abbrev pub word_first : Text → Bool
word_first [] = false
word_first (c ∷ t) = word_char c

abbrev pub boundary : Bool → Text → Bool
boundary before t = if before then not (word_first t) else word_first t

-- What is behind a keyword at the front of a text, without regard to case.
abbrev pub behind : Text → Text → Option Text
behind [] t = some t
behind (k ∷ w) [] = none
behind (k ∷ w) (c ∷ t) = if k == lower c then behind w t else none

-- The words of the regular expression.
abbrev pub keywords : List Text
keywords = codes "error:" ∷ codes "failed" ∷ codes "fail" ∷ codes "can't launch node" ∷ []

-- Whether the character in front is one of words, behind a text.
abbrev pub word_before : Bool → Text → Bool
word_before before [] = before
word_before before (c ∷ t) = word_before (word_char c) t

abbrev pub matches_here : List Text → Text → Bool
matches_here [] t = false
matches_here (w ∷ ws) t =
    elim (behind w t) as (λ _. Bool) [
      | none ↦ false
      | some rest ↦ boundary (word_before false w) rest
    ]
    || matches_here ws t

-- The search for a match, behind a character of a word or not.
pub matches_from : List Text → Bool → Text → Bool
matches_from words before [] = boundary before [] && matches_here words []
matches_from words before (c ∷ t) =
    let rest = matches_from words (word_char c) t in
    boundary before (c ∷ t) && matches_here words (c ∷ t) || rest

-- `/\b(error:|fail(ed)?|can't launch node)\b/i.test(content)`.
unfoldable pub tells_error : Text → Bool
unfolding matches_from
tells_error content = matches_from keywords false content

-- A line of the output, and whether it is marked as an error.
pub record Line : Type 0 where
  pub content : Text
  pub error : Bool

-- A part of the output: a `code` with the classes of the first and of the last part, or the link in
-- the place of what is left out.
pub data Block : Type 0 where
  code : Bool → Bool → List Line → Block
  trunc : Text → Text → Block

-- What `formatTestLog` takes: the lines, and how many are hidden if that is known.
pub record LogData : Type 0 where
  pub head : List Text
  pub tail : List Text
  pub hidden_lines : Option ℕ

abbrev pub no_items {ℓ} : {A : Type ℓ} → List A → Bool
no_items [] = true
no_items (x ∷ xs) = false

unfoldable pub highlight_errors_in_test_output : Text → Line
unfolding tells_error
highlight_errors_in_test_output content = record { content = content; error = tells_error content }

module _ (encode : Text → Text) where
  unfoldable pub format_test_detail_lines : List Text → List Line
  unfolding highlight_errors_in_test_output
  format_test_detail_lines lines = map (λ line. highlight_errors_in_test_output (encode line)) lines

  module _ (b : Browser) where
    -- The text of the link: 0 hidden lines, or none known, are not said.
    unfoldable pub trunc_text : Option ℕ → Text
    trunc_text none = codes "Output truncated. Click here to see full log."
    trunc_text (some n) =
        if n == 0
        then codes "Output truncated. Click here to see full log."
        else b.write n ++ codes " lines hidden. Click here to see full log."

    unfoldable pub format_test_log : Text → Text → Text → LogData → List Block
    unfolding format_test_detail_lines trunc_text
    format_test_log suite_id name test_index log =
        let first =
          (if no_items log.head
            then []
            else Block.code true (no_items log.tail) (format_test_detail_lines log.head) ∷ []) in
        let last =
          (if no_items log.tail
            then []
            else Block.trunc (test_log b suite_id name test_index) (trunc_text log.hidden_lines)
              ∷ Block.code false true (format_test_detail_lines log.tail)
              ∷ []) in
        first ++ last
