-- ===== src/TestLog/Lines.antt =====
-- `countLines` and `splitHeadTail` of cmd/hiveview/assets/lib/testlog.js.
pub mod Spec
pub mod Count
pub mod Split
pub mod Window
use xrpl_hive.Base.{
  ℕ, zero, suc, ◌+◌, ◌-◌, ◌≤◌, Bool, true, false, ◌||◌, List, [], ◌∷◌, ◌++◌, Option, none, some,
  Text, newline, index_of_from, slice, length, ltb, ◌==◌, if◌then◌else◌,
}

-- The loop of `countLines`; `none` means that the fuel ran out.
count_lines_loop : ℕ → Text → ℕ → ℕ → Option ℕ
count_lines_loop zero text lines offset = none
count_lines_loop (suc fuel) text lines offset = elim (index_of_from newline text offset) [
  | none ↦ some (lines + 1)
  | some i ↦ count_lines_loop fuel text (lines + 1) (i + 1)
]

unfoldable pub count_lines : Text → Option ℕ
unfolding count_lines_loop
count_lines text = count_lines_loop (length text + 1) text 0 0

-- What `splitHeadTail` returns.
pub record HeadTail : Type 0 where
  pub head : List Text
  pub tail : List Text
  pub hidden_lines : ℕ

-- The local variables of `splitHeadTail` that its loop writes.
pub record Cut : Type 0 where
  pub offset : ℕ
  pub end : ℕ
  pub line_number : ℕ
  pub head : List Text
  pub tail : List Text
  pub hidden_lines : ℕ

-- `lineNumber > totalLines - maxLines`, where the difference may be negative.
in_suffix : ℕ → ℕ → ℕ → Bool
in_suffix total max_lines number = ltb total (number + max_lines)

-- The end of the line that begins at `offset`.
line_end : Text → ℕ → ℕ
line_end text offset = elim (index_of_from newline text offset) [ none ↦ length text | some i ↦ i ]

-- Where the line goes that was found.
collect : ℕ → ℕ → ℕ → Text → Cut → Cut
unfolding in_suffix
collect total max_lines number line c =
    if ltb number max_lines
    then record c { head = c.head ++ line ∷ [] }
    else if in_suffix total max_lines number
    then record c { tail = c.tail ++ line ∷ [] }
    else record c { hidden_lines = c.hidden_lines + 1 }

-- One round of the loop.
cut_line : Text → ℕ → ℕ → Cut → Cut
unfolding line_end
cut_line text total max_lines c =
    let end = line_end text c.offset in
    let line : Text =
      slice text c.offset end ++ (if ltb (c.line_number + 1) total then newline ∷ [] else []) in
    let next = record c { offset = end + 1; end = end; line_number = c.line_number + 1 } in
    collect total max_lines c.line_number line next

-- The loop; `none` means that the fuel ran out.
pub cut_loop : ℕ → Text → ℕ → ℕ → Cut → Option Cut
cut_loop zero text total max_lines c = none
cut_loop (suc fuel) text total max_lines c =
    let rest = cut_loop fuel text total max_lines (cut_line text total max_lines c) in
    if ltb c.end (length text) then rest else some c

-- What follows the loop: with nothing hidden, all lines are in the head.
finish : Cut → HeadTail
finish c =
    if c.hidden_lines == 0
    then record { head = c.head ++ c.tail; tail = []; hidden_lines = c.hidden_lines }
    else record { head = c.head; tail = c.tail; hidden_lines = c.hidden_lines }

abbrev start_cut : Cut
start_cut = record { offset = 0; end = 0; line_number = 0; head = []; tail = []; hidden_lines = 0 }

unfoldable pub split_head_tail : Text → ℕ → Option HeadTail
unfolding cut_loop cut_line collect finish
split_head_tail text max_lines = elim (count_lines text) [
  | none ↦ none
  | some total ↦ elim (cut_loop (length text + 2) text total max_lines start_cut) [
    | none ↦ none
    | some c ↦ some (finish c)
  ]
]
