-- ===== src/TestLog/Lines/Window.antt =====
-- What `splitHeadTail` returns, as a window on the lines of the text.
use xrpl_hive.Base.{
  ℕ, ◌+◌, ◌-◌, ◌≤◌, ◌<◌, ◌≡◌, ◌≢◌, refl, ap, sym, ◌∙◌, some, List, [], ◌∷◌, ◌++◌, Text, false,
  some_inj, length, take, drop, concat, ◌==◌, if◌then◌else◌, arith, append-nil, map, min,
  Bool-cases, inl, inr, ◌⊎◌, take_all, drop_all, take-append-drop, length-take, length-drop,
}
use mathlib.Core.Path.{subst}
use xrpl_hive.TestLog.Lines.{
  HeadTail, Cut, finish, cut_loop, start_cut, count_lines, split_head_tail,
}
use xrpl_hive.TestLog.Lines.Spec.{lines_of, terminate, break, lines_of-unlines, concat-lines_of}
use xrpl_hive.TestLog.Lines.Count.{length-unlines, length-lines_of, count_lines-lines_of}
use xrpl_hive.TestLog.Lines.Split.{placed, skipped, cut_loop_lem}

-- The lines that are neither in the head nor in the tail.
abbrev pub hidden_count : ℕ → ℕ → ℕ
hidden_count max_lines total = min (skipped max_lines total) total - max_lines

-- All lines, or the first `max_lines` and those after the hidden ones.
abbrev pub window : List Text → ℕ → HeadTail
window lines max_lines =
    if hidden_count max_lines (length lines) == 0
    then record { head = lines; tail = []; hidden_lines = 0 }
    else record {
      head = take max_lines lines;
      tail = drop (skipped max_lines (length lines)) lines;
      hidden_lines = hidden_count max_lines (length lines);
    }

split_le : (a b : ℕ) → (a ≤ b) ⊎ (b < a)
split_le a b = omega arith

take-drop-skipped :
    (lines : List Text) (m : ℕ)
    → hidden_count m (length lines) ≡ 0
    → take m lines ++ drop (skipped m (length lines)) lines ≡ lines
take-drop-skipped lines m h = elim (split_le (length lines) m) [
  | inl few ↦
      rw (take_all m lines few, drop_all (skipped m (length lines)) lines (omega arith))
        (append-nil lines)
  | inr many ↦
      let e : skipped m (length lines) ≡ m = omega arith in
      ap (λ k. take m lines ++ drop k lines) e ∙ take-append-drop m lines
]

finish-placed :
    (lines : List Text) (m offset end : ℕ)
    → finish (placed m (skipped m (length lines)) offset end lines) ≡ window lines m
unfolding finish
finish-placed lines m offset end = ground (arith, take-drop-skipped lines m)

hidden_ne :
    (m : ℕ) (lines : List Text)
    → (hidden_count m (length lines) == 0) ≡ false
    → hidden_count m (length lines) ≢ 0
hidden_ne m lines e = ground arith

start-placed : (m skip : ℕ) → start_cut ≡ placed m skip 0 0 []
start-placed m skip =
    ground
      (arith, take_all {A = Text} m [] (omega arith), drop_all {A = Text} skip [] (omega arith))

split_head_tail-finish :
    (text : Text) (m total : ℕ) (c : Cut)
    → count_lines text ≡ some total
    → cut_loop (length text + 2) text total m start_cut ≡ some c
    → split_head_tail text m ≡ some (finish c)
unfolding split_head_tail
split_head_tail-finish text m total c counted looped =
    rw (counted, split_head_tail) (rw (looped, split_head_tail))

-- `splitHeadTail` returns on every text but the empty one the window on its lines: all of them in the
-- head if none is hidden, else the first `maxLines` and those from line
-- max(maxLines, lines + 1 - maxLines) on.
pub split_head_tail-window :
    (text : Text) (max_lines : ℕ)
    → text ≢ []
    → split_head_tail text max_lines ≡ some (window (lines_of text) max_lines)
split_head_tail-window [] m h = absurd (h refl)
split_head_tail-window (c ∷ cs) m h =
    let text : Text = c ∷ cs in
    let b = break text in
    let total = length (lines_of text) in
    let lines : List Text = map terminate b.full ++ b.last ∷ [] in
    let same : lines ≡ lines_of text =
      sym (ap lines_of b.joined ∙ lines_of-unlines b.full b.last b.full_plain b.last_plain) in
    split_head_tail-finish text m total
      (placed m (skipped m total) (length text + 1) (length text) lines) (count_lines-lines_of text)
      (rw (start-placed m (skipped m total)) (
        cut_loop_lem text [] b.full b.last [] (length text + 2) m total 0 b.full_plain b.last_plain
          b.joined (omega (arith, length-unlines b.full b.last, ap length b.joined))
          (omega (arith, length-lines_of text b)) (omega arith)))
    ∙ ap (λ ls. some (finish (placed m (skipped m total) (length text + 1) (length text) ls))) same
    ∙ ap some (finish-placed (lines_of text) m (length text + 1) (length text))

drop_tail {ℓ} :
    {A : Type ℓ} (k : ℕ) (xs : List A) → drop (length xs - length (drop k xs)) xs ≡ drop k xs
drop_tail k xs = elim (split_le (length xs) k) [
  | inl past ↦ drop_all _ xs (omega (arith, length-drop k xs)) ∙ sym (drop_all k xs past)
  | inr h ↦ ap (λ n. drop n xs) (omega (arith, length-drop k xs))
]

take_head {ℓ} :
    {A : Type ℓ} (k : ℕ) (xs : List A) → k ≤ length xs → take (length (take k xs)) xs ≡ take k xs
take_head k xs h = ap (λ n. take n xs) (omega (arith, length-take k xs))

abbrev Accounts : List Text → ℕ → HeadTail → Type 0
Accounts lines m r =
    (length r.head + r.hidden_lines + length r.tail ≡ length lines)
    × (r.head ≡ take (length r.head) lines)
    × (r.tail ≡ drop (length lines - length r.tail) lines)
    × (r.hidden_lines ≡ 0 → r.head ≡ lines)
    × (r.hidden_lines ≢ 0 → (length r.head ≡ m) × (length r.tail ≡ m - 1))

window-Accounts : (lines : List Text) (m : ℕ) → Accounts lines m (window lines m)
window-Accounts lines m = elim (Bool-cases (hidden_count m (length lines) == 0)) [
  | inl e ↦ rw e (
    omega arith,
    sym (take_all (length lines) lines (omega arith)),
    sym (drop_all (length lines - 0) lines (omega arith)),
    λ _. refl,
    λ ne. absurd (ne refl),
  )
  | inr e ↦ rw e (
    omega (
      arith,
      length-take m lines,
      length-drop (skipped m (length lines)) lines,
      hidden_ne m lines e,
    ),
    sym (take_head m lines (omega (arith, hidden_ne m lines e))),
    sym (drop_tail (skipped m (length lines)) lines),
    λ z. absurd (hidden_ne m lines e z),
    λ _. (
      omega (arith, length-take m lines, hidden_ne m lines e),
      omega (arith, length-drop (skipped m (length lines)) lines, hidden_ne m lines e),
    ),
  )
]

-- On every text but the empty one, what `splitHeadTail` returns accounts for each line of the text:
-- head, tail and hidden lines make up the lines, the head begins and the tail ends them, and if none
-- is hidden the head spells the whole text. If some are hidden, the head has `maxLines` lines and the
-- tail one less (none for `maxLines` 0).
pub split_head_tail_accounts :
    (text : Text) (max_lines : ℕ) (r : HeadTail)
    → text ≢ []
    → split_head_tail text max_lines ≡ some r
    → (length r.head + r.hidden_lines + length r.tail ≡ length (lines_of text))
      × (r.head ≡ take (length r.head) (lines_of text))
      × (r.tail ≡ drop (length (lines_of text) - length r.tail) (lines_of text))
      × (r.hidden_lines ≡ 0 → concat r.head ≡ text)
      × (r.hidden_lines ≢ 0 → (length r.head ≡ max_lines) × (length r.tail ≡ max_lines - 1))
split_head_tail_accounts text m r ne e =
    let same : window (lines_of text) m ≡ r =
      some_inj (sym (split_head_tail-window text m ne) ∙ e) in
    let (sum, first, last, whole, short) =
      subst (Accounts (lines_of text) m) same (window-Accounts (lines_of text) m) in
    (sum, first, last, λ z. ap concat (whole z) ∙ concat-lines_of text, short)
