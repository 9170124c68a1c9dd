-- ===== src/TestLog/Tail/Parts.antt =====
-- The lines of a log from its two ends: what `iterLines` gives the callback for the head, and
-- `_iterTailLines` any callback.
use mathlib.Core.List.{reverse, reverse-cons, reverse-reverse}
use xrpl_hive.Base.{
  ℕ, ◌+◌, ◌-◌, ◌≤◌, ◌<◌, ◌≡◌, refl, ap, sym, ◌∙◌, true, [], ◌∷◌, ◌++◌, List, Bytes, Text, newline,
  length, take, drop, arith, length-append, All, All-append_split, map, concat, concat-append,
  take-append-drop,
}
use xrpl_hive.TestLog.Decode.{TextDecoder, Ascii}
use xrpl_hive.TestLog.Lines.Spec.{Plain, terminate, pieces}
use xrpl_hive.TestLog.Loader.{Server, Visitor, Loader, done, iter_lines}
use xrpl_hive.TestLog.Loader.Fetch.{Serves, region}
use xrpl_hive.TestLog.Loader.Visit.{visit}
use xrpl_hive.TestLog.Loader.Forward.{iter_lines-visit}
use xrpl_hive.TestLog.Tail.{head_visit, iter_tail_lines}
use xrpl_hive.TestLog.Tail.Short.{log_lines}
use xrpl_hive.TestLog.Tail.Loop.{followed, visit_back, log_of, length-log}
use xrpl_hive.TestLog.Tail.Start.{iter_tail_lines-visit_back}
use xrpl_hive.TestLog.Tail.Visits.{
  text_of, Unlimited, pieces-text_of, text_of-append, map-append-terminate, followed-text_of,
  before_newline, All-reverse, visit_top,
}

pub length-reverse : (ws : List Text) → length (reverse ws) ≡ length ws
length-reverse [] = refl
length-reverse (w ∷ ws) =
    ap length (reverse-cons w ws)
    ∙ omega (arith, length-append (reverse ws) (w ∷ []), length-reverse ws)

pub length-concat-reverse : (ws : List Text) → length (concat (reverse ws)) ≡ length (concat ws)
length-concat-reverse [] = refl
length-concat-reverse (w ∷ ws) =
    ap (λ t. length (concat t)) (reverse-cons w ws)
    ∙ omega (
      arith,
      ap length (concat-append (reverse ws) (w ∷ [])),
      length-append (concat (reverse ws)) (w ++ []),
      length-append w [],
      length-append w (concat ws),
      length-concat-reverse ws,
    )

module _ (server : Server) (td : TextDecoder) (l : Loader) (file : Bytes)
    (served : Serves server l.log_file_name file) (size : l.offsets.begin + l.length ≤ length file)
    (ascii : Ascii (region l file)) (front back : List Text)
    (parts : log_of l file ≡ text_of (front ++ back)) (plain : All Plain (front ++ back)) where
  pub sizes : l.length ≡ length (text_of front) + length (text_of back)
  sizes =
      sym (length-log l file size)
      ∙ ap length (parts ∙ text_of-append front back)
      ∙ length-append (text_of front) (text_of back)

  -- The lines in front, as many as are asked for, and the position behind them.
  pub head_visit-front :
      (n max_bytes : ℕ)
      → 0 < n
      → length front ≡ n
      → Unlimited max_bytes l.length
      → iter_lines server td (head_visit n max_bytes) l ([], 0)
        ≡ done (map terminate front, length (text_of front))
  head_visit-front n max_bytes some_lines first_n limit =
      let same_range : l.offsets.begin + l.length - l.offsets.begin ≡ l.length = omega arith in
      let lines : log_lines l file ≡ map terminate front ++ map terminate back =
        ap (λ k. pieces (take k (region l file))) same_range
        ∙ ap pieces parts
        ∙ pieces-text_of (front ++ back) plain
        ∙ map-append-terminate front back in
      iter_lines-visit server td (head_visit n max_bytes) l file served size ascii ([], 0)
      ∙ ap (λ ls. done (visit (head_visit n max_bytes) ([], 0) 0 ls).0) lines
      ∙ ap done (
          visit_top n max_bytes l.length 0 0 [] front (map terminate back) limit (omega arith)
            (omega arith) (omega (arith, sizes))
          ∙ ap (λ k. (map terminate front, k)) (omega arith))

  log-Ascii : Ascii (log_of l file)
  log-Ascii =
      let all = sym (take-append-drop l.length (region l file)) in
      let split : Ascii (take l.length (region l file) ++ drop l.length (region l file)) =
        rw (← all) ascii in
      (All-append_split (λ c. c < 128) (log_of l file) (drop l.length (region l file)) split).0

  -- A log in ASCII of lines that all end in a newline, from a server that answers range requests: if
  -- the callback says stop before the lines in front are reached, which are two bytes or more, the loop
  -- ends within as many rounds as the log has bytes and visited lines, and two, and the callback has had
  -- the lines from the last one back.
  pub iter_tail_lines-back {ℓ} :
      {S : Type ℓ} (func : Visitor S) (fuel : ℕ) (st : S)
      → 2 ≤ length (text_of front)
      → (visit_back func st (l.length - 1) (reverse back)).1 ≡ true
      → length back + l.length + 2 ≤ fuel
      → iter_tail_lines server td func fuel l st
        ≡ done (visit_back func st (l.length - 1) (reverse back)).0
  iter_tail_lines-back func fuel st two stops enough =
      let (base, ends) = before_newline front (omega arith) in
      let as_followed : log_of l file ≡ followed base (reverse back) ++ newline ∷ [] =
        parts
        ∙ text_of-append front back
        ∙ ap (λ t. t ++ text_of back) ends
        ∙ ap (λ ls. terminate base ++ text_of ls) (sym (reverse-reverse back))
        ∙ sym (followed-text_of base (reverse back)) in
      iter_tail_lines-visit_back server td func l file served size log-Ascii base (reverse back)
        as_followed (omega (arith, ap length ends, length-append base (newline ∷ [])))
        (All-reverse back (All-append_split Plain front back plain).1) fuel st stops
        (omega (arith, length-reverse back))
