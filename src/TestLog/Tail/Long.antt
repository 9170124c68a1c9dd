-- ===== src/TestLog/Tail/Long.antt =====
-- `headAndTailLines` on a log with more lines than it returns.
use mathlib.Core.List.{reverse, reverse-reverse}
use xrpl_hive.Base.{
  ℕ, ◌+◌, ◌-◌, ◌≤◌, ◌≡◌, ap, sym, ◌∙◌, true, false, [], ◌++◌, List, Bytes, Text, length, ge→ltb,
  arith, append_assoc, append-nil, length-append, All, map, length-map,
}
use xrpl_hive.TestLog.Decode.{TextDecoder, Ascii}
use xrpl_hive.TestLog.Lines.Spec.{Plain, terminate}
use xrpl_hive.TestLog.Loader.{Server, Loader, done, ◌>>=◌}
use xrpl_hive.TestLog.Loader.Fetch.{Serves, region}
use xrpl_hive.TestLog.Tail.{tail_visit, join_tail, after_head, iter_tail_lines, head_and_tail_lines}
use xrpl_hive.TestLog.Tail.Short.{head_then}
use xrpl_hive.TestLog.Tail.Loop.{visit_back, log_of}
use xrpl_hive.TestLog.Tail.Parts.{
  sizes, head_visit-front, iter_tail_lines-back, length-reverse, length-concat-reverse,
}
use xrpl_hive.TestLog.Tail.Visits.{text_of, Unlimited, text_of-append, length-text_of, visit_bottom}

module _ (server : Server) (td : TextDecoder) (l : Loader) (file : Bytes)
    (served : Serves server l.log_file_name file) (size : l.offsets.begin + l.length ≤ length file)
    (ascii : Ascii (region l file)) (top middle bottom : List Text) (n max_bytes : ℕ)
    (parts : log_of l file ≡ text_of (top ++ (middle ++ bottom)))
    (plain : All Plain (top ++ (middle ++ bottom))) (two : 2 ≤ n) (first_n : length top ≡ n)
    (last_n : length bottom ≡ n) (limit : Unlimited max_bytes l.length) where
  front_parts : log_of l file ≡ text_of ((top ++ middle) ++ bottom)
  front_parts = parts ∙ ap text_of (sym (append_assoc top middle bottom))

  front-Plain : All Plain ((top ++ middle) ++ bottom)
  front-Plain = rw append_assoc plain

  bottom_of_log :
      (fuel : ℕ)
      → n + l.length + 2 ≤ fuel
      → iter_tail_lines server td
          (tail_visit n max_bytes l.length (length (text_of top)))
          fuel
          l
          ([], false)
        ≡ done (map terminate bottom, false)
  bottom_of_log fuel enough =
      let func = tail_visit n max_bytes l.length (length (text_of top)) in
      let front = top ++ middle in
      let size_front =
        ap length (text_of-append top middle) ∙ length-append (text_of top) (text_of middle) in
      let all_sizes =
        sizes server td l file served size ascii front bottom front_parts front-Plain in
      let shown : visit_back func ([], false) (l.length - 1) (reverse bottom)
          ≡ ((map terminate bottom, false), true) =
        visit_bottom n max_bytes l.length (length (text_of top)) (l.length - 1) [] (reverse bottom)
          limit (omega (arith, length-reverse bottom)) (omega (arith, length-reverse bottom))
          (omega
            (arith, all_sizes, size_front, length-text_of bottom, length-concat-reverse bottom))
        ∙ ap (λ ls. ((ls, false), true))
            (append-nil (map terminate (reverse (reverse bottom)))
              ∙ ap (map terminate) (reverse-reverse bottom)) in
      iter_tail_lines-back server td l file served size ascii front bottom front_parts front-Plain
        func fuel ([], false) (omega (arith, size_front, length-text_of top)) (ap (λ v. v.1) shown)
        (omega arith)
      ∙ ap (λ v. done v.0) shown

  -- A log in ASCII of lines that all end in a newline, at least 2 · `n` of them for an `n` of at least
  -- 2, with no limit on bytes or one that the log does not reach: the loops end, and return its first
  -- `n` lines as the head and its last `n` as the tail.
  pub head_and_tail_lines-ends :
      (fuel : ℕ)
      → n + l.length + 2 ≤ fuel
      → head_and_tail_lines server td fuel l n max_bytes
        ≡ done (record { head = map terminate top; tail = map terminate bottom })
  unfolding after_head join_tail
  head_and_tail_lines-ends fuel enough =
      head_then server td l file served size fuel n max_bytes _ (
        head_visit-front server td l file served size ascii top (middle ++ bottom) parts plain n
          max_bytes (omega arith) first_n limit)
      ∙ (let n_lines =
            ge→ltb (length (map terminate top)) n (omega (arith, length-map terminate top)) in
          rw n_lines
            (ap (λ o. o >>= join_tail server td (map terminate top)) (bottom_of_log fuel enough)))
