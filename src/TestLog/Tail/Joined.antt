-- ===== src/TestLog/Tail/Joined.antt =====
-- `headAndTailLines` on a log where the tail runs into the head.
use mathlib.Core.List.{reverse, reverse-cons, reverse-reverse}
use xrpl_hive.Base.{
  ℕ, ◌+◌, ◌-◌, ◌≤◌, ◌<◌, ◌≡◌, ap, sym, ◌∙◌, true, false, [], ◌∷◌, ◌++◌, List, Bytes, Text, length,
  ge→ltb, arith, append_assoc, append-nil, length-append, All, map, length-map,
}
use xrpl_hive.TestLog.Decode.{TextDecoder, Ascii}
use xrpl_hive.TestLog.Lines.Spec.{Plain, terminate}
use xrpl_hive.TestLog.Loader.{Server, Loader, done, ◌>>=◌}
use xrpl_hive.TestLog.Loader.Fetch.{Serves, region}
use xrpl_hive.TestLog.Tail.{tail_visit, join_tail, after_head, iter_tail_lines, head_and_tail_lines}
use xrpl_hive.TestLog.Tail.Short.{head_then}
use xrpl_hive.TestLog.Tail.Loop.{visit_back, log_of}
use xrpl_hive.TestLog.Tail.Parts.{
  sizes, head_visit-front, iter_tail_lines-back, length-reverse, length-concat-reverse,
}
use xrpl_hive.TestLog.Tail.Visits.{
  text_of, Unlimited, length-text_of, map-append-terminate, visit_into_head,
}

module _ (server : Server) (td : TextDecoder) (l : Loader) (file : Bytes)
    (served : Serves server l.log_file_name file) (size : l.offsets.begin + l.length ≤ length file)
    (ascii : Ascii (region l file)) (front bottom : List Text) (t : Text) (n max_bytes : ℕ)
    (parts : log_of l file ≡ text_of ((front ++ t ∷ []) ++ bottom))
    (plain : All Plain ((front ++ t ∷ []) ++ bottom)) (three : 3 ≤ n)
    (first_n : length (front ++ t ∷ []) ≡ n) (few : length bottom < n)
    (long : length bottom ≤ length t) (limit : Unlimited max_bytes l.length) where
  back_parts : log_of l file ≡ text_of (front ++ t ∷ bottom)
  back_parts = parts ∙ ap text_of (append_assoc front (t ∷ []) bottom)

  back-Plain : All Plain (front ++ t ∷ bottom)
  back-Plain = rw append_assoc at plain

  bottom_of_log :
      (fuel : ℕ)
      → n + l.length + 2 ≤ fuel
      → iter_tail_lines server td
          (tail_visit n max_bytes l.length (length (text_of (front ++ t ∷ []))))
          fuel
          l
          ([], false)
        ≡ done (map terminate bottom, true)
  bottom_of_log fuel enough =
      let top = front ++ t ∷ [] in
      let func = tail_visit n max_bytes l.length (length (text_of top)) in
      let size_top = length-append front (t ∷ []) in
      let all_sizes = sizes server td l file served size ascii top bottom parts plain in
      let shown : visit_back func ([], false) (l.length - 1) (reverse (t ∷ bottom))
          ≡ ((map terminate bottom, true), true) =
        ap (visit_back func ([], false) (l.length - 1)) (reverse-cons t bottom)
        ∙ visit_into_head n max_bytes l.length (length (text_of top)) (l.length - 1) []
            (reverse bottom) t limit (omega (arith, length-text_of top))
            (omega (arith, length-reverse bottom))
            (omega (
              arith,
              all_sizes,
              length-reverse bottom,
              length-text_of bottom,
              length-text_of top,
              length-concat-reverse bottom,
            ))
            (omega (
              arith,
              all_sizes,
              length-text_of bottom,
              length-text_of top,
              length-concat-reverse bottom,
            ))
        ∙ ap (λ ls. ((ls, true), true))
            (append-nil (map terminate (reverse (reverse bottom)))
              ∙ ap (map terminate) (reverse-reverse bottom)) in
      iter_tail_lines-back server td l file served size ascii front (t ∷ bottom) back_parts
        back-Plain func fuel ([], false) (omega (arith, size_top, length-text_of front))
        (ap (λ v. v.1) shown) (omega arith)
      ∙ ap (λ v. done v.0) shown

  -- A log in ASCII of lines that all end in a newline, at least `n` of them and fewer than 2 · `n`, for
  -- an `n` of at least 3, with no limit on bytes or one that the log does not reach: if the `n`-th line
  -- has at least as many characters as there are lines behind it, the loops end, and return every line
  -- once, all as the head.
  pub head_and_tail_lines-joined :
      (fuel : ℕ)
      → n + l.length + 2 ≤ fuel
      → head_and_tail_lines server td fuel l n max_bytes
        ≡ done (record { head = map terminate ((front ++ t ∷ []) ++ bottom); tail = [] })
  unfolding after_head join_tail
  head_and_tail_lines-joined fuel enough =
      let top = front ++ t ∷ [] in
      head_then server td l file served size fuel n max_bytes _ (
        head_visit-front server td l file served size ascii top bottom parts plain n max_bytes
          (omega arith) first_n limit)
      ∙ (let n_lines =
            ge→ltb (length (map terminate top)) n (omega (arith, length-map terminate top)) in
          rw n_lines
            (ap (λ o. o >>= join_tail server td (map terminate top)) (bottom_of_log fuel enough)))
      ∙ ap (λ ls. done (record { head = ls; tail = [] })) (sym (map-append-terminate top bottom))
