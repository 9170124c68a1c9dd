-- ===== src/TestLog/Tail/Cut.antt =====
-- `headAndTailLines` on a log whose head is cut by the limit on bytes.
use xrpl_hive.Base.{
  ℕ, ◌+◌, ◌≤◌, ◌<◌, ◌≡◌, refl, ap, sym, ◌∙◌, true, false, [], ◌∷◌, ◌++◌, List, Bytes, Text, length,
  take, lt→ltb, arith, append_assoc, length-append, All, map, length-map, ◌-◌,
}
use xrpl_hive.TestLog.Decode.{TextDecoder, Ascii}
use xrpl_hive.TestLog.Lines.Spec.{Plain, terminate, pieces}
use xrpl_hive.TestLog.Loader.{Server, Loader, done}
use xrpl_hive.TestLog.Loader.Fetch.{Serves, region}
use xrpl_hive.TestLog.Loader.Visit.{visit}
use xrpl_hive.TestLog.Loader.Forward.{iter_lines-visit}
use xrpl_hive.TestLog.Tail.{too_much_data, head_visit, head_and_tail_lines}
use xrpl_hive.TestLog.Tail.Short.{head_then, log_lines, after_head-short}
use xrpl_hive.TestLog.Tail.Loop.{log_of}
use xrpl_hive.TestLog.Tail.Visits.{text_of, pieces-text_of, map-append-terminate}

within : (max_bytes n lines : ℕ) → n ≤ max_bytes → too_much_data max_bytes n lines ≡ false
unfolding too_much_data
within max_bytes n lines h = ground arith

beyond :
    (max_bytes n lines : ℕ)
    → 0 < max_bytes
    → max_bytes < n
    → 0 < lines
    → too_much_data max_bytes n lines ≡ true
unfolding too_much_data
beyond max_bytes n lines h k l = ground arith

visit_cut :
    (n max_bytes at end : ℕ) (head front : List Text) (t : Text) (rest : List Text)
    → 0 < max_bytes
    → at + length (text_of front) ≤ max_bytes
    → max_bytes < at + length (text_of front) + length (terminate t)
    → length head + length front + 1 < n
    → (visit
        (head_visit n max_bytes)
        (head, end)
        at
        (map terminate front ++ terminate t ∷ rest)).0.0
      ≡ head ++ (map terminate front ++ terminate t ∷ [])
unfolding visit head_visit
visit_cut n max_bytes at end head [] t rest some_limit fits cut count =
    let head' = head ++ terminate t ∷ [] in
    let over =
      beyond max_bytes (at + length (terminate t)) (length head') some_limit (omega arith)
        (omega (arith, length-append head (terminate t ∷ []))) in
    let wanted = lt→ltb (length head') n (omega (arith, length-append head (terminate t ∷ []))) in
    rw (wanted, over) refl
visit_cut n max_bytes at end head (u ∷ us) t rest some_limit fits cut count =
    let head' = head ++ terminate u ∷ [] in
    let at' = at + length (terminate u) in
    let size_u = length-append (terminate u) (text_of us) in
    let size_head = length-append head (terminate u ∷ []) in
    let wanted = lt→ltb (length head') n (omega (arith, size_head)) in
    let small = within max_bytes at' (length head') (omega (arith, size_u)) in
    rw (wanted, small)
      (visit_cut n max_bytes at' at' head' us t rest some_limit (omega (arith, size_u))
          (omega (arith, size_u)) (omega (arith, size_head))
        ∙ append_assoc head (terminate u ∷ []) (map terminate us ++ terminate t ∷ []))

module _ (server : Server) (td : TextDecoder) (l : Loader) (file : Bytes)
    (served : Serves server l.log_file_name file) (size : l.offsets.begin + l.length ≤ length file)
    (ascii : Ascii (region l file)) (front rest : List Text) (t : Text)
    (parts : log_of l file ≡ text_of (front ++ t ∷ rest))
    (plain : All Plain (front ++ t ∷ rest)) where
  -- If the limit on bytes is passed within one of the first lines of a log in ASCII of lines that all end
  -- in a newline, before as many lines as are asked for were seen, then the lines up to and with that one
  -- are all that is returned, as if the log ended there: nothing of what follows is in the tail.
  pub head_and_tail_lines-cut :
      (fuel n max_bytes : ℕ)
      → 0 < max_bytes
      → length (text_of front) ≤ max_bytes
      → max_bytes < length (text_of front) + length (terminate t)
      → length front + 1 < n
      → head_and_tail_lines server td fuel l n max_bytes
        ≡ done (record { head = map terminate (front ++ t ∷ []); tail = [] })
  head_and_tail_lines-cut fuel n max_bytes some_limit fits cut count =
      let func = head_visit n max_bytes in
      let same_range : l.offsets.begin + l.length - l.offsets.begin ≡ l.length = omega arith in
      let lines : log_lines l file ≡ map terminate front ++ terminate t ∷ map terminate rest =
        ap (λ k. pieces (take k (region l file))) same_range
        ∙ ap pieces parts
        ∙ pieces-text_of (front ++ t ∷ rest) plain
        ∙ map-append-terminate front (t ∷ rest) in
      let seen =
        (visit func ([], 0) 0 (map terminate front ++ terminate t ∷ map terminate rest)).0 in
      let shown : seen.0 ≡ map terminate (front ++ t ∷ []) =
        visit_cut n max_bytes 0 0 [] front t (map terminate rest) some_limit (omega arith)
          (omega arith) (omega arith)
        ∙ sym (map-append-terminate front (t ∷ [])) in
      let few : length seen.0 < n = omega (
        arith,
        ap length shown,
        length-map terminate (front ++ t ∷ []),
        length-append front (t ∷ []),
      ) in
      head_then server td l file served size fuel n max_bytes seen (
        iter_lines-visit server td func l file served size ascii ([], 0)
        ∙ ap (λ ls. done (visit func ([], 0) 0 ls).0) lines)
      ∙ after_head-short server td l file served size fuel n max_bytes seen.0 seen.1 few
      ∙ ap (λ ls. done (record { head = ls; tail = [] })) shown
