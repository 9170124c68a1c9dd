-- ===== src/TestLog/Tail/Short.antt =====
-- `headAndTailLines` where the head takes all it may: a short log, and a log that begins with a line
-- beyond the limit on bytes.
use xrpl_hive.Base.{
  ℕ, ◌+◌, ◌≤◌, ◌<◌, ◌≡◌, ap, sym, ◌∙◌, List, [], ◌∷◌, ◌++◌, Bytes, Text, slice, length, arith,
  append_assoc, append-nil, length-append, lt→ltb,
}
use xrpl_hive.TestLog.Decode.{TextDecoder, Ascii}
use xrpl_hive.TestLog.Lines.Spec.{pieces}
use xrpl_hive.TestLog.Loader.{Server, Loader, done, ◌>>=◌, iter_lines}
use xrpl_hive.TestLog.Loader.Fetch.{Serves, region}
use xrpl_hive.TestLog.Loader.Visit.{visit}
use xrpl_hive.TestLog.Loader.Forward.{iter_lines-visit}
use xrpl_hive.TestLog.Tail.{head_visit, after_head, head_and_tail_lines}

-- The lines of the range of a loader.
abbrev pub log_lines : Loader → Bytes → List Text
log_lines l file = pieces (slice file l.offsets.begin (l.offsets.begin + l.length))

visit-all :
    (n at : ℕ) (head ls : List Text) (end : ℕ)
    → length head + length ls < n
    → (visit (head_visit n 0) (head, end) at ls).0.0 ≡ head ++ ls
unfolding visit head_visit
visit-all n at head [] end h = sym (append-nil head)
visit-all n at head (l ∷ ls) end h =
    rw (lt→ltb (length (head ++ l ∷ [])) n (omega (arith, length-append head (l ∷ [])))) (
      visit-all n (at + length l) (head ++ l ∷ []) ls (at + length l)
        (omega (arith, length-append head (l ∷ [])))
      ∙ append_assoc head (l ∷ []) ls)

visit-long :
    (n max_bytes : ℕ) (line : Text) (ls : List Text)
    → 0 < max_bytes
    → max_bytes < length line
    → (visit (head_visit n max_bytes) ([], 0) 0 (line ∷ ls)).0 ≡ (line ∷ [], length line)
unfolding visit head_visit
visit-long n max_bytes line ls h k = ground arith

module _ (server : Server) (td : TextDecoder) (l : Loader) (file : Bytes)
    (served : Serves server l.log_file_name file)
    (size : l.offsets.begin + l.length ≤ length file) where
  pub after_head-short :
      (fuel n max_bytes : ℕ) (head : List Text) (end : ℕ)
      → length head < n
      → after_head server td fuel l n max_bytes (head, end)
        ≡ done (record { head = head; tail = [] })
  unfolding after_head
  after_head-short fuel n max_bytes head end h = rw (lt→ltb (length head) n h)

  pub head_then :
      (fuel n max_bytes : ℕ) (s : List Text × ℕ)
      → iter_lines server td (head_visit n max_bytes) l ([], 0) ≡ done s
      → head_and_tail_lines server td fuel l n max_bytes ≡ after_head server td fuel l n max_bytes s
  unfolding head_and_tail_lines
  head_then fuel n max_bytes s e = ap (λ o. o >>= after_head server td fuel l n max_bytes) e

  -- A log in ASCII of fewer than `n` lines, with no limit on bytes, is returned whole as the head.
  pub head_and_tail_lines-short :
      Ascii (region l file)
      → (fuel n : ℕ) → length (log_lines l file) < n
      → head_and_tail_lines server td fuel l n 0
        ≡ done (record { head = log_lines l file; tail = [] })
  head_and_tail_lines-short ascii fuel n h =
      let seen = (visit (head_visit n 0) ([], 0) 0 (log_lines l file)).0 in
      head_then fuel n 0 seen
        (iter_lines-visit server td (head_visit n 0) l file served size ascii ([], 0))
      ∙ ap (λ head. after_head server td fuel l n 0 (head, seen.1))
          (visit-all n 0 [] (log_lines l file) 0 (omega arith))
      ∙ after_head-short fuel n 0 (log_lines l file) seen.1 h

  -- If the first line of a log in ASCII is longer than the limit on bytes, and more than one line is
  -- asked for, that line is all that is returned, as if the log ended there: nothing of what follows
  -- is in the tail.
  pub head_and_tail_lines-long :
      Ascii (region l file)
      → (fuel n max_bytes : ℕ) (line : Text) (rest : List Text) → log_lines l file ≡ line ∷ rest
      → 0 < max_bytes
      → max_bytes < length line
      → 1 < n
      → head_and_tail_lines server td fuel l n max_bytes
        ≡ done (record { head = line ∷ []; tail = [] })
  head_and_tail_lines-long ascii fuel n max_bytes line rest e h k more =
      head_then fuel n max_bytes _
        (iter_lines-visit server td (head_visit n max_bytes) l file served size ascii ([], 0))
      ∙ ap
          (λ ls.
            after_head server td fuel l n max_bytes (visit (head_visit n max_bytes) ([], 0) 0 ls).0)
          e
      ∙ ap (after_head server td fuel l n max_bytes) (visit-long n max_bytes line rest h k)
      ∙ after_head-short fuel n max_bytes (line ∷ []) (length line) more
