-- ===== src/TestLog/Tail/Start.antt =====
-- `_iterTailLines` from its start: the first fetch, the newline that the log ends in, and the loop.
use xrpl_hive.Base.{
  ℕ, zero, suc, ◌+◌, ◌-◌, ◌≤◌, ◌<◌, ◌≡◌, refl, ap, sym, ◌∙◌, Bool, true, false, [], ◌∷◌, ◌++◌, List,
  some, none, Bytes, Text, newline, slice, length, drop, pos, lt→ltb, arith, length-append,
  length-drop, drop_all, All,
}
use xrpl_hive.TestLog.Decode.{TextDecoder, Ascii}
use xrpl_hive.TestLog.Lines.Spec.{Plain}
use xrpl_hive.TestLog.ReverseBuffer.{ReverseBuffer, new_reverse_buffer, push_bytes, decode}
use xrpl_hive.TestLog.Loader.{Server, Visitor, Loader, done, ◌>>=◌, loader_chunk_size}
use xrpl_hive.TestLog.Loader.Fetch.{Serves}
use xrpl_hive.TestLog.Tail.{fetch_before, tail_round, tail_loop, is_newline, iter_tail_lines}
use xrpl_hive.TestLog.Tail.Back.{Holds, push_bytes-Holds, drop-part}
use xrpl_hive.TestLog.ReverseBuffer.Drift.{decode_start, decode_last}
use xrpl_hive.TestLog.Tail.Loop.{
  followed, visit_back, log_of, length-log, fetch_before-Holds, tail_loop-visit_back,
}

module _ {ℓ} (server : Server) (td : TextDecoder) {S : Type ℓ} (func : Visitor S) (l : Loader)
    (file : Bytes) (served : Serves server l.log_file_name file)
    (size : l.offsets.begin + l.length ≤ length file) where
  abbrev log : Bytes
  log = log_of l file

  module _ (ascii : Ascii log) (base : Text) (ws : List Text)
      (parts : log ≡ followed base ws ++ newline ∷ []) (some_base : 0 < length base)
      (plain : All Plain ws) where
    size_log : l.length ≡ length (followed base ws) + 1
    size_log = omega (
      arith,
      length-log l file size,
      ap length parts,
      length-append (followed base ws) (newline ∷ []),
    )

    first_line :
        (s : ℕ) (b : ReverseBuffer)
        → s ≤ length (followed base ws)
        → Holds log (log ++ newline ∷ []) s b
        → (b' : ReverseBuffer) × (decode td b ≡ (b', some (newline ∷ [])))
          × Holds log (followed base ws) s b'
          × (b'.output_position ≡ b.output_position - 1)
    first_line s b h holds =
        let q = followed base ws in
        let bytes : b.bytes ≡ drop s q ++ newline ∷ [] =
          holds.bytes ∙ ap (drop s) parts ∙ drop-part s q (newline ∷ []) h in
        let at : b.offset ≡ pos (suc (length (drop s q))) =
          holds.offset
          ∙ ground (
            arith,
            length-append log (newline ∷ []),
            length-drop s q,
            size_log,
            length-log l file size,
          ) in
        (
          _,
          decode_last td b (drop s q) bytes at,
          record {
            bytes = holds.bytes;
            offset = ground (arith, length-drop s q);
            total = holds.total;
            inside = h;
          },
          refl,
        )

    new-Holds : Holds log (log ++ newline ∷ []) l.length (new_reverse_buffer l.length)
    unfolding new_reverse_buffer
    new-Holds = record {
      bytes = sym (drop_all l.length log (omega (arith, length-log l file size)));
      offset = ground (arith, length-append log (newline ∷ []), length-log l file size);
      total = sym (length-log l file size);
      inside = omega (arith, length-append log (newline ∷ []), length-log l file size);
    }

    start_round :
        (fuel : ℕ) (first : Bool) (b b' : ReverseBuffer) (st : S)
        → 0 < b.output_position
        → decode td b ≡ (b, none)
        → fetch_before server td l b ≡ done b'
        → tail_loop server td func (suc fuel) l b first st
          ≡ tail_loop server td func fuel l b' first st
    unfolding tail_loop tail_round
    start_round fuel first b b' st h nothing got =
        rw (tail_loop, lt→ltb 0 b.output_position h, nothing)
          (ap (λ o. o >>= λ c. tail_loop server td func fuel l c first st) got)

    newline_round :
        (fuel : ℕ) (b b' : ReverseBuffer) (st : S)
        → 0 < b.output_position
        → decode td b ≡ (b', some (newline ∷ []))
        → tail_loop server td func (suc fuel) l b true st
          ≡ tail_loop server td func fuel l b' false st
    unfolding tail_loop tail_round is_newline
    newline_round fuel b b' st h got = rw (tail_loop, lt→ltb 0 b.output_position h, got) refl

    first_rounds :
        (fuel : ℕ) (st : S)
        → (b : ReverseBuffer) × (tail_loop server td func
              (suc (suc fuel))
              l
              (new_reverse_buffer l.length)
              true
              st
            ≡ tail_loop server td func fuel l b false st)
          × Holds log (followed base ws) (l.length - 1 - loader_chunk_size) b
          × (b.output_position ≡ l.length - 1)
    unfolding new_reverse_buffer push_bytes
    first_rounds fuel st =
        let a = l.length - 1 - loader_chunk_size in
        let b0 = new_reverse_buffer l.length in
        let b1 = push_bytes (slice log a l.length) b0 in
        let (b2, got, holds, out) = first_line a b1 (omega (arith, size_log)) (
          push_bytes-Holds log (log ++ newline ∷ []) l.length a b0 new-Holds (omega arith)
            (omega (arith, length-log l file size))) in
        (
          b2,
          start_round (suc fuel) true b0 b1 st (omega (arith, size_log))
                (decode_start td b0 0 0 refl (omega arith))
                (fetch_before-Holds server td func l file served size (log ++ newline ∷ []) l.length
                  b0 new-Holds (omega (arith, size_log)) (omega arith))
              ∙ newline_round fuel b1 b2 st (omega (arith, size_log)) got,
          holds,
          out,
        )

    -- The loop over a log in ASCII that ends in a newline, if the callback says stop before the text
    -- `base` is reached, ends, and has shown the lines behind `base` from the last one back. The
    -- positions begin at that of the newline at the end.
    pub iter_tail_lines-visit_back :
        (fuel : ℕ) (st : S)
        → (visit_back func st (l.length - 1) ws).1 ≡ true
        → length ws + l.length + 2 ≤ fuel
        → iter_tail_lines server td func fuel l st ≡ done (visit_back func st (l.length - 1) ws).0
    unfolding iter_tail_lines
    iter_tail_lines-visit_back zero st stops enough = absurd (omega arith)
    iter_tail_lines-visit_back (suc zero) st stops enough = absurd (omega arith)
    iter_tail_lines-visit_back (suc (suc fuel)) st stops enough =
        let (b, rounds, holds, out) = first_rounds fuel st in
        rounds
        ∙ tail_loop-visit_back server td func l file served size ascii fuel base [] ws
            (l.length - 1 - loader_chunk_size) b st some_base parts holds plain
            (omega (arith, size_log, out)) (rw out stops) (omega (arith, size_log))
        ∙ ap (λ n. done (visit_back func st n ws).0) out
