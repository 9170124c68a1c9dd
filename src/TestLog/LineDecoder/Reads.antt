-- ===== src/TestLog/LineDecoder/Reads.antt =====
-- What a call of `decode` takes from the buffers, for a log in ASCII.
use xrpl_hive.Base.{
  ℕ, ◌≤◌, ◌<◌, ◌≡◌, ◌⊎◌, inl, inr, zero_or_pos, refl, ap, sym, ◌∙◌, List, [], ◌∷◌, Option, none,
  some, Bytes, Text, arith, Option-cases,
}
use mathlib.Core.Path.{subst}
use xrpl_hive.TestLog.Decode.{TextDecoder}
use xrpl_hive.TestLog.LineDecoder.{
  LineDecoder, next_newline, take_line, take_buffer, decode_queue, decode, at_eof,
}
use xrpl_hive.TestLog.LineDecoder.Taken.{
  Progress, with_queue, Decoded, take_line_lem, take_buffer-Progress, take_buffer_rest,
  take_buffer_fields,
}

module _ (td : TextDecoder) where
  module _ (d : LineDecoder td) (buf : Bytes) (queue : List Bytes) (h : 0 < d.remaining) where
    decode_line :
        (next : ℕ)
        → next_newline td d buf ≡ some next
        → decode_queue td (buf ∷ queue) d ≡ take_line td d buf next
    unfolding decode_queue at_eof
    decode_line next e = ground (arith, e)

    decode_end :
        next_newline td d buf ≡ none
        → (take_buffer td d buf queue).remaining ≡ 0
        → decode_queue td (buf ∷ queue) d
          ≡ (take_buffer td d buf queue, some (take_buffer td d buf queue).textbuf)
    unfolding decode_queue at_eof
    decode_end e z = ground arith

    decode_more :
        next_newline td d buf ≡ none
        → 0 < (take_buffer td d buf queue).remaining
        → decode_queue td (buf ∷ queue) d ≡ decode_queue td queue (take_buffer td d buf queue)
    unfolding decode_queue at_eof
    decode_more e z = ground arith

  Decoded-later :
      (file : Bytes) (d d' : LineDecoder td) (out : Text) (r : LineDecoder td × Option Text)
      → d'.inp ≡ d.inp
      → d'.remaining ≤ d.remaining
      → d'.length ≡ d.length
      → Decoded td file d' out r.0 r.1
      → Decoded td file d out r.0 r.1
  Decoded-later file d d' out (e, none) i m n (p, q, r, s, t, u) =
      (p, q, r, s ∙ i, omega arith, u ∙ n)
  Decoded-later file d d' out (e, some text) i m n (p, q, r, s, t) =
      (rw (← n) p, q, omega arith, s ∙ i, t ∙ n)

  decode_queue-Decoded :
      (queue : List Bytes) (file : Bytes) (d : LineDecoder td) (out : Text)
      → Progress td file (with_queue td d queue) out
      → 0 < d.remaining
      → Decoded td file d out
          (decode_queue td queue (with_queue td d queue)).0
          (decode_queue td queue (with_queue td d queue)).1
  decode_queue-Decoded [] file d out p h =
      unfold decode_queue in (p, refl, h, refl, omega arith, refl)
  decode_queue-Decoded (buf ∷ queue) file d out p h =
      split (Option-cases (next_newline td dq buf)) (zero_or_pos d'.remaining)
        (λ e q. decode_queue-Decoded queue file d' out q e)
    where
      dq : LineDecoder td
      dq = with_queue td d (buf ∷ queue)

      d' : LineDecoder td
      d' = take_buffer td dq buf queue

      split :
          ((next_newline td dq buf ≡ none) ⊎ ((next : ℕ) × (next_newline td dq buf ≡ some next)))
          → ((d'.remaining ≡ 0) ⊎ (0 < d'.remaining))
          → (0 < d'.remaining
              → Progress td file (with_queue td d' queue) out
              → Decoded td file d' out
                  (decode_queue td queue (with_queue td d' queue)).0
                  (decode_queue td queue (with_queue td d' queue)).1)
          → Decoded td file d out
              (decode_queue td (buf ∷ queue) dq).0
              (decode_queue td (buf ∷ queue) dq).1
      split (inr (next, e)) _ _ =
          subst (λ r. Decoded td file d out r.0 r.1) (sym (decode_line dq buf queue h next e))
            (take_line_lem td file d out buf queue p next e)
      split (inl e) (inl z) _ =
          let (nonempty, i, m, q, n) = take_buffer_fields td file d out buf queue p h in
          subst (λ r. Decoded td file d out r.0 r.1) (sym (decode_end dq buf queue h e z))
            (inr (z, take_buffer_rest td file d out buf queue p z), nonempty z, omega arith, i, n)
      split (inl e) (inr more) ih =
          let (_, i, m, q, n) = take_buffer_fields td file d out buf queue p h in
          let same : with_queue td d' queue ≡ d' = ap (λ qs. with_queue td d' qs) (sym q) in
          let later : Decoded td file d' out (decode_queue td queue d').0
              (decode_queue td queue d').1 =
            subst
              (λ e. Decoded td file d' out (decode_queue td queue e).0 (decode_queue td queue e).1)
              same
              (ih more (
                subst (λ e. Progress td file e out) (sym same)
                  (take_buffer-Progress td file d out buf queue p more))) in
          subst (λ r. Decoded td file d out r.0 r.1) (sym (decode_more dq buf queue h e more))
            (Decoded-later file d d' out (decode_queue td queue d') i m n later)

  pub decode-Decoded :
      (file : Bytes) (d : LineDecoder td) (out : Text)
      → Progress td file d out
      → 0 < d.remaining
      → Decoded td file d out (decode td d).0 (decode td d).1
  unfolding decode
  decode-Decoded file d out p h = decode_queue-Decoded d.queue file d out p h
