-- ===== src/TestLog/LineDecoder/Taken.antt =====
-- What one round of `decode` takes from the first buffer, for a log in ASCII.
use xrpl_hive.Base.{
  ℕ, suc, ◌+◌, ◌-◌, ◌≤◌, ◌<◌, ◌≡◌, ◌⊎◌, inl, inr, refl, ap, sym, ◌∙◌, Bool, true, false, List, [],
  ◌∷◌, ◌++◌, Option, none, some, Bytes, Text, newline, index_of, slice, length, take, drop, concat,
  min, arith, append_assoc, length-append, length-drop, drop-drop, take_all, take_prefix,
  length-take, take-append-drop, index_of-eq-some, All-append_split, Option-cases,
}
use xrpl_hive.TestLog.Decode.{TextDecoder, Ascii}
use xrpl_hive.TestLog.LineDecoder.{LineDecoder, next_newline, take_line, take_buffer}

-- The bytes that the queue still holds; the offset is into its first buffer.
abbrev pub available : ℕ → List Bytes → Bytes
available offset [] = []
available offset (buf ∷ queue) = drop offset buf ++ concat queue

abbrev pub OffsetFits : ℕ → List Bytes → Type 0
OffsetFits offset [] = offset ≡ 0
OffsetFits offset (buf ∷ queue) = offset ≤ length buf

abbrev pub EndsLine : Text → Type 0
EndsLine t = (u : Text) × (t ≡ u ++ newline ∷ [])

regroup_line :
    (out buffered line after queued rest : Bytes)
    → out ++ (buffered ++ ((line ++ newline ∷ after) ++ queued ++ rest))
      ≡ (out ++ (buffered ++ line ++ newline ∷ [])) ++ ([] ++ (after ++ queued ++ rest))
regroup_line out buffered line after queued rest = simp append_assoc

regroup_buffer :
    (out buffered taken left queued rest : Bytes)
    → out ++ (buffered ++ ((taken ++ left) ++ queued ++ rest))
      ≡ (out ++ (buffered ++ taken)) ++ (left ++ (queued ++ rest))
regroup_buffer out buffered taken left queued rest = simp append_assoc

available-zero : (queue : List Bytes) → available 0 queue ≡ concat queue
available-zero [] = refl
available-zero (buf ∷ queue) = refl

OffsetFits-zero : (queue : List Bytes) → OffsetFits 0 queue
OffsetFits-zero [] = refl
OffsetFits-zero (buf ∷ queue) = omega arith

module _ (td : TextDecoder) where
  -- Of the bytes of `file`, `out` has been returned as text, the text buffer holds what follows, then
  -- come the bytes of the queue, and `rest` has not been fetched.
  pub record Progress (file : Bytes) (d : LineDecoder td) (out : Text) : Type 0 where
    pub rest : Bytes
    pub parts : file ≡ out ++ (d.textbuf ++ (available d.offset d.queue ++ rest))
    pub ascii : Ascii file
    pub idle : td.Idle d.decoder
    pub input : d.inp + length rest ≡ length file
    pub counted : d.remaining + length out + length d.textbuf ≡ d.length
    pub fits : d.length ≤ length file
    pub offset_fits : OffsetFits d.offset d.queue

  abbrev pub with_queue : LineDecoder td → List Bytes → LineDecoder td
  with_queue d queue = record d { queue = queue }

  -- What a call of `decode` leaves: with no text, it wants more input and the queue is used up.
  abbrev pub Decoded : Bytes → LineDecoder td → Text → LineDecoder td → Option Text → Type 0
  Decoded file d out d' none =
      Progress file d' out
      × (d'.queue ≡ [])
      × (0 < d'.remaining)
      × (d'.inp ≡ d.inp)
      × (d'.remaining ≤ d.remaining)
      × (d'.length ≡ d.length)
  Decoded file d out d' (some text) =
      ((Progress file d' (out ++ text) × EndsLine text × (d'.textbuf ≡ []))
        ⊎ ((d'.remaining ≡ 0) × (out ++ text ≡ take d.length file)))
      × (0 < length text)
      × (d'.remaining < d.remaining)
      × (d'.inp ≡ d.inp)
      × (d'.length ≡ d.length)

  module _ (file : Bytes) (d : LineDecoder td) (out : Text) (buf : Bytes) (queue : List Bytes)
      (p : Progress file (with_queue d (buf ∷ queue)) out) where
    buffer-Ascii : Ascii (drop d.offset buf)
    buffer-Ascii =
        let whole : Ascii (out ++ (d.textbuf ++ (drop d.offset buf ++ concat queue ++ p.rest))) =
          rw p.parts at p.ascii in
        let after_out = (All-append_split _ out _ whole).1 in
        let after_text = (All-append_split _ d.textbuf _ after_out).1 in
        (All-append_split _ (drop d.offset buf) _
          (All-append_split _ (drop d.offset buf ++ concat queue) _ after_text).0).0

    slice-Ascii : (n : ℕ) → Ascii (slice buf d.offset (d.offset + n))
    slice-Ascii n =
        (All-append_split _ (slice buf d.offset (d.offset + n))
          (drop (d.offset + n - d.offset) (drop d.offset buf)) (rw take-append-drop buffer-Ascii)).0

    text_of_slice :
        (n : ℕ) (stream : Bool)
        → (td.decode d.decoder (slice buf d.offset (d.offset + n)) stream).1
          ≡ take n (drop d.offset buf)
    text_of_slice n stream =
        let e : d.offset + n - d.offset ≡ n = omega arith in
        td.decode_ascii d.decoder _ stream p.idle (slice-Ascii n)
        ∙ ap (λ k. take k (drop d.offset buf)) e

    -- Where `decode` finds its newline.
    found_newline :
        (next : ℕ)
        → next_newline td (with_queue d (buf ∷ queue)) buf ≡ some next
        → (i : ℕ) × (next ≡ d.offset + i)
          × (next < d.remaining)
          × (index_of newline (drop d.offset buf) ≡ some i)
    unfolding next_newline
    found_newline next e = by_search (Option-cases (index_of newline (drop d.offset buf)))
      where
        by_search :
            ((index_of newline (drop d.offset buf) ≡ none)
              ⊎ ((i : ℕ) × (index_of newline (drop d.offset buf) ≡ some i)))
            → (i : ℕ) × (next ≡ d.offset + i)
              × (next < d.remaining)
              × (index_of newline (drop d.offset buf) ≡ some i)
        by_search (inl absent) = ground arith
        by_search (inr (i, found)) = (i, ground arith, ground arith, found)

    pub take_line_lem :
        (next : ℕ)
        → next_newline td (with_queue d (buf ∷ queue)) buf ≡ some next
        → Decoded file d out
            (take_line td (with_queue d (buf ∷ queue)) buf next).0
            (take_line td (with_queue d (buf ∷ queue)) buf next).1
    unfolding take_line
    take_line_lem next e =
        let (i, at, below, found) = found_newline next e in
        let (parts, len, plain) = index_of-eq-some newline (drop d.offset buf) i found in
        let n : next - d.offset ≡ i = omega arith in
        let line = take i (drop d.offset buf) in
        let after = drop (suc i) (drop d.offset buf) in
        let skip : drop (d.offset + (i + 1)) buf ≡ after =
          (let k : d.offset + (i + 1) ≡ d.offset + suc i = omega arith in ap (λ m. drop m buf) k)
          ∙ sym (drop-drop (suc i) d.offset buf) in
        rw (n, text_of_slice i false)
          (
            inl (
              record {
                rest = p.rest;
                parts = rw skip (
                    p.parts
                    ∙ ap (λ b. out ++ (d.textbuf ++ (b ++ concat queue ++ p.rest))) parts
                    ∙ regroup_line out d.textbuf line after (concat queue) p.rest);
                ascii = p.ascii;
                idle = td.decode-Idle _ _ false p.idle (slice-Ascii i);
                input = p.input;
                counted = omega (
                  arith,
                  p.counted,
                  length-append out (d.textbuf ++ line ++ newline ∷ []),
                  length-append (d.textbuf ++ line) (newline ∷ []),
                  length-append d.textbuf line,
                  len,
                );
                fits = p.fits;
                offset_fits = omega (
                  arith,
                  ap length parts,
                  length-append line (newline ∷ after),
                  length-drop d.offset buf,
                  len,
                );
              },
              (d.textbuf ++ line, refl),
              refl,
            ),
            omega (arith, length-append (d.textbuf ++ line) (newline ∷ [])),
            omega arith,
            refl,
            refl,
          )

    pub take_buffer-Progress :
        0 < (take_buffer td (with_queue d (buf ∷ queue)) buf queue).remaining
        → Progress file (take_buffer td (with_queue d (buf ∷ queue)) buf queue) out
    unfolding take_buffer
    take_buffer-Progress more =
        let n : min (length buf - d.offset) d.remaining ≡ length (drop d.offset buf) =
          omega (arith, length-drop d.offset buf) in
        let all : take (min (length buf - d.offset) d.remaining) (drop d.offset buf)
            ≡ drop d.offset buf =
          take_all _ (drop d.offset buf) (omega arith) in
        record {
          rest = p.rest;
          parts =
              rw (text_of_slice (min (length buf - d.offset) d.remaining) true, all)
                (rw available-zero (p.parts ∙ (simp append_assoc)));
          ascii = p.ascii;
          idle = td.decode-Idle _ _ true p.idle (slice-Ascii _);
          input = p.input;
          counted =
              rw (text_of_slice (min (length buf - d.offset) d.remaining) true, all)
                (omega (arith, p.counted, length-append d.textbuf (drop d.offset buf)));
          fits = p.fits;
          offset_fits = OffsetFits-zero queue;
        }

    pub take_buffer_rest :
        (take_buffer td (with_queue d (buf ∷ queue)) buf queue).remaining ≡ 0
        → out ++ (take_buffer td (with_queue d (buf ∷ queue)) buf queue).textbuf
          ≡ take d.length file
    unfolding take_buffer
    take_buffer_rest done =
        let n : min (length buf - d.offset) d.remaining ≡ d.remaining = omega arith in
        let head = take d.remaining (drop d.offset buf) in
        rw (n, text_of_slice d.remaining true)
          (sym (
            take_prefix d.length (out ++ (d.textbuf ++ head))
              (drop d.remaining (drop d.offset buf) ++ (concat queue ++ p.rest)) file
              (p.parts
                ∙ ap (λ b. out ++ (d.textbuf ++ (b ++ concat queue ++ p.rest)))
                    (sym (take-append-drop d.remaining (drop d.offset buf)))
                ∙ regroup_buffer out d.textbuf head (drop d.remaining (drop d.offset buf))
                    (concat queue) p.rest)
              (omega (
                arith,
                length-append out (d.textbuf ++ head),
                length-append d.textbuf head,
                length-take d.remaining (drop d.offset buf),
                length-drop d.offset buf,
                p.counted,
              ))))

    pub take_buffer_fields :
        0 < d.remaining
        → (let d' = take_buffer td (with_queue d (buf ∷ queue)) buf queue in
            (d'.remaining ≡ 0 → 0 < length d'.textbuf)
            × (d'.inp ≡ d.inp)
            × (d'.remaining ≤ d.remaining)
            × (d'.queue ≡ queue)
            × (d'.length ≡ d.length))
    unfolding take_buffer
    take_buffer_fields h = (
      λ done.
          (let n : min (length buf - d.offset) d.remaining ≡ d.remaining = omega arith in
            rw (n, text_of_slice d.remaining true)
              (omega (
                arith,
                length-append d.textbuf (take d.remaining (drop d.offset buf)),
                length-take d.remaining (drop d.offset buf),
                length-drop d.offset buf,
              ))),
      refl,
      omega arith,
      refl,
      refl,
    )
