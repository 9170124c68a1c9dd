-- ===== src/TestLog/Loader/Fetch.antt =====
-- Range requests to a server that answers them, and what they bring to the decoder of `iterLines`.
use mathlib.Core.Path.{subst}
use xrpl_hive.Base.{
  ℕ, ◌+◌, ◌-◌, ◌≤◌, ◌<◌, ◌≡◌, refl, ap, sym, ◌∙◌, true, [], ◌∷◌, ◌++◌, Text, Bytes, slice, length,
  take, drop, arith, pos, min, append_assoc, append-nil, length-append, length-take, length-drop,
  drop-append, take-append-drop, drop-drop,
}
use xrpl_hive.TestLog.Decode.{TextDecoder}
use xrpl_hive.TestLog.LineDecoder
use xrpl_hive.TestLog.LineDecoder.{LineDecoder, new_line_decoder}
use xrpl_hive.TestLog.LineDecoder.Taken.{Progress, OffsetFits, available}
use xrpl_hive.TestLog.Loader.{
  Server, Loader, done, fetch_range, fetch_into, fetch_more, loader_chunk_size,
}

-- The server has the file, and answers a range that begins in it by the bytes of the range, as far as
-- the file goes (RFC 9110, section 14).
abbrev pub Serves : Server → Text → Bytes → Type 0
Serves server name file =
    (a b : ℕ)
    → a ≤ b
    → a < length file
    → server name (pos a) (pos b) ≡ record { ok = true; status = 206; body = slice file a (b + 1) }

-- The file from the begin of the range on.
abbrev pub region : Loader → Bytes → Bytes
region l file = drop l.offsets.begin file

module _ (server : Server) (td : TextDecoder) (l : Loader) (file : Bytes)
    (served : Serves server l.log_file_name file)
    (size : l.offsets.begin + l.length ≤ length file) where
  pub fetch_range-served :
      (a b : ℕ)
      → a ≤ b
      → a < length (region l file)
      → fetch_range server l (pos a) (pos b) ≡ done (slice (region l file) a (b + 1))
  unfolding fetch_range
  fetch_range-served a b h lt =
      let n : l.offsets.begin + b + 1 - (l.offsets.begin + a) ≡ b + 1 - a = omega arith in
      rw
        (served (l.offsets.begin + a) (l.offsets.begin + b) (omega arith)
          (omega (arith, length-drop l.offsets.begin file)))
        (rw (n, drop-drop) refl)

  -- What a decoder that has used up its input has read.
  used_up :
      (d : LineDecoder td) (out : Text) (p : Progress td (region l file) d out)
      → d.queue ≡ []
      → (d.inp ≡ length out + length d.textbuf)
        × (region l file ≡ out ++ (d.textbuf ++ drop d.inp (region l file)))
        × (d.offset ≡ 0)
  used_up d out p q =
      let none_left : available d.offset d.queue ≡ [] = ap (available d.offset) q in
      let parts : region l file ≡ (out ++ d.textbuf) ++ p.rest =
        rw none_left at p.parts ∙ sym (append_assoc out d.textbuf p.rest) in
      let n : length (out ++ d.textbuf) ≡ d.inp =
        omega (arith, p.input, ap length parts, length-append (out ++ d.textbuf) p.rest) in
      let rest : p.rest ≡ drop d.inp (region l file) =
        rw (← n, parts) (sym (drop-append (out ++ d.textbuf) p.rest)) in
      (
        omega (arith, n, length-append out d.textbuf),
        rw (← rest) (parts ∙ append_assoc out d.textbuf p.rest),
        subst (OffsetFits d.offset) q p.offset_fits,
      )

  pushed-Progress :
      (d : LineDecoder td) (out : Text) (stop : ℕ)
      → Progress td (region l file) d out
      → d.queue ≡ []
      → Progress td
          (region l file)
          (LineDecoder.push_bytes td (slice (region l file) d.inp stop) d)
          out
  unfolding LineDecoder.push_bytes
  pushed-Progress d out stop p q =
      let (n, parts, zero_offset) = used_up d out p q in
      let left = drop d.inp (region l file) in
      let bytes = take (stop - d.inp) left in
      let queued : available d.offset (d.queue ++ bytes ∷ []) ≡ bytes =
        rw (zero_offset, q) (append-nil bytes) in
      record {
        rest = drop (stop - d.inp) left;
        parts = rw (queued, take-append-drop) parts;
        ascii = p.ascii;
        idle = p.idle;
        input = omega (
          arith,
          length-take (stop - d.inp) left,
          length-drop (stop - d.inp) left,
          length-drop d.inp (region l file),
          p.input,
        );
        counted = p.counted;
        fits = p.fits;
        offset_fits = rw (zero_offset, q) (omega arith);
      }

  -- A fetch for a decoder that has used up its input.
  pub fetch_more-Progress :
      (d : LineDecoder td) (out : Text)
      → Progress td (region l file) d out
      → d.queue ≡ []
      → 0 < d.remaining
      → d.length ≡ l.length
      → (d' : LineDecoder td) × (fetch_more server td l d ≡ done d')
        × Progress td (region l file) d' out
        × (d.inp < d'.inp)
        × (d.inp < l.length)
        × (d'.remaining ≡ d.remaining)
        × (d'.length ≡ d.length)
  unfolding fetch_more fetch_into LineDecoder.push_bytes LineDecoder.input_position
  fetch_more-Progress d out p q h n =
      let end = min (d.inp + loader_chunk_size) l.length in
      let (used, parts, zero_offset) = used_up d out p q in
      let inside : d.inp < l.length = omega (arith, p.counted) in
      let longer : l.length ≤ length (region l file) =
        omega (arith, length-drop l.offsets.begin file) in
      (
        LineDecoder.push_bytes td (slice (region l file) d.inp (end + 1)) d,
        rw (fetch_range-served d.inp end (omega arith) (omega arith)) refl,
        pushed-Progress d out (end + 1) p q,
        omega (
          arith,
          length-take (end + 1 - d.inp) (drop d.inp (region l file)),
          length-drop d.inp (region l file),
        ),
        inside,
        refl,
        refl,
      )
