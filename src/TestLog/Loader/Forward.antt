-- ===== src/TestLog/Loader/Forward.antt =====
-- `iterLines` on a log in ASCII, from a server that answers range requests: whatever the size of the
-- pieces, it visits the lines of the range.
use xrpl_hive.Base.{
  ℕ, zero, suc, ◌+◌, ◌-◌, ◌*◌, ◌≤◌, ◌<◌, ◌≡◌, refl, ap, ◌∙◌, [], ◌∷◌, ◌++◌, some, none, Option,
  Text, Bytes, slice, length, take, arith, length-append, length-take, length-drop, zero_or_pos,
  inl, inr,
}
use xrpl_hive.TestLog.Decode.{TextDecoder, Ascii}
use xrpl_hive.TestLog.Lines.Spec.{pieces}
use xrpl_hive.TestLog.LineDecoder
use xrpl_hive.TestLog.LineDecoder.{LineDecoder, new_line_decoder}
use xrpl_hive.TestLog.LineDecoder.Taken.{Progress, Decoded}
use xrpl_hive.TestLog.LineDecoder.Reads.{decode-Decoded}
use xrpl_hive.TestLog.Loader.{Server, Visitor, Loader, done, round, iter_loop, iter_lines}
use xrpl_hive.TestLog.Loader.Visit.{visit}
use xrpl_hive.TestLog.Loader.Fetch.{Serves, region}
use xrpl_hive.TestLog.Loader.Round.{
  Visits, round_wants, round_shows_last, round_shows_line, iter_loop-eof, iter_loop-round,
}

module _ {ℓ} (server : Server) (td : TextDecoder) {S : Type ℓ} (func : Visitor S) (l : Loader)
    (file : Bytes) (served : Serves server l.log_file_name file)
    (size : l.offsets.begin + l.length ≤ length file) where
  after_decode :
      (fuel : ℕ) (d : LineDecoder td) (out rest : Text) (s : S) (r : LineDecoder td × Option Text)
      → Visits server td func l file served size fuel
      → Decoded td (region l file) d out r.0 r.1
      → 0 < d.remaining
      → d.length ≡ l.length
      → take l.length (region l file) ≡ out ++ rest
      → d.remaining + (l.length - d.inp) < suc fuel
      → round server td func (iter_loop server td func fuel l) l r s
        ≡ done (visit func s (length out) (pieces rest)).0
  after_decode fuel d out rest s (d', none) ih e h n whole f =
      round_wants server td func l file served size fuel d d' out rest s ih e n whole f
  after_decode fuel d out rest s (d', some []) ih (e, nonempty, less, i, m) h n whole f =
      absurd (omega arith)
  after_decode fuel d out rest s (d', some (c ∷ cs)) ih (inr (eof, all), nonempty, less, i, m) h n
        whole f =
      round_shows_last server td func l file served size fuel d d' out c cs rest s (omega arith) eof
        all m n whole
  after_decode fuel d out rest s (d', some (c ∷ cs)) ih
        (inl (p, (u, ends), cleared), nonempty, less, i, m) h n whole f =
      unfold round in
      round_shows_line server td func l file served size fuel d d' out (c ∷ cs) u rest s ih p ends
        cleared nonempty less i (m ∙ n) whole f

  at_end :
      (fuel : ℕ) (d : LineDecoder td) (out rest : Text) (s : S)
      → Progress td (region l file) d out
      → d.length ≡ l.length
      → d.textbuf ≡ []
      → d.remaining ≡ 0
      → take l.length (region l file) ≡ out ++ rest
      → iter_loop server td func (suc fuel) l d s ≡ done (visit func s (length out) (pieces rest)).0
  unfolding visit
  at_end fuel d out [] s p n clear eof whole = iter_loop-eof server td func l fuel d s eof
  at_end fuel d out (c ∷ cs) s p n clear eof whole = absurd (
      omega (
        arith,
        p.counted,
        ap length clear,
        ap length whole,
        length-append out (c ∷ cs),
        length-take l.length (region l file),
      ))

  iter_loop-Visits : (fuel : ℕ) → Visits server td func l file served size fuel
  iter_loop-Visits zero d out rest s p n open_or_clear whole f = absurd (omega arith)
  iter_loop-Visits (suc fuel) d out rest s p n open_or_clear whole f =
      let ih = iter_loop-Visits fuel in
      let go = λ (more : 0 < d.remaining).
        iter_loop-round server td func l fuel d s more
        ∙ after_decode fuel d out rest s (LineDecoder.decode td d) ih
            (decode-Decoded td (region l file) d out p more) more n whole f in
      elim open_or_clear [
        | inl more ↦ go more
        | inr clear ↦ elim (zero_or_pos d.remaining) [
          | inl eof ↦ at_end fuel d out rest s p n clear eof whole
          | inr more ↦ go more
        ]
      ]

  start-Progress :
      Ascii (region l file) → Progress td (region l file) (new_line_decoder td l.length) []
  unfolding new_line_decoder
  start-Progress ascii = record {
    rest = region l file;
    parts = refl;
    ascii = ascii;
    idle = td.fresh-Idle;
    input = omega arith;
    counted = omega arith;
    fits = omega (arith, length-drop l.offsets.begin file);
    offset_fits = refl;
  }

  -- `iterLines` on a range of a file in ASCII, from a server that answers range requests, returns
  -- without an error, and its callback has seen the lines of the range in order, each with the
  -- position behind it, up to the first line at which it says stop: the pieces in which the file is
  -- fetched do not show.
  pub iter_lines-visit :
      Ascii (region l file)
      → (s : S)
      → iter_lines server td func l s
        ≡ done (visit func s 0 (pieces (slice file l.offsets.begin (l.offsets.begin + l.length)))).0
  unfolding iter_lines new_line_decoder
  iter_lines-visit ascii s =
      let n : l.offsets.begin + l.length - l.offsets.begin ≡ l.length = omega arith in
      rw n (
        iter_loop-Visits (2 * l.length + 2) (new_line_decoder td l.length) []
          (take l.length (region l file)) s (start-Progress ascii) refl (inr refl) refl
          (omega arith))
