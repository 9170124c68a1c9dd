-- ===== src/TestLog/Loader/Failed.antt =====
-- A log that the server does not give: the error of the first request is what the methods end with.
use xrpl_hive.Base.{ℕ, suc, ◌+◌, ◌*◌, ◌<◌, ◌≡◌, refl, ap, false, pos, min, ◌==◌, arith}
use xrpl_hive.TestLog.Decode.{TextDecoder}
use xrpl_hive.TestLog.LineDecoder
use xrpl_hive.TestLog.LineDecoder.{new_line_decoder}
use xrpl_hive.TestLog.Loader.{
  Server, Visitor, Loader, Error, done, thrown, load_failed, ◌>>=◌, loader_chunk_size, fetch_range,
  fetch_into, fetch_more, round, iter_loop, iter_lines,
}

module _ (server : Server) (l : Loader) where
  -- The place behind the first request, relative to the range.
  abbrev pub first_stop : ℕ
  first_stop = min (0 + loader_chunk_size) l.length

  -- The server's answer to the first request is not ok.
  abbrev pub Refuses : Type 0
  Refuses =
      (server l.log_file_name (pos (l.offsets.begin + 0)) (pos (l.offsets.begin + first_stop))).ok
      ≡ false

  -- The error that says so.
  abbrev pub refusal : Error
  refusal =
      load_failed l.log_file_name (pos (l.offsets.begin + 0)) (pos (l.offsets.begin + first_stop))
        (server l.log_file_name (pos (l.offsets.begin + 0))
          (pos (l.offsets.begin + first_stop))).status

  pub fetch_range-refused : Refuses → fetch_range server l (pos 0) (pos first_stop) ≡ thrown refusal
  unfolding fetch_range
  fetch_range-refused h = rw h refl

  module _ {ℓ} (td : TextDecoder) {S : Type ℓ} (func : Visitor S) where
    -- If the first request for a range that is not empty is refused, `iterLines` throws the error, and
    -- the callback has seen nothing.
    pub iter_lines-refused :
        (s : S) → 0 < l.length → Refuses → iter_lines server td func l s ≡ thrown refusal
    unfolding iter_lines iter_loop round fetch_more fetch_into LineDecoder.decode LineDecoder.at_eof
        LineDecoder.new_line_decoder LineDecoder.input_position
    iter_lines-refused s h refused =
        let fuel : 2 * l.length + 2 ≡ suc (2 * l.length + 1) = omega arith in
        let some_left : (l.length == 0) ≡ false = ground arith in
        rw (fuel, iter_loop, some_left, round)
          (ap
            (λ o.
              (o >>= (λ bytes.
                done (LineDecoder.push_bytes td bytes (new_line_decoder td l.length))))
              >>= (λ d. iter_loop server td func (2 * l.length + 1) l d s))
            (fetch_range-refused refused))
