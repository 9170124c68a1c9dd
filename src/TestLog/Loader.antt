-- ===== src/TestLog/Loader.antt =====
-- Class `Loader` of cmd/hiveview/assets/lib/testlog.js: a range of a log file, fetched in pieces. The
-- server is a parameter; a response that is not ok is thrown as an error.
pub mod Visit
pub mod Fetch
pub mod Round
pub mod Forward
pub mod Failed
use xrpl_hive.Base.{
  ℕ, zero, suc, ◌+◌, ◌-◌, ◌*◌, Bool, true, false, not, ◌&&◌, List, [], ◌∷◌, ◌++◌, Option, none,
  some, Bytes, Text, newline, index_of_from, slice, length, ltb, ◌==◌, if◌then◌else◌, min, ℤ, pos,
  negsuc, sub_ℕ, shift,
}
use xrpl_hive.TestLog.Decode.{TextDecoder}
use xrpl_hive.TestLog.LineDecoder
use xrpl_hive.TestLog.LineDecoder.{LineDecoder, new_line_decoder}
use xrpl_hive.TestLog.ReverseBuffer
use xrpl_hive.TestLog.ReverseBuffer.{ReverseBuffer, new_reverse_buffer}

pub data Error : Type 0 where
  invalid_offsets : ℕ → ℕ → Error
  load_failed : Text → ℤ → ℤ → ℕ → Error

-- What an asynchronous method comes to.
pub data Outcome {ℓ} (A : Type ℓ) : Type ℓ where
  done : A → Outcome A
  thrown : Error → Outcome A
  out_of_fuel : Outcome A

infixl 5 ◌>>=◌
abbrev pub ◌>>=◌ {ℓ κ} : {A : Type ℓ} {B : Type κ} → Outcome A → (A → Outcome B) → Outcome B
done a >>= f = f a
thrown e >>= f = thrown e
out_of_fuel >>= f = out_of_fuel

pub record Offsets : Type 0 where
  pub begin : ℕ
  pub end : ℕ

pub record Loader : Type 0 where
  pub log_file_name : Text
  pub length : ℕ
  pub offsets : Offsets

pub record Response : Type 0 where
  pub ok : Bool
  pub status : ℕ
  pub body : Bytes

-- The answer to a GET of a file with the header `Range: bytes=begin-end`.
abbrev pub Server : Type 0
Server = Text → ℤ → ℤ → Response

-- LOADER_CHUNK_SIZE
abbrev pub loader_chunk_size : ℕ
loader_chunk_size = 262144

unfoldable pub new_loader : Text → Offsets → Outcome Loader
new_loader name offsets =
    if ltb offsets.end offsets.begin
    then thrown (invalid_offsets offsets.begin offsets.end)
    else done
        (record { log_file_name = name; length = offsets.end - offsets.begin; offsets = offsets })

-- A callback gets its own state, the line and the position, and says whether to go on.
abbrev pub Visitor {ℓ} : Type ℓ → Type ℓ
Visitor S = S → Text → ℕ → S × Bool

-- Where the line that begins at `at` stops: behind its newline, or at the end of the text.
pub line_stop : Text → ℕ → ℕ
line_stop text at = elim (index_of_from newline text at) [ none ↦ length text | some nl ↦ nl + 1 ]

module _ (server : Server) where
  unfoldable pub fetch_range : Loader → ℤ → ℤ → Outcome Bytes
  fetch_range l begin end =
      let range_begin = shift l.offsets.begin begin in
      let range_end = shift l.offsets.begin end in
      let response = server l.log_file_name range_begin range_end in
      if response.ok
      then done response.body
      else thrown (load_failed l.log_file_name range_begin range_end response.status)

  module _ (td : TextDecoder) where
    -- `_fetchRangeIntoBuffer` on a LineDecoder.
    fetch_into : Loader → ℕ → ℕ → LineDecoder td → Outcome (LineDecoder td)
    fetch_into l begin end d = do
      bytes ← fetch_range l (pos begin) (pos end)
      done (LineDecoder.push_bytes td bytes d)

    pub fetch_more : Loader → LineDecoder td → Outcome (LineDecoder td)
    fetch_more l d =
        let start = LineDecoder.input_position td d in
        fetch_into l start (min (start + loader_chunk_size) l.length) d

  module _ {ℓ} (td : TextDecoder) {S : Type ℓ} (func : Visitor S) where
    -- The inner loop of `iterLines` over the lines of a decoded text; `none` is out of fuel.
    pub each_line : ℕ → Text → ℕ → ℕ → S → Option (S × Bool)
    each_line zero text output_pos at s = none
    each_line (suc fuel) text output_pos at s =
        let end = line_stop text at in
        let (s', more) = func s (slice text at end) (output_pos + end) in
        let rest = each_line fuel text output_pos end s' in
        if ltb at (length text) then (if more then rest else some (s', false)) else some (s, true)

    -- What `iterLines` does with a decoded text.
    pub visit_text : LineDecoder td → Text → S → Option (S × Bool)
    visit_text d text s =
        each_line (length text + 1) text (LineDecoder.output_position td d - length text) 0 s

    -- The rest of the loop after a text was shown; `none` is out of fuel.
    pub after_text : (S → Outcome S) → Option (S × Bool) → Outcome S
    after_text again none = out_of_fuel
    after_text again (some (s, true)) = again s
    after_text again (some (s, false)) = done s

    -- One round: no text, or an empty one, means that the decoder wants more input.
    pub round :
        (LineDecoder td → S → Outcome S) → Loader → LineDecoder td × Option Text → S → Outcome S
    round again l (d, none) s = fetch_more td l d >>= λ d'. again d' s
    round again l (d, some []) s = fetch_more td l d >>= λ d'. again d' s
    round again l (d, some (c ∷ cs)) s = after_text (again d) (visit_text d (c ∷ cs) s)

    pub iter_loop : ℕ → Loader → LineDecoder td → S → Outcome S
    iter_loop zero l d s = out_of_fuel
    iter_loop (suc fuel) l d s = elim (LineDecoder.at_eof td d) [
      | true ↦ done s
      | false ↦ round (iter_loop fuel l) l (LineDecoder.decode td d) s
    ]

    unfoldable pub iter_lines : Loader → S → Outcome S
    unfolding iter_loop round after_text visit_text fetch_into fetch_more fetch_range each_line
        line_stop
    iter_lines l s = iter_loop (2 * l.length + 2) l (new_line_decoder td l.length) s
