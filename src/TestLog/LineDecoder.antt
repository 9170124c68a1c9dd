-- ===== src/TestLog/LineDecoder.antt =====
-- Class `LineDecoder` of cmd/hiveview/assets/lib/testlog.js: lines of text from byte arrays that come
-- one by one. `_remaining` and `_offset` never fall below zero, so they are numbers.
pub mod Taken
pub mod Reads
use xrpl_hive.Base.{
  ℕ, ◌+◌, ◌-◌, Bool, true, false, ◌&&◌, List, [], ◌∷◌, ◌++◌, Option, none, some, Bytes, Text,
  newline, index_of_from, slice, length, ltb, ◌==◌, if◌then◌else◌, min,
}
use xrpl_hive.TestLog.Decode.{TextDecoder}

pub record LineDecoder (td : TextDecoder) : Type 0 where
  pub length : ℕ
  pub remaining : ℕ
  pub decoder : td.State
  pub queue : List Bytes
  pub textbuf : Text
  pub offset : ℕ
  pub inp : ℕ

module _ (td : TextDecoder) where
  unfoldable pub new_line_decoder : ℕ → LineDecoder td
  new_line_decoder n = record {
    length = n;
    remaining = n;
    decoder = td.fresh;
    queue = [];
    textbuf = [];
    offset = 0;
    inp = 0;
  }

  unfoldable pub input_position : LineDecoder td → ℕ
  input_position d = d.inp

  unfoldable pub output_position : LineDecoder td → ℕ
  output_position d = d.length - d.remaining

  unfoldable pub at_eof : LineDecoder td → Bool
  at_eof d = d.remaining == 0

  unfoldable pub push_bytes : Bytes → LineDecoder td → LineDecoder td
  push_bytes bytes d = record d { inp = d.inp + length bytes; queue = d.queue ++ bytes ∷ [] }

  -- The newline at which `decode` cuts a line: `nextNL >= 0 && nextNL < this._remaining`.
  pub next_newline : LineDecoder td → Bytes → Option ℕ
  next_newline d buf = elim (index_of_from newline buf d.offset) [
    | none ↦ none
    | some next ↦ if ltb next d.remaining then some next else none
  ]

  -- The line up to the newline at `next`, in the first buffer of the queue.
  pub take_line : LineDecoder td → Bytes → ℕ → LineDecoder td × Option Text
  take_line d buf next =
      let len = next - d.offset in
      let (decoder, text) = td.decode d.decoder (slice buf d.offset (d.offset + len)) false in
      (
        record d {
          decoder = decoder;
          textbuf = [];
          remaining = d.remaining - (len + 1);
          offset = d.offset + (len + 1);
        },
        some (d.textbuf ++ text ++ newline ∷ []),
      )

  -- The rest of the first buffer goes to the text buffer.
  pub take_buffer : LineDecoder td → Bytes → List Bytes → LineDecoder td
  take_buffer d buf queue =
      let len = min (length buf - d.offset) d.remaining in
      let (decoder, text) = td.decode d.decoder (slice buf d.offset (d.offset + len)) true in
      record d {
        decoder = decoder;
        textbuf = d.textbuf ++ text;
        offset = 0;
        queue = queue;
        remaining = d.remaining - len;
      }

  -- The loop of `decode` over the buffers of the queue; `none` is `false`.
  pub decode_queue : List Bytes → LineDecoder td → LineDecoder td × Option Text
  decode_queue [] d = (d, none)
  decode_queue (buf ∷ queue) d =
      let d' = take_buffer d buf queue in
      let rest = decode_queue queue d' in
      if at_eof d then (d, none) else elim (next_newline d buf) [
        | some next ↦ take_line d buf next
        | none ↦ if at_eof d' then (d', some d'.textbuf) else rest
      ]

  unfoldable pub decode : LineDecoder td → LineDecoder td × Option Text
  unfolding decode_queue take_buffer take_line next_newline at_eof
  decode d = decode_queue d.queue d
