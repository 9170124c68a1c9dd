-- ===== src/TestLog/ReverseBuffer.antt =====
-- Class `ReverseBuffer` of cmd/hiveview/assets/lib/testlog.js: the lines of a log from its end. The
-- offset and the input position reach -1.
pub mod Drift
use xrpl_hive.Base.{
  ℕ, suc, ◌+◌, ◌-◌, Bool, false, List, [], ◌∷◌, ◌++◌, Option, none, some, Bytes, Text, newline,
  last_index_of_from, slice, length, ℤ, pos, negsuc, sub_ℕ, shift,
}
use xrpl_hive.TestLog.Decode.{TextDecoder}

pub record ReverseBuffer : Type 0 where
  pub bytes : Bytes
  pub offset : ℤ
  pub length : ℕ
  pub output_position : ℕ

unfoldable pub new_reverse_buffer : ℕ → ReverseBuffer
new_reverse_buffer n = record { bytes = []; offset = pos 0; length = n; output_position = n }

-- `this._length - this._data.length - 1`.
unfoldable pub input_position : ReverseBuffer → ℤ
input_position b = sub_ℕ b.length (length b.bytes + 1)

-- The new bytes come before the old ones.
unfoldable pub push_bytes : Bytes → ReverseBuffer → ReverseBuffer
push_bytes bytes b = record b { bytes = bytes ++ b.bytes; offset = shift (length bytes) b.offset }

module _ (td : TextDecoder) where
  -- The line between the newline at `at` and the offset.
  line_before : ReverseBuffer → ℕ → ℕ → ReverseBuffer × Option Text
  line_before b offset at =
      let line = (td.decode td.fresh (slice b.bytes (at + 1) (offset + 1)) false).1 in
      (
        record b { offset = sub_ℕ at 1; output_position = b.output_position - (offset - at) },
        some (line ++ newline ∷ []),
      )

  -- `decode` at an offset; `none` is `null`.
  decode_at : ℤ → ReverseBuffer → ReverseBuffer × Option Text
  unfolding line_before
  decode_at (negsuc _) b = (b, none)
  decode_at (pos ℕ.zero) b = (b, none)
  decode_at (pos (suc o)) b = elim (last_index_of_from newline b.bytes (suc o)) [
    | none ↦ (b, none)
    | some at ↦ line_before b (suc o) at
  ]

  unfoldable pub decode : ReverseBuffer → ReverseBuffer × Option Text
  unfolding decode_at
  decode b = decode_at b.offset b
