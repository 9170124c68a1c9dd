-- ===== src/TestLog/ReverseBuffer/Drift.antt =====
-- The line that `ReverseBuffer.decode` returns, and the position that it reports.
use xrpl_hive.Base.{
  ℕ, suc, ◌+◌, ◌-◌, ◌≡◌, refl, ap, ◌∙◌, [], ◌∷◌, ◌++◌, some, none, false, Bytes, Text, newline,
  last_index_of, ◌≤◌, Bool-cases, inl, inr, leb, last_index_of_from, slice, length, pos, sub_ℕ,
  arith, take, drop, take_all, drop_all, take_prefix, drop-append, take-append, append_assoc,
  length-append,
}
use xrpl_hive.TestLog.Decode.{TextDecoder, Ascii}
use xrpl_hive.TestLog.Lines.Spec.{Plain}
use xrpl_hive.TestLog.ReverseBuffer.{ReverseBuffer, line_before, decode_at, decode}

pub last_index_of-Plain : (l : Text) → Plain l → last_index_of newline l ≡ none
last_index_of-Plain [] h = refl
last_index_of-Plain (c ∷ l) h = ground (arith, last_index_of-Plain l h.1)

last_index_of-line :
    (before line : Text)
    → Plain line
    → last_index_of newline (before ++ newline ∷ line) ≡ some (length before)
last_index_of-line [] line h = ground (arith, last_index_of-Plain line h)
last_index_of-line (c ∷ before) line h = ground (arith, last_index_of-line before line h)

-- At or in front of its start, a buffer has no line.
pub decode_start :
    (td : TextDecoder) (b : ReverseBuffer) (a c : ℕ)
    → b.offset ≡ sub_ℕ a c
    → a ≤ c
    → decode td b ≡ (b, none)
unfolding decode
decode_start td b a c e h = elim (Bool-cases (leb c a)) [
  | inl q ↦ let same : a - c ≡ 0 = omega arith in rw (e, q, same, decode_at)
  | inr q ↦ rw (e, q, decode_at)
]

-- Nor has it one where no newline is in front of the offset.
pub decode-Plain :
    (td : TextDecoder) (b : ReverseBuffer) (part after : Bytes) (o : ℕ)
    → b.bytes ≡ part ++ after
    → Plain part
    → b.offset ≡ pos (suc o)
    → length part ≡ suc o + 1
    → decode td b ≡ (b, none)
unfolding decode
decode-Plain td b part after o e h at n =
    let absent : last_index_of_from newline b.bytes (suc o) ≡ none =
      ap (last_index_of newline) (take_prefix (suc o + 1) part after b.bytes e n)
      ∙ last_index_of-Plain part h in
    rw (at, decode_at, absent)

-- With the offset behind the newline that the buffer ends in, as it is at first, the line is the newline
-- alone, and the output position does count it.
pub decode_last :
    (td : TextDecoder) (b : ReverseBuffer) (before : Bytes)
    → b.bytes ≡ before ++ newline ∷ []
    → b.offset ≡ pos (suc (length before))
    → decode td b ≡ (
      record b { offset = sub_ℕ (length before) 1; output_position = b.output_position - 1 },
      some (newline ∷ []),
    )
unfolding decode line_before
decode_last td b before e at =
    let n = suc (length before) + 1 in
    let size = length-append before (newline ∷ []) in
    let here : last_index_of_from newline b.bytes (suc (length before)) ≡ some (length before) =
      ap (last_index_of newline)
        (ap (take n) e ∙ take_all n (before ++ newline ∷ []) (omega (arith, size)))
      ∙ last_index_of-line before [] tt in
    let nothing : slice b.bytes (length before + 1) n ≡ [] =
      let none_left : drop (length before + 1) b.bytes ≡ [] =
        ap (drop (length before + 1)) e
        ∙ drop_all (length before + 1) (before ++ newline ∷ []) (omega (arith, size)) in
      ap (take (n - (length before + 1))) none_left
      ∙ take_all (n - (length before + 1)) [] (omega arith) in
    let one : suc (length before) - length before ≡ 1 = omega arith in
    rw (at, here, decode_at, nothing, one, td.decode_ascii td.fresh [] false td.fresh-Idle tt)

module _ (td : TextDecoder) (b : ReverseBuffer) (before line after : Bytes) (o : ℕ) where
  found :
      b.bytes ≡ (before ++ newline ∷ line) ++ after
      → Plain line
      → suc o ≡ length before + length line
      → last_index_of_from newline b.bytes (suc o) ≡ some (length before)
  found e h n =
      ap (last_index_of newline) (
        take_prefix (suc o + 1) (before ++ newline ∷ line) after b.bytes e
          (omega (arith, length-append before (newline ∷ line))))
      ∙ last_index_of-line before line h

  line_slice :
      b.bytes ≡ (before ++ newline ∷ line) ++ after
      → suc o ≡ length before + length line
      → slice b.bytes (length before + 1) (suc o + 1) ≡ line
  line_slice e n =
      let k : suc o + 1 - (length before + 1) ≡ length line = omega arith in
      let m : length before + 1 ≡ length (before ++ newline ∷ []) =
        omega (arith, length-append before (newline ∷ [])) in
      let parts : b.bytes ≡ (before ++ newline ∷ []) ++ (line ++ after) = e ∙ simp append_assoc in
      rw (k, m, parts, drop-append, take-append)

  -- With the offset at the end of a line in ASCII, behind a newline, `decode` returns the line with a
  -- newline and moves the offset in front of the newline before it. The output position falls by the
  -- length of the line alone: the newline is not counted.
  pub decode_line :
      b.bytes ≡ (before ++ newline ∷ line) ++ after
      → Plain line
      → Ascii line
      → b.offset ≡ pos (suc o)
      → suc o ≡ length before + length line
      → decode td b ≡ (
        record b {
          offset = sub_ℕ (length before) 1;
          output_position = b.output_position - length line;
        },
        some (line ++ newline ∷ []),
      )
  unfolding decode line_before
  decode_line e h a at n =
      let k : suc o - length before ≡ length line = omega arith in
      rw (
        at,
        found e h n,
        decode_at,
        line_slice e n,
        k,
        td.decode_ascii td.fresh line false td.fresh-Idle a,
      )
