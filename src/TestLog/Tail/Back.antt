-- ===== src/TestLog/Tail/Back.antt =====
-- The buffer of `_iterTailLines` while it reads a log from its end: what `decode` returns, and what a
-- fetch leaves.
use xrpl_hive.Base.{
  ℕ, zero, suc, ◌+◌, ◌-◌, ◌≤◌, ◌<◌, ◌≡◌, refl, ap, sym, ◌∙◌, [], ◌∷◌, ◌++◌, some, none, Bytes, Text,
  newline, slice, length, drop, pos, sub_ℕ, shift, leb, ◌⊎◌, inl, inr, Bool-cases, arith,
  length-append, length-take, length-drop, drop-drop, take-append-drop, All-append_split,
}
use xrpl_hive.TestLog.Decode.{TextDecoder, Ascii}
use xrpl_hive.TestLog.Lines.Spec.{Plain}
use xrpl_hive.TestLog.ReverseBuffer.{ReverseBuffer, input_position, push_bytes, decode}
use xrpl_hive.TestLog.ReverseBuffer.Drift.{decode_start, decode-Plain, decode_line}

-- The buffer holds the bytes of `text` from `s` on, and its offset is in front of the newline behind
-- `part`.
pub record Holds (text part : Bytes) (s : ℕ) (b : ReverseBuffer) : Type 0 where
  pub bytes : b.bytes ≡ drop s text
  pub offset : b.offset ≡ sub_ℕ (length part) (s + 1)
  pub total : b.length ≡ length text
  pub inside : s ≤ length part

pub drop-part : (n : ℕ) (xs ys : Bytes) → n ≤ length xs → drop n (xs ++ ys) ≡ drop n xs ++ ys
drop-part zero xs ys h = refl
drop-part (suc n) [] ys h = absurd (omega arith)
drop-part (suc n) (x ∷ xs) ys h = drop-part n xs ys (omega arith)

drop-past : (n : ℕ) (xs ys : Bytes) → length xs ≤ n → drop n (xs ++ ys) ≡ drop (n - length xs) ys
drop-past n [] ys h = let e : n ≡ n - 0 = omega arith in ap (λ k. drop k ys) e
drop-past zero (x ∷ xs) ys h = absurd (omega arith)
drop-past (suc n) (x ∷ xs) ys h =
    let e : n - length xs ≡ suc n - suc (length xs) = omega arith in
    drop-past n xs ys (omega arith) ∙ ap (λ k. drop k ys) e

drop-Plain : (n : ℕ) (l : Text) → Plain l → Plain (drop n l)
drop-Plain zero l h = h
drop-Plain (suc n) [] h = h
drop-Plain (suc n) (c ∷ l) h = drop-Plain n l h.1

module _ (td : TextDecoder) (text q w after : Bytes) (s : ℕ) (b : ReverseBuffer)
    (parts : text ≡ (q ++ newline ∷ w) ++ newline ∷ after)
    (holds : Holds text (q ++ newline ∷ w) s b) (plain : Plain w) where
  length_part : length (q ++ newline ∷ w) ≡ suc (length q + length w)
  length_part = omega (arith, length-append q (newline ∷ w))

  offset_in :
      (o : ℕ)
      → length q + length w ≡ s + suc o
      → sub_ℕ (length (q ++ newline ∷ w)) (s + 1) ≡ pos (suc o)
  offset_in o h = ground (arith, length_part)

  bytes_from :
      (kept : Bytes)
      → s ≤ length (q ++ newline ∷ w)
      → drop s (q ++ newline ∷ w) ≡ kept
      → b.bytes ≡ kept ++ newline ∷ after
  bytes_from kept h e =
      holds.bytes
      ∙ ap (drop s) parts
      ∙ drop-part s (q ++ newline ∷ w) (newline ∷ after) h
      ∙ ap (λ k. k ++ newline ∷ after) e

  -- Where the newline in front of a line is in the buffer, and the line is not empty at the start of
  -- the buffer, the line is decoded, and the buffer is at the text in front of it.
  pub decode-Holds :
      Ascii text
      → s ≤ length q
      → s < length q + length w
      → (b' : ReverseBuffer) × (decode td b ≡ (b', some (w ++ newline ∷ [])))
        × Holds text q s b'
        × (b'.output_position ≡ b.output_position - length w)
  decode-Holds ascii h k =
      let o = length q + length w - s - 1 in
      let whole : Ascii ((q ++ newline ∷ w) ++ newline ∷ after) = rw parts at ascii in
      let (line, _) = All-append_split (λ c. c < 128) (q ++ newline ∷ w) (newline ∷ after) whole in
      let (_, ascii_w) = All-append_split (λ c. c < 128) q (newline ∷ w) line in
      (
        _,
        decode_line td b (drop s q) w (newline ∷ after) o
            (bytes_from (drop s q ++ newline ∷ w) (omega (arith, length_part))
              (drop-part s q (newline ∷ w) h))
            plain ascii_w.1 (holds.offset ∙ offset_in o (omega arith))
            (omega (arith, length-drop s q)),
        record {
          bytes = holds.bytes;
          offset = ground (arith, length-drop s q);
          total = holds.total;
          inside = h;
        },
        refl,
      )

  -- Else nothing is decoded.
  pub decode-Cut : (length q < s) ⊎ (length q + length w ≤ s) → decode td b ≡ (b, none)
  decode-Cut (inr h) =
      decode_start td b (length (q ++ newline ∷ w)) (s + 1) holds.offset
        (omega (arith, length_part))
  decode-Cut (inl h) = elim (Bool-cases (leb (length (q ++ newline ∷ w)) (s + 1))) [
    | inl le ↦ decode_start td b (length (q ++ newline ∷ w)) (s + 1) holds.offset (ground arith)
    | inr gt ↦
        let k = s - length q - 1 in
        let o = length q + length w - s - 1 in
        let some_left : s + 1 < length (q ++ newline ∷ w) = ground arith in
        let n : s - length q ≡ suc k = omega arith in
        decode-Plain td b (drop k w) (newline ∷ after) o
          (bytes_from (drop k w) holds.inside
            (drop-past s q (newline ∷ w) (omega arith) ∙ ap (λ m. drop m (newline ∷ w)) n))
          (drop-Plain k w plain) (holds.offset ∙ offset_in o (omega (arith, length_part)))
          (omega (arith, length-drop k w, length_part))
  ]

slice-drop : (a s : ℕ) (xs : Bytes) → a ≤ s → slice xs a s ++ drop s xs ≡ drop a xs
slice-drop a s xs h =
    let e : a + (s - a) ≡ s = omega arith in
    ap (λ n. slice xs a s ++ drop n xs) (sym e)
    ∙ ap (λ t. slice xs a s ++ t) (sym (drop-drop (s - a) a xs))
    ∙ take-append-drop (s - a) (drop a xs)

shift-sub_ℕ : (k a c : ℕ) → shift k (sub_ℕ a (k + c)) ≡ sub_ℕ a c
shift-sub_ℕ k a c = ground arith

module _ (text part : Bytes) (s a : ℕ) (b : ReverseBuffer) where
  -- Bytes pushed in front.
  pub push_bytes-Holds :
      Holds text part s b
      → a ≤ s
      → s ≤ length text
      → Holds text part a (push_bytes (slice text a s) b)
  unfolding push_bytes
  push_bytes-Holds holds h k =
      let size : length (slice text a s) ≡ s - a =
        omega (arith, length-take (s - a) (drop a text), length-drop a text) in
      let same : s + 1 ≡ s - a + (a + 1) = omega arith in
      record {
        bytes = ap (λ t. slice text a s ++ t) holds.bytes ∙ slice-drop a s text h;
        offset = rw (size, holds.offset, same) (shift-sub_ℕ (s - a) (length part) (a + 1));
        total = holds.total;
        inside = omega (arith, holds.inside);
      }

  -- Where the next bytes come from.
  pub input_position-Holds :
      Holds text part s b → 0 < s → s ≤ length text → input_position b ≡ pos (s - 1)
  unfolding input_position
  input_position-Holds holds h k =
      let size : length b.bytes ≡ length text - s = ap length holds.bytes ∙ length-drop s text in
      rw (size, holds.total) (ground arith)
