-- ===== src/Viewer/Range.antt =====
-- `byteRangeToLineNumbers` against the number of newlines in front of a byte.
use xrpl_hive.Base.{
  ℕ, ◌+◌, ◌-◌, ◌≤◌, ◌<◌, ◌≡◌, refl, ap, sym, ◌∙◌, Bool, true, false, [], ◌∷◌, ◌++◌, some, Bytes,
  Text, newline, length, get_elem?, length-append, append_assoc, ◌==◌, if◌then◌else◌, arith, lt→ltb,
  ge→ltb,
}
use xrpl_hive.Viewer.{
  ByteRange, Scan, scan_byte, scan_bytes, ends_in_newline, byte_range_to_line_numbers,
}

-- The line, counted from 1, of the byte behind `before`.
abbrev pub line_number : Bytes → ℕ
line_number [] = 1
line_number (b ∷ bs) = if b == newline then line_number bs + 1 else line_number bs

pub line_number-append :
    (xs ys : Bytes) → line_number (xs ++ ys) + 1 ≡ line_number xs + line_number ys
line_number-append [] ys = omega arith
line_number-append (x ∷ xs) ys = ground (arith, line_number-append xs ys)

pub line_number-pos : (xs : Bytes) → 0 < line_number xs
line_number-pos [] = omega arith
line_number-pos (x ∷ xs) = ground (arith, line_number-pos xs)

abbrev scanned : ℕ → ℕ → Bool → Scan
scanned start end found = record { start_line = start; end_line = end; found_start = found }

-- A byte in front of the range, and one behind its first.
scan_byte-before :
    (r : ByteRange) (at b start end : ℕ)
    → at < r.begin
    → scan_byte r at b (scanned start end false)
      ≡ scanned start (if b == newline then end + 1 else end) false
unfolding scan_byte
scan_byte-before r at b start end h = ground arith

scan_byte-inside :
    (r : ByteRange) (at b start end : ℕ)
    → scan_byte r at b (scanned start end true)
      ≡ scanned start (if b == newline then end + 1 else end) true
unfolding scan_byte
scan_byte-inside r at b start end = ground arith

scan_byte-first :
    (r : ByteRange) (b start end : ℕ)
    → scan_byte r r.begin b (scanned start end false)
      ≡ scanned end (if b == newline then end + 1 else end) true
unfolding scan_byte
scan_byte-first r b start end = ground arith

scan_step :
    (r : ByteRange) (at b : ℕ) (bs : Bytes) (s : Scan)
    → at < r.end
    → scan_bytes r at (b ∷ bs) s ≡ scan_bytes r (at + 1) bs (scan_byte r at b s)
unfolding scan_bytes
scan_step r at b bs s h = rw (lt→ltb at r.end h)

scan_stop : (r : ByteRange) (at : ℕ) (bs : Bytes) (s : Scan) → r.end ≤ at → scan_bytes r at bs s ≡ s
unfolding scan_bytes
scan_stop r at [] s h = refl
scan_stop r at (b ∷ bs) s h = rw (ge→ltb at r.end h)

scan_before :
    (r : ByteRange) (xs ys : Bytes) (at at' start end end' : ℕ)
    → at' ≡ at + length xs
    → at' ≤ r.begin
    → r.begin < r.end
    → end' + 1 ≡ end + line_number xs
    → scan_bytes r at (xs ++ ys) (scanned start end false)
      ≡ scan_bytes r at' ys (scanned start end' false)
scan_before r [] ys at at' start end end' e h k n =
    let p : at ≡ at' = omega arith in let q : end ≡ end' = omega arith in rw (p, q)
scan_before r (x ∷ xs) ys at at' start end end' e h k n =
    scan_step r at x (xs ++ ys) (scanned start end false) (omega arith)
    ∙ ap (scan_bytes r (at + 1) (xs ++ ys)) (scan_byte-before r at x start end (omega arith))
    ∙ scan_before r xs ys (at + 1) at' start (if x == newline then end + 1 else end) end'
        (omega arith) h k (ground arith)

scan_inside :
    (r : ByteRange) (xs ys : Bytes) (at at' start end end' : ℕ)
    → at' ≡ at + length xs
    → at' ≤ r.end
    → end' + 1 ≡ end + line_number xs
    → scan_bytes r at (xs ++ ys) (scanned start end true)
      ≡ scan_bytes r at' ys (scanned start end' true)
scan_inside r [] ys at at' start end end' e h n =
    let p : at ≡ at' = omega arith in let q : end ≡ end' = omega arith in rw (p, q)
scan_inside r (x ∷ xs) ys at at' start end end' e h n =
    scan_step r at x (xs ++ ys) (scanned start end true) (omega arith)
    ∙ ap (scan_bytes r (at + 1) (xs ++ ys)) (scan_byte-inside r at x start end)
    ∙ scan_inside r xs ys (at + 1) at' start (if x == newline then end + 1 else end) end'
        (omega arith) h (ground arith)

-- The scan over a range that ends in the bytes.
scan_range :
    (r : ByteRange) (before : Bytes) (b : ℕ) (inside after : Bytes)
    → r.begin ≡ length before
    → r.end ≡ length before + length (b ∷ inside)
    → scan_bytes r 0 (before ++ b ∷ (inside ++ after)) (scanned 1 1 false)
      ≡ scanned (line_number before) (line_number (before ++ b ∷ inside)) true
scan_range r before b inside after h k =
    let begun = line_number before in
    let next = if b == newline then begun + 1 else begun in
    scan_before r before (b ∷ (inside ++ after)) 0 r.begin 1 1 begun (omega arith) (omega arith)
      (omega arith) (omega arith)
    ∙ scan_step r r.begin b (inside ++ after) (scanned 1 begun false) (omega arith)
    ∙ ap (scan_bytes r (r.begin + 1) (inside ++ after)) (scan_byte-first r b 1 begun)
    ∙ scan_inside r inside after (r.begin + 1) r.end begun next (line_number (before ++ b ∷ inside))
        (omega arith) (omega arith) (ground (arith, line_number-append before (b ∷ inside)))
    ∙ scan_stop r r.end after _ (omega arith)

scan_region :
    (r : ByteRange) (before inside : Bytes) (last : ℕ) (after : Bytes)
    → r.begin ≡ length before
    → r.end ≡ length before + length inside + 1
    → scan_bytes r 0 (before ++ (inside ++ last ∷ after)) (scanned 1 1 false)
      ≡ scanned (line_number before) (line_number (before ++ (inside ++ last ∷ []))) true
scan_region r before [] last after h k = scan_range r before last [] after h (omega arith)
scan_region r before (b ∷ inside) last after h k =
    ap (λ t. scan_bytes r 0 (before ++ b ∷ t) (scanned 1 1 false))
      (sym (append_assoc inside (last ∷ []) after))
    ∙ scan_range r before b (inside ++ last ∷ []) after h
        (omega (arith, length-append inside (last ∷ [])))

get_elem?-middle : (xs ys : Bytes) (y : ℕ) → get_elem? (xs ++ y ∷ ys) (length xs) ≡ some y
get_elem?-middle [] ys y = refl
get_elem?-middle (x ∷ xs) ys y = get_elem?-middle xs ys y

ends_in_newline_lem :
    (r : ByteRange) (before inside : Bytes) (last : ℕ) (after : Bytes)
    → r.end ≡ length before + length inside + 1
    → ends_in_newline r (before ++ (inside ++ last ∷ after)) ≡ (last == newline)
unfolding ends_in_newline
ends_in_newline_lem r before inside last after k =
    let bytes = (before ++ inside) ++ last ∷ after in
    let n : r.end - 1 ≡ length (before ++ inside) = omega (arith, length-append before inside) in
    let size = length-append (before ++ inside) (last ∷ after) in
    let total : r.end ≤ length bytes = omega (arith, size, length-append before inside) in
    let there : get_elem? bytes (r.end - 1) ≡ some last =
      rw n (get_elem?-middle (before ++ inside) after last) in
    rw (← append_assoc before inside (last ∷ after)) (ground (arith, there, total))

line_number-snoc :
    (before inside : Bytes) (last : ℕ)
    → line_number (before ++ (inside ++ last ∷ [])) ≡ (
        if last == newline
        then line_number (before ++ inside) + 1
        else line_number (before ++ inside))
line_number-snoc before inside last =
    rw (← append_assoc before inside (last ∷ []))
      (ground (arith, line_number-append (before ++ inside) (last ∷ [])))

-- For a range of bytes that is not empty and lies in the text, `byteRangeToLineNumbers` gives the line
-- of its first byte and the line of its last byte, by the newlines in front of each: a newline at the
-- end of the range does not draw in the next line.
pub byte_range_to_line_numbers-line_number :
    (encode : Text → Bytes) (text : Text) (r : ByteRange) (before inside : Bytes) (last : ℕ)
    (after : Bytes)
    → encode text ≡ before ++ (inside ++ last ∷ after)
    → r.begin ≡ length before
    → r.end ≡ length before + length inside + 1
    → byte_range_to_line_numbers encode text r
      ≡ record { start = line_number before; end = line_number (before ++ inside) }
unfolding byte_range_to_line_numbers
byte_range_to_line_numbers-line_number encode text r before inside last after e h k =
    rw
      (
        e,
        scan_region r before inside last after h k,
        ends_in_newline_lem r before inside last after k,
        line_number-snoc before inside last,
      )
      (ground (arith, line_number-append before inside, line_number-pos inside))
