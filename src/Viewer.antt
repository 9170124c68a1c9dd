-- ===== src/Viewer.antt =====
-- cmd/hiveview/assets/lib/app-viewer.js: the rows of a shown text and the highlighted lines. The text
-- encoder is a parameter; numbers in the URL are read as not negative.
pub mod Range
pub mod Highlight
pub mod Rows
pub mod Screen
mod Tests
use xrpl_hive.Base.{
  ℕ, zero, suc, ◌+◌, ◌-◌, ◌<◌, Bool, true, false, not, ◌&&◌, List, [], ◌∷◌, Option, none, some,
  Bytes, Text, newline, length, get_elem?, set, map, ltb, leb, ◌==◌, if◌then◌else◌, max,
}

pub record ByteRange : Type 0 where
  pub begin : ℕ
  pub end : ℕ

pub record LineRange : Type 0 where
  pub start : ℕ
  pub end : ℕ

-- The local variables of `byteRangeToLineNumbers`.
pub record Scan : Type 0 where
  pub start_line : ℕ
  pub end_line : ℕ
  pub found_start : Bool

-- The body of the loop, at a byte and its position.
scan_byte : ByteRange → ℕ → ℕ → Scan → Scan
scan_byte r byte_pos byte s =
    let s' =
      (if not s.found_start && leb r.begin byte_pos
        then record s { start_line = s.end_line; found_start = true }
        else s) in
    if byte == newline then record s' { end_line = s'.end_line + 1 } else s'

pub scan_bytes : ByteRange → ℕ → Bytes → Scan → Scan
unfolding scan_byte
scan_bytes r byte_pos [] s = s
scan_bytes r byte_pos (byte ∷ bytes) s =
    let rest = scan_bytes r (byte_pos + 1) bytes (scan_byte r byte_pos byte s) in
    if ltb byte_pos r.end then rest else s

-- Whether the last byte of the range is a newline.
ends_in_newline : ByteRange → Bytes → Bool
ends_in_newline r bytes =
    ltb 0 r.end
    && (leb r.end (length bytes)
        && elim (get_elem? bytes (r.end - 1)) [ none ↦ false | some byte ↦ byte == newline ])

unfoldable pub byte_range_to_line_numbers : (Text → Bytes) → Text → ByteRange → LineRange
unfolding scan_bytes ends_in_newline
byte_range_to_line_numbers encode text r =
    let bytes = encode text in
    let s = scan_bytes r 0 bytes (record { start_line = 1; end_line = 1; found_start = false }) in
    record {
      start = s.start_line;
      end = if ends_in_newline r bytes then max s.start_line (s.end_line - 1) else s.end_line;
    }

-- The children of the gutter and of the content area, by whether they are highlighted, and the row
-- that was scrolled to.
pub record Page : Type 0 where
  pub gutter : List Bool
  pub content : List Bool
  pub scrolled : Option ℕ

-- The loop of `setHL`, for `count` numbers from `num` on.
highlight_from : ℕ → ℕ → List Bool → List Bool
highlight_from zero num rows = rows
highlight_from (suc count) num rows = highlight_from count (num + 1) (set rows (num - 1) true)

clear_highlight : List Bool → List Bool
clear_highlight = map (λ _. false)

-- `setHL`: a missing start or end is 0, which the code reads as no number.
unfoldable pub set_hl : ℕ → Bool → ℕ → Page → Page
unfolding highlight_from clear_highlight
set_hl zero scroll end_num p = record p {
  gutter = clear_highlight p.gutter;
  content = clear_highlight p.content;
}
set_hl (suc n) scroll end_num p =
    let start_num = n + 1 in
    let end = if end_num == 0 then start_num else end_num in
    let target = start_num - 1 - 5 in
    record p {
      gutter = highlight_from (end + 1 - start_num) start_num (clear_highlight p.gutter);
      content = highlight_from (end + 1 - start_num) start_num (clear_highlight p.content);
      scrolled = if scroll && ltb target (length p.gutter) then some target else p.scrolled;
    }

-- `text.split('\n')`.
first_with : ℕ → List Text → List Text
first_with c [] = (c ∷ []) ∷ []
first_with c (l ∷ ls) = (c ∷ l) ∷ ls

unfoldable pub split_lines : Text → List Text
unfolding first_with
split_lines [] = [] ∷ []
split_lines (c ∷ cs) = if c == newline then [] ∷ split_lines cs else first_with c (split_lines cs)

-- The loop of `showText`: an empty last line is not shown.
rows : List Text → List Text
rows [] = []
rows ([] ∷ []) = []
rows ([] ∷ l ∷ ls) = [] ∷ rows (l ∷ ls)
rows ((c ∷ cs) ∷ ls) = (c ∷ cs) ∷ rows ls

-- What `showText` shows: the rows, and the number of lines in the header.
pub record Shown : Type 0 where
  pub lines : List Text
  pub line_count : ℕ

unfoldable pub show_text : Text → Shown
unfolding rows split_lines
show_text text = record { lines = rows (split_lines text); line_count = length (split_lines text) }
