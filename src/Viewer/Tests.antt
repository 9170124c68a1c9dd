-- ===== src/Viewer/Tests.antt =====
-- Runs of the viewer's functions, and an instance of each result.
use xrpl_hive.Base.{◌≡◌, refl, [], ◌∷◌, codes, Bytes, Text, arith}
use xrpl_hive.Viewer.{ByteRange, byte_range_to_line_numbers, show_text}
use xrpl_hive.Viewer.Range.{byte_range_to_line_numbers-line_number}
use xrpl_hive.Viewer.Rows.{show_text-unlines}

abbrev identity : Text → Bytes
identity t = t

abbrev second_line : ByteRange
second_line = record { begin = 2; end = 4 }

byte_range_to_line_numbers_example :
    byte_range_to_line_numbers identity (codes "a\nb\nc") second_line
    ≡ record { start = 2; end = 2 }
byte_range_to_line_numbers_example =
    byte_range_to_line_numbers-line_number identity (codes "a\nb\nc") second_line (codes "a\n")
      (codes "b") 10 (codes "c") refl refl refl

range_runs :
    byte_range_to_line_numbers identity (codes "a\nb\nc") (record { begin = 1; end = 9 })
    ≡ record { start = 1; end = 3 }
unfolding byte_range_to_line_numbers
range_runs = refl

show_text-unlines_example :
    show_text (codes "ab\n\n") ≡ record { lines = codes "ab" ∷ [] ∷ []; line_count = 3 }
show_text-unlines_example = show_text-unlines (codes "ab" ∷ [] ∷ []) [] (omega arith) tt
