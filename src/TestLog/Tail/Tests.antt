-- ===== src/TestLog/Tail/Tests.antt =====
-- Instances of the theorems on the tail of a log.
use xrpl_hive.Base.{[], ◌∷◌, List, Text, Bytes, codes, length, ltb, ◌≡◌, refl, arith, inl, inr}
use xrpl_hive.TestLog.Decode.{byte_decoder}
use xrpl_hive.TestLog.Loader.{Visitor, Loader, done}
use xrpl_hive.TestLog.Example.{static_server, static_server-Serves}
use xrpl_hive.TestLog.Tail.{iter_tail_lines, head_and_tail_lines}
use xrpl_hive.TestLog.Tail.Loop.{visit_back}
use xrpl_hive.TestLog.Tail.Parts.{iter_tail_lines-back}
use xrpl_hive.TestLog.Tail.Cut.{head_and_tail_lines-cut}
use xrpl_hive.TestLog.Tail.Long.{head_and_tail_lines-ends}
use xrpl_hive.TestLog.Tail.Joined.{head_and_tail_lines-joined}

abbrev two_ends : Bytes
two_ends = codes "x\na\nbb\n\nc\n"

abbrev ends_loader : Loader
ends_loader = record {
  log_file_name = codes "log";
  length = 8;
  offsets = record { begin = 2; end = 10 };
}

abbrev first_two : Visitor (List Text)
first_two s line at = (line ∷ s, ltb (length s) 1)

iter_tail_lines-back_example :
    iter_tail_lines (static_server two_ends) byte_decoder first_two 12 ends_loader []
    ≡ done (codes "\n" ∷ codes "c\n" ∷ [])
unfolding visit_back
iter_tail_lines-back_example =
    iter_tail_lines-back (static_server two_ends) byte_decoder ends_loader two_ends
      (static_server-Serves two_ends (codes "log")) (omega arith) (omega arith)
      (codes "a" ∷ codes "bb" ∷ []) ([] ∷ codes "c" ∷ []) refl (omega arith) first_two 12 []
      (omega arith) refl (omega arith)

head_and_tail_lines-ends_example :
    head_and_tail_lines (static_server two_ends) byte_decoder 12 ends_loader 2 0
    ≡ done (record { head = codes "a\n" ∷ codes "bb\n" ∷ []; tail = codes "\n" ∷ codes "c\n" ∷ [] })
head_and_tail_lines-ends_example =
    head_and_tail_lines-ends (static_server two_ends) byte_decoder ends_loader two_ends
      (static_server-Serves two_ends (codes "log")) (omega arith) (omega arith)
      (codes "a" ∷ codes "bb" ∷ []) [] ([] ∷ codes "c" ∷ []) 2 0 refl (omega arith) (omega arith)
      refl refl (inl refl) 12 (omega arith)

abbrev four_lines : Bytes
four_lines = codes "a\nb\ncc\nd\n"

abbrev joined_loader : Loader
joined_loader = record {
  log_file_name = codes "log";
  length = 9;
  offsets = record { begin = 0; end = 9 };
}

head_and_tail_lines-joined_example :
    head_and_tail_lines (static_server four_lines) byte_decoder 14 joined_loader 3 100
    ≡ done
        (record { head = codes "a\n" ∷ codes "b\n" ∷ codes "cc\n" ∷ codes "d\n" ∷ []; tail = [] })
head_and_tail_lines-joined_example =
    head_and_tail_lines-joined (static_server four_lines) byte_decoder joined_loader four_lines
      (static_server-Serves four_lines (codes "log")) (omega arith) (omega arith)
      (codes "a" ∷ codes "b" ∷ []) (codes "d" ∷ []) (codes "cc") 3 100 refl (omega arith)
      (omega arith) refl (omega arith) (omega arith) (inr (omega arith)) 14 (omega arith)

head_and_tail_lines-cut_example :
    head_and_tail_lines (static_server two_ends) byte_decoder 12 ends_loader 4 3
    ≡ done (record { head = codes "a\n" ∷ codes "bb\n" ∷ []; tail = [] })
head_and_tail_lines-cut_example =
    head_and_tail_lines-cut (static_server two_ends) byte_decoder ends_loader two_ends
      (static_server-Serves two_ends (codes "log")) (omega arith) (omega arith) (codes "a" ∷ [])
      ([] ∷ codes "c" ∷ []) (codes "bb") refl (omega arith) 12 4 3 (omega arith) (omega arith)
      (omega arith) (omega arith)
