-- ===== src/TestLog/Tests.antt =====
-- Runs of the functions of testlog.js on small logs, and an instance of each result.
use xrpl_hive.Base.{
  ℕ, ◌+◌, ◌≡◌, refl, true, List, [], ◌∷◌, ◌++◌, some, Bytes, Text, codes, slice, arith,
}
use xrpl_hive.TestLog.Decode.{byte_decoder}
use xrpl_hive.TestLog.Lines.{split_head_tail, count_lines}
use xrpl_hive.TestLog.Lines.Spec.{lines_of, pieces}
use xrpl_hive.TestLog.Lines.Window.{window, split_head_tail-window}
use xrpl_hive.TestLog.Loader.{Visitor, Loader, done, iter_lines}
use xrpl_hive.TestLog.Loader.Visit.{visit}
use xrpl_hive.TestLog.Loader.Forward.{iter_lines-visit}
use xrpl_hive.TestLog.Tail.{head_and_tail_lines}
use xrpl_hive.TestLog.Tail.Short.{head_and_tail_lines-short}
use xrpl_hive.TestLog.Example.{static_server, static_server-Serves}

abbrev five : Text
five = codes "a\nb\nc\nd\ne"

split_head_tail-window_example : split_head_tail five 2 ≡ some (window (lines_of five) 2)
split_head_tail-window_example = split_head_tail-window five 2 (λ e. cc)

split_five :
    split_head_tail five 2
    ≡ some
        (record { head = codes "a\n" ∷ codes "b\n" ∷ []; tail = codes "e" ∷ []; hidden_lines = 2 })
unfolding split_head_tail count_lines
split_five = refl

abbrev log_file : Bytes
log_file = codes "xx\nab\nc\n\nde"

abbrev part : Loader
part = record { log_file_name = codes "log"; length = 8; offsets = record { begin = 3; end = 11 } }

abbrev positions : Visitor (List ℕ)
positions s line at = (s ++ at ∷ [], true)

iter_lines-visit_example :
    iter_lines (static_server log_file) byte_decoder positions part []
    ≡ done (visit positions [] 0 (pieces (slice log_file 3 (3 + 8)))).0
iter_lines-visit_example =
    iter_lines-visit (static_server log_file) byte_decoder positions part log_file
      (static_server-Serves log_file (codes "log")) (omega arith) (omega arith) []

iter_lines_runs :
    iter_lines (static_server log_file) byte_decoder positions part [] ≡ done (3 ∷ 5 ∷ 6 ∷ 8 ∷ [])
unfolding iter_lines static_server package.xrpl_hive.TestLog.LineDecoder.decode
    package.xrpl_hive.TestLog.LineDecoder.new_line_decoder
    package.xrpl_hive.TestLog.LineDecoder.at_eof
    package.xrpl_hive.TestLog.LineDecoder.input_position
    package.xrpl_hive.TestLog.LineDecoder.output_position
    package.xrpl_hive.TestLog.LineDecoder.push_bytes
iter_lines_runs = refl

head_and_tail_lines-short_example :
    head_and_tail_lines (static_server log_file) byte_decoder 9 part 5 0
    ≡ done (record { head = pieces (slice log_file 3 11); tail = [] })
head_and_tail_lines-short_example =
    head_and_tail_lines-short (static_server log_file) byte_decoder part log_file
      (static_server-Serves log_file (codes "log")) (omega arith) (omega arith) 9 5 (omega arith)
