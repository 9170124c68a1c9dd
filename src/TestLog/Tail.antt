-- ===== src/TestLog/Tail.antt =====
-- `text`, `_iterTailLines` and `headAndTailLines` of class `Loader` in
-- cmd/hiveview/assets/lib/testlog.js.
pub mod Back
mod Tests
pub mod Loop
pub mod Start
pub mod Visits
pub mod Parts
pub mod Cut
pub mod Long
pub mod Joined
pub mod Short
pub mod Whole
use xrpl_hive.Base.{
  ℕ, zero, suc, ◌+◌, ◌-◌, ◌*◌, Bool, true, false, not, ◌&&◌, List, [], ◌∷◌, ◌++◌, Option, none,
  some, Bytes, Text, newline, length, ltb, ◌==◌, if◌then◌else◌, ℤ, pos, negsuc, sub_ℕ,
}
use xrpl_hive.TestLog.Decode.{TextDecoder}
use xrpl_hive.TestLog.ReverseBuffer
use xrpl_hive.TestLog.ReverseBuffer.{ReverseBuffer, new_reverse_buffer}
use xrpl_hive.TestLog.Loader.{
  Server, Visitor, Loader, Outcome, done, thrown, out_of_fuel, ◌>>=◌, loader_chunk_size,
  fetch_range, iter_lines,
}

-- The head and the tail of a log.
pub record Ends : Type 0 where
  pub head : List Text
  pub tail : List Text

-- `Math.max(0, end - LOADER_CHUNK_SIZE)`.
chunk_start : ℤ → ℕ
chunk_start (pos end) = end - loader_chunk_size
chunk_start (negsuc _) = 0

-- `tooMuchData`: a limit of 0, or none, is no limit.
pub too_much_data : ℕ → ℕ → ℕ → Bool
too_much_data max_bytes size lines = not (max_bytes == 0) && (ltb max_bytes size && ltb 0 lines)

-- The callback for the head, on the lines so far and `headEndPosition`.
pub head_visit : ℕ → ℕ → Visitor (List Text × ℕ)
unfolding too_much_data
head_visit n max_bytes (head, _) line offset =
    let head' = head ++ line ∷ [] in
    ((head', offset), ltb (length head') n && not (too_much_data max_bytes offset (length head')))

-- The callback for the tail, on the lines so far and `linkWithHead`.
pub tail_visit : ℕ → ℕ → ℕ → ℕ → Visitor (List Text × Bool)
unfolding too_much_data
tail_visit n max_bytes total_size head_end (tail, link) line offset =
    let tail' = line ∷ tail in
    if ltb offset head_end then ((tail, true), false) else (
      (tail', link),
      ltb (length tail') n && not (too_much_data max_bytes (total_size - offset) (length tail')),
    )

-- What `line === '\n'` tests.
is_newline : Text → Bool
is_newline [] = false
is_newline (c ∷ []) = c == newline
is_newline (c ∷ _ ∷ _) = false

-- The reads of `text`: each chunk of the response is decoded as part of a stream. (The last read has
-- no chunk, so the stream is never closed.)
decode_chunks : (td : TextDecoder) → td.State → List Bytes → Text
decode_chunks td s [] = []
decode_chunks td s (chunk ∷ chunks) =
    let (s', text) = td.decode s chunk true in text ++ decode_chunks td s' chunks

module _ (server : Server) (td : TextDecoder) where
  -- `chunked` is how the body of a response comes to its reader.
  unfoldable pub text : (Bytes → List Bytes) → Loader → Outcome Text
  unfolding decode_chunks
  text chunked l = do
    body ← fetch_range server l (pos 0) (sub_ℕ l.length 1)
    done (decode_chunks td td.fresh (chunked body))

  -- `_fetchRangeIntoBuffer` on a ReverseBuffer, for the bytes before those at hand.
  pub fetch_before : Loader → ReverseBuffer → Outcome ReverseBuffer
  unfolding chunk_start
  fetch_before l b = do
    let end = ReverseBuffer.input_position b
    bytes ← fetch_range server l (pos (chunk_start end)) end
    done (ReverseBuffer.push_bytes bytes b)

  module _ {ℓ} {S : Type ℓ} (func : Visitor S) where
    -- One round of `_iterTailLines`; the loop goes on with a buffer, `first` and a state.
    tail_round :
        (ReverseBuffer → Bool → S → Outcome S)
        → Loader
        → ReverseBuffer × Option Text
        → Bool
        → S
        → Outcome S
    tail_round again l (b, none) first s = fetch_before l b >>= λ b'. again b' first s
    tail_round again l (b, some line) first s =
        let skip = again b false s in
        let (s', more) = func s line b.output_position in
        let next = again b first s' in
        if first && is_newline line then skip else if more then next else done s'

    pub tail_loop : ℕ → Loader → ReverseBuffer → Bool → S → Outcome S
    tail_loop zero l b first s = out_of_fuel
    tail_loop (suc fuel) l b first s = elim (ltb 0 b.output_position) [
      | false ↦ done s
      | true ↦ tail_round (tail_loop fuel l) l (ReverseBuffer.decode td b) first s
    ]

    unfoldable pub iter_tail_lines : ℕ → Loader → S → Outcome S
    unfolding tail_loop tail_round fetch_before is_newline
    iter_tail_lines fuel l s = tail_loop fuel l (new_reverse_buffer l.length) true s

  -- What is returned for the lines of the tail; `linkWithHead` joins them to the head.
  pub join_tail : List Text → List Text × Bool → Outcome Ends
  join_tail head (tail, true) = done (record { head = head ++ tail; tail = [] })
  join_tail head (tail, false) = done (record { head = head; tail = tail })

  -- `iterLines` returns nothing, so `eofReached` is never true.
  pub after_head : ℕ → Loader → ℕ → ℕ → List Text × ℕ → Outcome Ends
  unfolding join_tail tail_visit
  after_head fuel l n max_bytes (head, head_end) =
      if ltb (length head) n
      then done (record { head = head; tail = [] })
      else (iter_tail_lines (tail_visit n max_bytes l.length head_end) fuel l ([], false)
          >>= join_tail head)

  -- The fuel is for the loop over the tail.
  unfoldable pub head_and_tail_lines : ℕ → Loader → ℕ → ℕ → Outcome Ends
  unfolding after_head head_visit
  head_and_tail_lines fuel l n max_bytes =
      iter_lines server td (head_visit n max_bytes) l ([], 0) >>= after_head fuel l n max_bytes
