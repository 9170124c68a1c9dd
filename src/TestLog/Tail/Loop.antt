-- ===== src/TestLog/Tail/Loop.antt =====
-- `_iterTailLines` on a log in ASCII that ends in a newline, from a server that answers range requests:
-- it ends, and shows the lines from the last one back, until the callback says stop.
use xrpl_hive.Base.{
  ℕ, zero, suc, ◌+◌, ◌-◌, ◌≤◌, ◌<◌, ◌≡◌, ◌≢◌, refl, ap, sym, ◌∙◌, Bool, true, false, [], ◌∷◌, ◌++◌,
  List, some, none, Bytes, Text, newline, slice, length, take, drop, pos, ltb, lt→ltb, arith,
  append_assoc, length-append, length-take, length-drop, All, inl, inr, if◌then◌else◌, Bool-cases,
  ◌⊎◌,
}
use xrpl_hive.TestLog.Decode.{TextDecoder, Ascii}
use xrpl_hive.TestLog.Lines.Spec.{Plain, terminate}
use xrpl_hive.TestLog.ReverseBuffer.{ReverseBuffer, push_bytes}
use xrpl_hive.TestLog.Loader.{Server, Visitor, Loader, done, ◌>>=◌, loader_chunk_size, fetch_range}
use xrpl_hive.TestLog.Loader.Fetch.{Serves, region, fetch_range-served}
use xrpl_hive.TestLog.Tail.{chunk_start, fetch_before, tail_round, tail_loop}
use xrpl_hive.TestLog.Tail.Back.{
  Holds, decode-Holds, decode-Cut, push_bytes-Holds, input_position-Holds,
}

-- A text with lines behind it, the last one first.
abbrev pub followed : Text → List Text → Text
followed text [] = text
followed text (w ∷ ws) = followed text ws ++ newline ∷ w

pub length-followed : (text : Text) (ws : List Text) → length text ≤ length (followed text ws)
length-followed text [] = omega arith
length-followed text (w ∷ ws) =
    omega (arith, length-followed text ws, length-append (followed text ws) (newline ∷ w))

-- The callback on each line in turn, until it says stop (then the second component is true); the
-- position of a line falls by the length of the line, without its newline.
unfoldable pub visit_back {ℓ} : {S : Type ℓ} → Visitor S → S → ℕ → List Text → S × Bool
visit_back func s out [] = (s, false)
visit_back func s out (w ∷ ws) =
    let called = func s (terminate w) (out - length w) in
    let rest = visit_back func called.0 (out - length w) ws in
    if called.1 then rest else (called.0, true)

take-take : (k n : ℕ) (xs : Bytes) → k ≤ n → take k (take n xs) ≡ take k xs
take-take zero n xs h = refl
take-take (suc k) zero xs h = absurd (omega arith)
take-take (suc k) (suc n) [] h = refl
take-take (suc k) (suc n) (x ∷ xs) h = ap (λ t. x ∷ t) (take-take k n xs (omega arith))

drop-take : (a n : ℕ) (xs : Bytes) → drop a (take n xs) ≡ take (n - a) (drop a xs)
drop-take zero n xs = let e : n ≡ n - 0 = omega arith in ap (λ k. take k xs) e
drop-take (suc a) zero xs =
    let e : 0 ≡ 0 - suc a = omega arith in ap (λ k. take k (drop (suc a) xs)) e
drop-take (suc a) (suc n) [] = sym (take-nil (suc n - suc a))
  where
    take-nil : (k : ℕ) → take {A = ℕ} k [] ≡ []
    take-nil zero = refl
    take-nil (suc k) = refl
drop-take (suc a) (suc n) (x ∷ xs) =
    let e : n - a ≡ suc n - suc a = omega arith in drop-take a n xs ∙ ap (λ k. take k (drop a xs)) e

slice-take : (n a s : ℕ) (xs : Bytes) → s ≤ n → slice (take n xs) a s ≡ slice xs a s
slice-take n a s xs h =
    ap (take (s - a)) (drop-take a n xs) ∙ take-take (s - a) (n - a) (drop a xs) (omega arith)

-- The bytes of the range of a loader.
abbrev pub log_of : Loader → Bytes → Bytes
log_of l file = take l.length (region l file)

-- They are all there where the file reaches as far.
pub length-log :
    (l : Loader) (file : Bytes)
    → l.offsets.begin + l.length ≤ length file
    → length (log_of l file) ≡ l.length
length-log l file size =
    omega (arith, length-take l.length (region l file), length-drop l.offsets.begin file)

module _ {ℓ} (server : Server) (td : TextDecoder) {S : Type ℓ} (func : Visitor S) (l : Loader)
    (file : Bytes) (served : Serves server l.log_file_name file)
    (size : l.offsets.begin + l.length ≤ length file) where
  abbrev log : Bytes
  log = log_of l file

  size_log : length log ≡ l.length
  size_log = length-log l file size

  pub fetch_before-Holds :
      (part : Bytes) (s : ℕ) (b : ReverseBuffer)
      → Holds log part s b
      → 0 < s
      → s ≤ l.length
      → fetch_before server td l b ≡ done (push_bytes (slice log (s - 1 - loader_chunk_size) s) b)
  unfolding fetch_before
  fetch_before-Holds part s b holds h k =
      let a = s - 1 - loader_chunk_size in
      let from = input_position-Holds log part s a b holds h (omega (arith, size_log)) in
      let same : s - 1 + 1 ≡ s = omega arith in
      let got : fetch_range server l (pos a) (pos (s - 1)) ≡ done (slice log a s) =
        fetch_range-served server td l file served size a (s - 1) (omega arith)
          (omega (arith, length-drop l.offsets.begin file))
        ∙ ap (λ e. done (slice (region l file) a e)) same
        ∙ ap done (sym (slice-take l.length a s (region l file) k)) in
      rw (from, chunk_start, got) refl

  -- What is proved of the loop, for some fuel.
  abbrev pub Returns : ℕ → Type ℓ
  Returns fuel =
      (base after : Text) (ws : List Text) (s : ℕ) (b : ReverseBuffer) (st : S)
      → 0 < length base
      → log ≡ followed base ws ++ newline ∷ after
      → Holds log (followed base ws) s b
      → All Plain ws
      → length (followed base ws) ≤ b.output_position
      → (visit_back func st b.output_position ws).1 ≡ true
      → length ws + s < fuel
      → tail_loop server td func fuel l b false st
        ≡ done (visit_back func st b.output_position ws).0

  module _ (fuel : ℕ) (ih : Returns fuel) (base after w : Text) (ws : List Text) (s : ℕ)
      (b : ReverseBuffer) (st : S) (some_base : 0 < length base)
      (parts : log ≡ (followed base ws ++ newline ∷ w) ++ newline ∷ after)
      (holds : Holds log (followed base ws ++ newline ∷ w) s b) (plain : All Plain (w ∷ ws))
      (left : length (followed base ws ++ newline ∷ w) ≤ b.output_position)
      (stops : (visit_back func st b.output_position (w ∷ ws)).1 ≡ true)
      (enough : suc (length ws) + s < suc fuel) where
    line_round :
        (b' : ReverseBuffer)
        → Holds log (followed base ws) s b'
        → b'.output_position ≡ b.output_position - length w
        → tail_round server td func
            (tail_loop server td func fuel l)
            l
            (b', some (terminate w))
            false
            st
          ≡ done (visit_back func st b.output_position (w ∷ ws)).0
    unfolding tail_round visit_back
    line_round b' holds' out =
        let called = func st (terminate w) b'.output_position in
        let stops' : (if called.1
              then visit_back func called.0 b'.output_position ws
              else (called.0, true)).1
            ≡ true =
          rw (← out) at stops in
        rw (← out) (elim (Bool-cases called.1) [
          | inl go ↦ rw go (
              ih base (w ++ newline ∷ after) ws s b' called.0 some_base
                (parts ∙ append_assoc (followed base ws) (newline ∷ w) (newline ∷ after)) holds'
                plain.1 (omega (arith, length-append (followed base ws) (newline ∷ w)))
                (rw go at stops') (omega arith))
          | inr stop ↦ rw stop refl
        ])

    fetch_round :
        (length (followed base ws) < s) ⊎ (length (followed base ws) + length w ≤ s)
        → tail_round server td func (tail_loop server td func fuel l) l (b, none) false st
          ≡ done (visit_back func st b.output_position (w ∷ ws)).0
    unfolding tail_round push_bytes
    fetch_round h =
        let a = s - 1 - loader_chunk_size in
        let some_text : 0 < length (followed base ws) = omega (arith, length-followed base ws) in
        let more : 0 < s = elim h [ inl lt ↦ omega arith | inr le ↦ omega arith ] in
        let in_log : s ≤ l.length = omega (
          arith,
          holds.inside,
          ap length parts,
          size_log,
          length-append (followed base ws ++ newline ∷ w) (newline ∷ after),
        ) in
        ap (λ o. o >>= λ b'. tail_loop server td func fuel l b' false st)
          (fetch_before-Holds (followed base (w ∷ ws)) s b holds more in_log)
        ∙ ih base after (w ∷ ws) a (push_bytes (slice log a s) b) st some_base parts
            (push_bytes-Holds log (followed base (w ∷ ws)) s a b holds (omega arith)
              (omega (arith, size_log)))
            plain left stops (omega arith)

    one_round :
        Ascii log
        → tail_loop server td func (suc fuel) l b false st
          ≡ done (visit_back func st b.output_position (w ∷ ws)).0
    unfolding tail_loop
    one_round ascii =
        let q = followed base ws in
        let going : ltb 0 b.output_position ≡ true =
          lt→ltb 0 b.output_position (omega (arith, length-append q (newline ∷ w))) in
        let cases : ((s ≤ length q) × (s < length q + length w))
            ⊎ ((length q < s) ⊎ (length q + length w ≤ s)) =
          omega arith in
        elim cases [
          | inl (h, k) ↦
              let (b', got, holds', out) =
                decode-Holds td log q w after s b parts holds plain.0 ascii h k in
              rw (tail_loop, going, got) (line_round b' holds' out)
          | inr h ↦
              let got = decode-Cut td log q w after s b parts holds plain.0 h in
              rw (tail_loop, going, got) (fetch_round h)
        ]

  no_stop : (st : S) (out : ℕ) → (visit_back func st out []).1 ≢ true
  unfolding visit_back
  no_stop st out h = cc

  pub tail_loop-visit_back : Ascii log → (fuel : ℕ) → Returns fuel
  tail_loop-visit_back ascii zero base after ws s b st e parts holds plain left stops enough =
      absurd (omega arith)
  tail_loop-visit_back ascii (suc fuel) base after [] s b st e parts holds plain left stops enough =
      absurd (no_stop st b.output_position stops)
  tail_loop-visit_back ascii (suc fuel) base after (w ∷ ws) s b st e parts holds plain left stops
        enough =
      one_round fuel (tail_loop-visit_back ascii fuel) base after w ws s b st e parts holds plain
        left stops enough ascii
