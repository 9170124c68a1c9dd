-- ===== src/TestLog/Tail/Visits.antt =====
-- What the callbacks of `headAndTailLines` make of the lines of a log that end in a newline.
use mathlib.Core.List.{reverse, reverse-cons}
use xrpl_hive.Base.{
  ℕ, suc, ◌+◌, ◌-◌, ◌≤◌, ◌<◌, ◌≡◌, refl, ap, sym, ◌∙◌, ◌⊎◌, inl, inr, true, false, [], ◌∷◌, ◌++◌,
  List, Text, newline, length, lt→ltb, ge→ltb, arith, append_assoc, append-nil, length-append, All,
  All-append, map, concat,
}
use xrpl_hive.TestLog.Lines.Spec.{Plain, terminate, pieces, pieces-line}
use xrpl_hive.TestLog.Loader.Visit.{visit}
use xrpl_hive.TestLog.Tail.{too_much_data, head_visit, tail_visit}
use xrpl_hive.TestLog.Tail.Loop.{followed, visit_back}

-- The text of lines that all end in a newline.
abbrev pub text_of : List Text → Text
text_of ls = concat (map terminate ls)

-- A limit on bytes that a log of this size does not reach.
abbrev pub Unlimited : ℕ → ℕ → Type 0
Unlimited max_bytes size = (max_bytes ≡ 0) ⊎ (size ≤ max_bytes)

pub not_too_much :
    (max_bytes size n lines : ℕ)
    → Unlimited max_bytes size
    → n ≤ size
    → too_much_data max_bytes n lines ≡ false
unfolding too_much_data
not_too_much max_bytes size n lines (inl h) k = ground arith
not_too_much max_bytes size n lines (inr h) k = ground arith

pub pieces-text_of : (ls : List Text) → All Plain ls → pieces (text_of ls) ≡ map terminate ls
pieces-text_of [] h = refl
pieces-text_of (l ∷ ls) h =
    ap pieces (append_assoc l (newline ∷ []) (text_of ls))
    ∙ pieces-line l (text_of ls) h.0
    ∙ ap (λ r. terminate l ∷ r) (pieces-text_of ls h.1)

pub text_of-append : (xs ys : List Text) → text_of (xs ++ ys) ≡ text_of xs ++ text_of ys
text_of-append [] ys = refl
text_of-append (x ∷ xs) ys =
    ap (λ t. terminate x ++ t) (text_of-append xs ys)
    ∙ sym (append_assoc (terminate x) (text_of xs) (text_of ys))

pub length-text_of : (xs : List Text) → length (text_of xs) ≡ length (concat xs) + length xs
length-text_of [] = omega arith
length-text_of (x ∷ xs) = omega (
  arith,
  length-text_of xs,
  length-append (terminate x) (text_of xs),
  length-append x (newline ∷ []),
  length-append x (concat xs),
)

pub map-append-terminate :
    (xs ys : List Text) → map terminate (xs ++ ys) ≡ map terminate xs ++ map terminate ys
map-append-terminate [] ys = refl
map-append-terminate (x ∷ xs) ys = ap (λ t. terminate x ∷ t) (map-append-terminate xs ys)

-- The lines in the order in which the loop shows them.
pub followed-text_of :
    (base : Text) (ws : List Text)
    → followed base ws ++ newline ∷ [] ≡ terminate base ++ text_of (reverse ws)
followed-text_of base [] = sym (append-nil (terminate base))
followed-text_of base (w ∷ ws) =
    append_assoc (followed base ws) (newline ∷ w) (newline ∷ [])
    ∙ sym (append_assoc (followed base ws) (newline ∷ []) (terminate w))
    ∙ ap (λ t. t ++ terminate w) (followed-text_of base ws)
    ∙ append_assoc (terminate base) (text_of (reverse ws)) (terminate w)
    ∙ ap (λ t. terminate base ++ (text_of (reverse ws) ++ t)) (sym (append-nil (terminate w)))
    ∙ ap (λ t. terminate base ++ t)
        (sym (text_of-append (reverse ws) (w ∷ [])) ∙ ap text_of (sym (reverse-cons w ws)))

-- The text of some lines ends in a newline.
pub before_newline :
    (ls : List Text) → 0 < length (text_of ls) → (base : Text) × (text_of ls ≡ terminate base)
before_newline [] h = absurd (omega arith)
before_newline (x ∷ []) h = (x, append-nil (terminate x))
before_newline (x ∷ y ∷ ys) h =
    let (base, e) = before_newline (y ∷ ys) (omega (arith, length-text_of (y ∷ ys))) in
    (
      terminate x ++ base,
      ap (λ t. terminate x ++ t) e ∙ sym (append_assoc (terminate x) base (newline ∷ [])),
    )

pub All-reverse : (ws : List Text) → All Plain ws → All Plain (reverse ws)
All-reverse [] h = h
All-reverse (w ∷ ws) h =
    rw reverse-cons (All-append Plain (reverse ws) (w ∷ []) (All-reverse ws h.1) (h.0, tt))

pub visit_top :
    (n max_bytes size at end : ℕ) (head top rest : List Text)
    → Unlimited max_bytes size
    → 0 < length top
    → length head + length top ≡ n
    → at + length (text_of top) ≤ size
    → (visit (head_visit n max_bytes) (head, end) at (map terminate top ++ rest)).0
      ≡ (head ++ map terminate top, at + length (text_of top))
unfolding visit head_visit
visit_top n max_bytes size at end head [] rest lim some_left count fits = absurd (omega arith)
visit_top n max_bytes size at end head (t ∷ []) rest lim some_left count fits =
    let full =
      ge→ltb (length (head ++ terminate t ∷ [])) n
        (omega (arith, length-append head (terminate t ∷ []))) in
    rw (full, append-nil (terminate t)) refl
visit_top n max_bytes size at end head (t ∷ u ∷ ts) rest lim some_left count fits =
    let head' = head ++ terminate t ∷ [] in
    let at' = at + length (terminate t) in
    let size_t = length-append (terminate t) (text_of (u ∷ ts)) in
    let wanted = lt→ltb (length head') n (omega (arith, length-append head (terminate t ∷ []))) in
    let small = not_too_much max_bytes size at' (length head') lim (omega (arith, size_t)) in
    let end' : at' + length (text_of (u ∷ ts)) ≡ at + length (text_of (t ∷ u ∷ ts)) =
      omega (arith, size_t) in
    rw (wanted, small)
      (visit_top n max_bytes size at' at' head' (u ∷ ts) rest lim (omega arith)
          (omega (arith, length-append head (terminate t ∷ []))) (omega (arith, size_t))
        ∙ ap (λ h. (h, at' + length (text_of (u ∷ ts))))
            (append_assoc head (terminate t ∷ []) (map terminate (u ∷ ts)))
        ∙ ap (λ k. (head ++ map terminate (t ∷ u ∷ ts), k)) end')

map-reverse-step :
    (w : Text) (vs tail : List Text)
    → map terminate (reverse vs) ++ terminate w ∷ tail ≡ map terminate (reverse (w ∷ vs)) ++ tail
map-reverse-step w vs tail =
    sym (append_assoc (map terminate (reverse vs)) (terminate w ∷ []) tail)
    ∙ ap (λ ls. ls ++ tail)
        (sym (map-append-terminate (reverse vs) (w ∷ []))
          ∙ ap (map terminate) (sym (reverse-cons w vs)))

pub visit_bottom :
    (n max_bytes size head_end out : ℕ) (tail ws : List Text)
    → Unlimited max_bytes size
    → 0 < length ws
    → length tail + length ws ≡ n
    → head_end + length (concat ws) ≤ out
    → visit_back (tail_visit n max_bytes size head_end) (tail, false) out ws
      ≡ ((map terminate (reverse ws) ++ tail, false), true)
unfolding visit_back tail_visit
visit_bottom n max_bytes size head_end out tail [] lim some_left count fits = absurd (omega arith)
visit_bottom n max_bytes size head_end out tail (w ∷ []) lim some_left count fits =
    let apart = ge→ltb (out - length w) head_end (omega (arith, length-append w [])) in
    let full = ge→ltb (suc (length tail)) n (omega arith) in rw (apart, full) refl
visit_bottom n max_bytes size head_end out tail (w ∷ v ∷ ws) lim some_left count fits =
    let out' = out - length w in
    let apart = ge→ltb out' head_end (omega (arith, length-append w (concat (v ∷ ws)))) in
    let wanted = lt→ltb (suc (length tail)) n (omega arith) in
    let small = not_too_much max_bytes size (size - out') (suc (length tail)) lim (omega arith) in
    rw (apart, wanted, small)
      (visit_bottom n max_bytes size head_end out' (terminate w ∷ tail) (v ∷ ws) lim (omega arith)
          (omega arith) (omega (arith, length-append w (concat (v ∷ ws))))
        ∙ ap (λ t. ((t, false), true)) (map-reverse-step w (v ∷ ws) tail))

-- Where the lines run into the head, the lines behind the head stand in the tail, and the link is made.
-- This asks for a last line of the head that is as long as the number of lines behind it: the positions
-- are too large by the number of newlines that were passed.
pub visit_into_head :
    (n max_bytes size head_end out : ℕ) (tail ws : List Text) (t : Text)
    → Unlimited max_bytes size
    → 0 < head_end
    → length tail + length ws < n
    → head_end + length (concat ws) + length ws ≤ out + 1
    → out < head_end + length (concat ws) + length t
    → visit_back (tail_visit n max_bytes size head_end) (tail, false) out (ws ++ t ∷ [])
      ≡ ((map terminate (reverse ws) ++ tail, true), true)
unfolding visit_back tail_visit
visit_into_head n max_bytes size head_end out tail [] t lim ahead count fits into =
    rw (lt→ltb (out - length t) head_end (omega arith)) refl
visit_into_head n max_bytes size head_end out tail (w ∷ ws) t lim ahead count fits into =
    let out' = out - length w in
    let size_w = length-append w (concat ws) in
    let apart = ge→ltb out' head_end (omega (arith, size_w)) in
    let wanted = lt→ltb (suc (length tail)) n (omega arith) in
    let small = not_too_much max_bytes size (size - out') (suc (length tail)) lim (omega arith) in
    rw (apart, wanted, small)
      (visit_into_head n max_bytes size head_end out' (terminate w ∷ tail) ws t lim ahead
          (omega arith) (omega (arith, size_w)) (omega (arith, size_w))
        ∙ ap (λ ls. ((ls, true), true)) (map-reverse-step w ws tail))
