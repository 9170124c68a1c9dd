-- ===== src/Viewer/Highlight.antt =====
-- `setHL`: which rows are highlighted.
use xrpl_hive.Base.{
  ℕ, zero, suc, ◌+◌, ◌-◌, ◌≤◌, ◌<◌, ◌≡◌, refl, Bool, true, false, ◌&&◌, List, [], ◌∷◌, get_elem?,
  set, ltb, leb, ◌==◌, if◌then◌else◌, arith,
}
use mathlib.Core.Option
use xrpl_hive.Viewer.{Page, set_hl, highlight_from, clear_highlight}

get_elem?-set :
    (xs : List Bool) (i j : ℕ) (v : Bool)
    → get_elem? (set xs i v) j
      ≡ (if i == j then Option.map (λ _. v) (get_elem? xs j) else get_elem? xs j)
get_elem?-set [] i j v = ground arith
get_elem?-set (x ∷ xs) zero zero v = refl
get_elem?-set (x ∷ xs) zero (suc j) v = ground arith
get_elem?-set (x ∷ xs) (suc i) zero v = ground arith
get_elem?-set (x ∷ xs) (suc i) (suc j) v = ground (arith, get_elem?-set xs i j v)

get_elem?-highlight_from :
    (count num : ℕ) (xs : List Bool) (i : ℕ)
    → 0 < num
    → get_elem? (highlight_from count num xs) i ≡ (
        if leb num (i + 1) && ltb (i + 1) (num + count)
        then Option.map (λ _. true) (get_elem? xs i)
        else get_elem? xs i)
unfolding highlight_from
get_elem?-highlight_from zero num xs i h = ground arith
get_elem?-highlight_from (suc count) num xs i h = ground (
  arith,
  get_elem?-highlight_from count (num + 1) (set xs (num - 1) true) i,
  get_elem?-set xs (num - 1) i true,
)

get_elem?-clear_highlight :
    (xs : List Bool) (i : ℕ)
    → get_elem? (clear_highlight xs) i ≡ Option.map (λ _. false) (get_elem? xs i)
unfolding clear_highlight
get_elem?-clear_highlight [] i = refl
get_elem?-clear_highlight (x ∷ xs) zero = refl
get_elem?-clear_highlight (x ∷ xs) (suc i) = get_elem?-clear_highlight xs i

-- After `setHL` on lines `start` to `end`, counted from 1 and `start` not behind `end`, a row of the
-- gutter and the row beside it are highlighted exactly if their number is among these, whatever was
-- highlighted before; and no row appears or goes.
pub set_hl_rows :
    (start end : ℕ) (scroll : Bool) (p : Page) (i : ℕ)
    → 0 < start
    → start ≤ end
    → (let q = set_hl start scroll end p in
        (get_elem? q.gutter i
          ≡ Option.map (λ _. leb start (i + 1) && leb (i + 1) end) (get_elem? p.gutter i))
        × (get_elem? q.content i
            ≡ Option.map (λ _. leb start (i + 1) && leb (i + 1) end) (get_elem? p.content i)))
unfolding set_hl
set_hl_rows zero end scroll p i h k = absurd (omega arith)
set_hl_rows (suc n) zero scroll p i h k = absurd (omega arith)
set_hl_rows (suc n) (suc end) scroll p i h k =
    let q : (if suc end == 0 then n + 1 else suc end) ≡ suc end = ground arith in
    (in_rows p.gutter _ q, in_rows p.content _ q)
  where
    in_rows :
        (xs : List Bool) (e : ℕ)
        → e ≡ suc end
        → get_elem? (highlight_from (e + 1 - (n + 1)) (n + 1) (clear_highlight xs)) i
          ≡ Option.map (λ _. leb (suc n) (i + 1) && leb (i + 1) (suc end)) (get_elem? xs i)
    in_rows xs e q = ground (
      arith,
      get_elem?-highlight_from (e + 1 - (n + 1)) (n + 1) (clear_highlight xs) i (omega arith),
      get_elem?-clear_highlight xs i,
    )
