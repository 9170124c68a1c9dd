-- ===== src/Base/Strings.antt =====
-- Texts and byte arrays as lists of numbers, with the operations of String and Uint8Array that the
-- viewer calls: indexOf, lastIndexOf, substring and slice.
use Prim.Native.Char.{code}
use Prim.Native.Nat.{ℕ, suc, ◌+◌, ◌-◌}
use Prim.Native.String.{String}
use mathlib.Core.List.{List, [], ◌∷◌, ◌++◌}
use mathlib.Core.Option
use mathlib.Core.Option.{Option, none, some}
use mathlib.Core.Logic.{◌≢◌, ◌⊎◌, inl, inr}
use mathlib.Core.Path.{◌≡◌, refl, ap, subst}
use native.Mathlib.Omega.{arith}
use xrpl_hive.Base.Lists.{take, drop, length, All}
use xrpl_hive.Base.Tests.{Bool-cases, Option-cases, some_inj, ==_iff, ◌==◌, if◌then◌else◌}

-- A text, by its code units.
abbrev pub Text : Type 0
Text = List ℕ

abbrev pub Bytes : Type 0
Bytes = List ℕ

abbrev pub codes : String → Text
codes String.[] = []
codes (String.◌∷◌ c s) = code c ∷ codes s

-- '\n', and its byte in UTF-8.
abbrev pub newline : ℕ
newline = 10

-- `xs.indexOf(c)`, where -1 is `none`.
abbrev pub index_of : ℕ → List ℕ → Option ℕ
index_of c [] = none
index_of c (x ∷ xs) = if x == c then some 0 else Option.map suc (index_of c xs)

-- `xs.indexOf(c, start)`. A start past the end finds nothing.
abbrev pub index_of_from : ℕ → List ℕ → ℕ → Option ℕ
index_of_from c xs start = Option.map (λ i. start + i) (index_of c (drop start xs))

-- `xs.substring(begin, end)` for begin ≤ end, and `xs.slice(begin, end)`.
abbrev pub slice {ℓ} : {A : Type ℓ} → List A → ℕ → ℕ → List A
slice xs begin end = take (end - begin) (drop begin xs)

-- What a search that finds something says.
abbrev pub FoundAt : ℕ → List ℕ → ℕ → Type 0
FoundAt c xs i =
    (xs ≡ take i xs ++ c ∷ drop (suc i) xs)
    × (length (take i xs) ≡ i)
    × All (λ x. x ≢ c) (take i xs)

pub index_of-eq-some : (c : ℕ) (xs : List ℕ) (i : ℕ) → index_of c xs ≡ some i → FoundAt c xs i
index_of-eq-some c [] i h = cc
index_of-eq-some c (x ∷ xs) i h = elim (Bool-cases (x == c)) [
  | inl e ↦
      let here : 0 ≡ i = some_inj (rw e at h) in
      subst (FoundAt c (x ∷ xs)) here (ap (λ y. y ∷ xs) ((==_iff x c).0 e), refl, tt)
  | inr e ↦
      later (Option-cases (index_of c xs)) (index_of-eq-some c xs) (λ q. cc (e, (==_iff x c).1 q))
        (rw e at h)
]
  where
    later :
        ((index_of c xs ≡ none) ⊎ ((j : ℕ) × (index_of c xs ≡ some j)))
        → ((j : ℕ) → index_of c xs ≡ some j → FoundAt c xs j)
        → x ≢ c
        → Option.map suc (index_of c xs) ≡ some i
        → FoundAt c (x ∷ xs) i
    later (inl absent) found ne h = cc
    later (inr (j, present)) found ne h =
        let there : suc j ≡ i = some_inj (rw present at h) in
        let (parts, len, plain) = found j present in
        subst (FoundAt c (x ∷ xs)) there (ap (λ ys. x ∷ ys) parts, ap suc len, (ne, plain))

pub index_of-eq-none : (c : ℕ) (xs : List ℕ) → index_of c xs ≡ none → All (λ x. x ≢ c) xs
index_of-eq-none c [] h = tt
index_of-eq-none c (x ∷ xs) h = ground (arith, index_of-eq-none c xs)

-- `xs.lastIndexOf(c)`.
abbrev pub last_index_of : ℕ → List ℕ → Option ℕ
last_index_of c [] = none
last_index_of c (x ∷ xs) = elim (last_index_of c xs) [
  | some i ↦ some (suc i)
  | none ↦ if x == c then some 0 else none
]

-- `xs.lastIndexOf(c, from)`, for a place that is not negative.
abbrev pub last_index_of_from : ℕ → List ℕ → ℕ → Option ℕ
last_index_of_from c xs from = last_index_of c (take (from + 1) xs)
