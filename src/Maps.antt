-- ===== src/Maps.antt =====
-- Objects and `Map`s with texts as keys, as cmd/hiveview/assets/lib uses them: what a key gives after
-- each operation.
use xrpl_hive.Base.{
  Bool, true, false, ◌&&◌, List, [], ◌∷◌, Option, none, some, Text, ◌≡◌, refl, ap, ◌∙◌, ◌==◌,
  if◌then◌else◌, arith, Bool-cases, inl, inr, Option-cases,
}
use mathlib.Core.Option

-- `a === b` on texts.
abbrev pub same : Text → Text → Bool
same [] [] = true
same [] (y ∷ ys) = false
same (x ∷ xs) [] = false
same (x ∷ xs) (y ∷ ys) = x == y && same xs ys

-- A `Map` with texts as keys, in the order of insertion.
abbrev pub Map {ℓ} : Type ℓ → Type ℓ
Map V = List (Text × V)

module _ {ℓ} {V : Type ℓ} where
  abbrev pub get : Text → Map V → Option V
  get k [] = none
  get k ((j, v) ∷ m) = if same k j then some v else get k m

  -- `m.set(k, v)`: in place, or at the end.
  abbrev pub put : Text → V → Map V → Map V
  put k v [] = (k, v) ∷ []
  put k v ((j, w) ∷ m) = if same k j then (j, v) ∷ m else (j, w) ∷ put k v m

-- `if (!m.has(k)) m.set(k, fresh)`.
abbrev pub ensure {ℓ} : {V : Type ℓ} → Text → V → Map V → Map V
ensure k fresh m = elim (get k m) [ none ↦ put k fresh m | some v ↦ m ]

-- `for (const [k, v] of m.entries()) m.set(k, f(v))`.
abbrev pub update_values {ℓ} : {V : Type ℓ} → (V → V) → Map V → Map V
update_values f [] = []
update_values f ((k, v) ∷ m) = (k, f v) ∷ update_values f m

pub same_refl : (t : Text) → same t t ≡ true
same_refl [] = refl
same_refl (c ∷ t) = ground (arith, same_refl t)

pub same-≡ : (t u : Text) → same t u ≡ true → t ≡ u
same-≡ [] [] h = refl
same-≡ [] (y ∷ u) h = ground arith
same-≡ (x ∷ t) [] h = ground arith
same-≡ (x ∷ t) (y ∷ u) h =
    let heads : x ≡ y = ground arith in
    let tails : same t u ≡ true = ground arith in rw (heads, same-≡ t u tails)

-- A key that is not another cannot be the same as both.
pub same_apart : (j k i : Text) → same k i ≡ false → same j k ≡ true → same j i ≡ false
same_apart j k i h e = rw (same-≡ j k e) h

abbrev pub or_else {ℓ} : {V : Type ℓ} → V → Option V → V
or_else v none = v
or_else v (some w) = w

module _ {ℓ} {V : Type ℓ} where
  pub get-put :
      (j k : Text) (v : V) (m : Map V) → get j (put k v m) ≡ (if same j k then some v else get j m)
  get-put j k v [] = refl
  get-put j k v ((i, w) ∷ m) = elim (Bool-cases (same k i)) [
    | inl e ↦ let q = same-≡ k i e in rw (e, q) (ground arith)
    | inr e ↦ rw e (ground (arith, get-put j k v m, same_apart j k i e))
  ]

  pub get-ensure :
      (j k : Text) (v : V) (m : Map V)
      → get j (ensure k v m) ≡ (if same j k then some (or_else v (get k m)) else get j m)
  get-ensure j k v m = elim (Option-cases (get k m)) [
    | inl e ↦
        let p : ensure k v m ≡ put k v m =
          ap (λ o. elim o as (λ _. Map V) [ none ↦ put k v m | some w ↦ m ]) e in
        rw (p, e) (get-put j k v m)
    | inr (w, e) ↦
        let p : ensure k v m ≡ m =
          ap (λ o. elim o as (λ _. Map V) [ none ↦ put k v m | some w ↦ m ]) e in
        rw (p, e) (get_known j w e)
  ]
    where
      get_known :
          (j : Text) (w : V) → get k m ≡ some w → get j m ≡ (if same j k then some w else get j m)
      get_known j w e = elim (Bool-cases (same j k)) [
        | inl q ↦ rw (q, same-≡ j k q) e
        | inr q ↦ rw q refl
      ]

  pub get-update_values :
      (f : V → V) (k : Text) (m : Map V) → get k (update_values f m) ≡ Option.map f (get k m)
  get-update_values f k [] = refl
  get-update_values f k ((j, v) ∷ m) = ground (arith, get-update_values f k m)

-- `p.delete(k)` and `p.set(k, v)`: the first value of a key is set, and its others go.
unfoldable pub delete_param : Text → Map Text → Map Text
delete_param k [] = []
delete_param k ((j, w) ∷ p) =
    let rest = delete_param k p in if same k j then rest else (j, w) ∷ rest

unfoldable pub set_param : Text → Text → Map Text → Map Text
unfolding delete_param
set_param k v [] = (k, v) ∷ []
set_param k v ((j, w) ∷ p) =
    let rest = set_param k v p in if same k j then (j, v) ∷ delete_param k p else (j, w) ∷ rest

pub get-delete_param :
    (j k : Text) (p : Map Text) → get j (delete_param k p) ≡ (if same j k then none else get j p)
unfolding delete_param
get-delete_param j k [] = ground arith
get-delete_param j k ((i, w) ∷ p) = elim (Bool-cases (same k i)) [
  | inl e ↦ let q = same-≡ k i e in rw e (get-delete_param j k p ∙ rw (← q) (ground arith))
  | inr e ↦ rw e (ground (arith, get-delete_param j k p, same_apart j k i e))
]

pub get-set_param :
    (j k v : Text) (p : Map Text) → get j (set_param k v p) ≡ (if same j k then some v else get j p)
unfolding set_param
get-set_param j k v [] = refl
get-set_param j k v ((i, w) ∷ p) = elim (Bool-cases (same k i)) [
  | inl e ↦ let q = same-≡ k i e in rw (e, ← q) (ground (arith, get-delete_param j k p))
  | inr e ↦ rw e (ground (arith, get-set_param j k v p, same_apart j k i e))
]
