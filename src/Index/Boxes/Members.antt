-- ===== src/Index/Boxes/Members.antt =====
-- Lists that are related item by item, and what stands in a sorted list and in a map.
use xrpl_hive.Base.{
  Bool, true, List, [], ◌∷◌, some, Text, map, ◌≡◌, refl, ap, sym, ◌∙◌, All, Bool-cases, inl, inr,
  some_inj,
}
use mathlib.Core.Path.{subst}
use mathlib.Core.List.{Memᴰ}
use xrpl_hive.Sorting.{sort_by, insert_by, Ordered}
use xrpl_hive.Maps.{same, same-≡, Map, get}
use xrpl_hive.Index.Boxes.Display.{Pointwise}

pub Pointwise-All {ℓ κ} :
    {A : Type ℓ} {B : Type κ} (R : A → B → Type 0) (P : A → Type 0) (Q : B → Type 0) (xs : List A)
    (ys : List B)
    → ((x : A) (y : B) → P x → R x y → Q y)
    → All P xs
    → Pointwise R xs ys
    → All Q ys
Pointwise-All R P Q [] [] each a p = tt
Pointwise-All R P Q [] (y ∷ ys) each a p = absurd p
Pointwise-All R P Q (x ∷ xs) [] each a p = absurd p
Pointwise-All R P Q (x ∷ xs) (y ∷ ys) each a p =
    (each x y a.0 p.0, Pointwise-All R P Q xs ys each a.1 p.1)

pub Pointwise-Mem {ℓ κ} :
    {A : Type ℓ} {B : Type κ} (R : A → B → Type 0) (x : A) (xs : List A) (ys : List B)
    → Memᴰ x xs
    → Pointwise R xs ys
    → (y : B) × Memᴰ y ys × R x y
Pointwise-Mem R x [] ys m p = elim m [ ]
Pointwise-Mem R x (z ∷ xs) [] m p = absurd p
Pointwise-Mem R x (z ∷ xs) (y ∷ ys) (Memᴰ.head e) p =
    (y, Memᴰ.head refl, subst (λ w. R w y) (sym e) p.0)
Pointwise-Mem R x (z ∷ xs) (y ∷ ys) (Memᴰ.tail m) p =
    let (w, n, r) = Pointwise-Mem R x xs ys m p.1 in (w, Memᴰ.tail n, r)

pub Pointwise-map {ℓ κ} :
    {A : Type ℓ} {B : Type κ} (R : A → B → Type 0) (f : A → Text) (g : B → Text) (xs : List A)
    (ys : List B)
    → ((x : A) (y : B) → R x y → g y ≡ f x)
    → Pointwise R xs ys
    → map g ys ≡ map f xs
Pointwise-map R f g [] [] each p = refl
Pointwise-map R f g [] (y ∷ ys) each p = absurd p
Pointwise-map R f g (x ∷ xs) [] each p = absurd p
Pointwise-map R f g (x ∷ xs) (y ∷ ys) each p =
    rw (each x y p.0, Pointwise-map R f g xs ys each p.1) refl

module _ {A : Type 0} (le : A → A → Bool) where
  Mem-insert_by : (x y : A) (ys : List A) → Memᴰ x (y ∷ ys) → Memᴰ x (insert_by le y ys)
  unfolding insert_by
  Mem-insert_by x y [] m = m
  Mem-insert_by x y (z ∷ ys) m = elim (Bool-cases (le y z)) [
    | inl q ↦ rw (insert_by, q) m
    | inr q ↦ rw (insert_by, q) (pushed (Mem-insert_by x y ys) m)
  ]
    where
      pushed :
          (Memᴰ x (y ∷ ys) → Memᴰ x (insert_by le y ys))
          → Memᴰ x (y ∷ z ∷ ys)
          → Memᴰ x (z ∷ insert_by le y ys)
      pushed rest (Memᴰ.head e) = Memᴰ.tail (rest (Memᴰ.head e))
      pushed rest (Memᴰ.tail (Memᴰ.head e)) = Memᴰ.head e
      pushed rest (Memᴰ.tail (Memᴰ.tail m)) = Memᴰ.tail (rest (Memᴰ.tail m))

  pub Mem-sort_by : (x : A) (xs : List A) → Memᴰ x xs → Memᴰ x (sort_by le xs)
  unfolding sort_by
  Mem-sort_by x [] m = m
  Mem-sort_by x (y ∷ xs) (Memᴰ.head e) = Mem-insert_by x y (sort_by le xs) (Memᴰ.head e)
  Mem-sort_by x (y ∷ xs) (Memᴰ.tail m) =
      Mem-insert_by x y (sort_by le xs) (Memᴰ.tail (Mem-sort_by x xs m))

pub Mem-get : {V : Type 0} (k : Text) (v : V) (m : Map V) → get k m ≡ some v → Memᴰ (k, v) m
Mem-get k v [] e = cc
Mem-get k v ((j, w) ∷ m) e = elim (Bool-cases (same k j)) [
  | inl q ↦
      let f : some w ≡ some v = rw q at e in
      Memᴰ.head (ap (λ t. (t, v)) (same-≡ k j q) ∙ ap (λ u. (j, u)) (sym (some_inj f)))
  | inr q ↦ Memᴰ.tail (Mem-get k v m (rw q at e))
]

pub Ordered-map :
    {A : Type 0} (le : Text → Text → Bool) (f : A → Text) (xs : List A)
    → Ordered (λ x y. le (f x) (f y)) xs
    → Ordered le (map f xs)
Ordered-map le f [] o = tt
Ordered-map {A = A} le f (x ∷ xs) o = (behind xs o.0, Ordered-map le f xs o.1)
  where
    behind :
        (ys : List A)
        → All (λ y. le (f x) (f y) ≡ true) ys
        → All (λ t. le (f x) t ≡ true) (map f ys)
    behind [] a = tt
    behind (y ∷ ys) a = (a.0, behind ys a.1)
