-- ===== src/Sorting.antt =====
-- `Array.prototype.sort` with a comparison that is consistent: a stable sort.
use xrpl_hive.Base.{
  Bool, true, false, List, [], ◌∷◌, ◌≡◌, ◌⊎◌, if◌then◌else◌, All, Bool-cases, inl, inr, refl, ap,
  ◌∙◌,
}
use mathlib.Core.List.{Perm}
use mathlib.Core.List.Perm

module _ {ℓ} {A : Type ℓ} (le : A → A → Bool) where
  -- An item is put in front of the first that it may stand in front of.
  unfoldable pub insert_by : A → List A → List A
  insert_by x [] = x ∷ []
  insert_by x (y ∷ ys) = if le x y then x ∷ y ∷ ys else y ∷ insert_by x ys

  unfoldable pub sort_by : List A → List A
  unfolding insert_by
  sort_by [] = []
  sort_by (x ∷ xs) = insert_by x (sort_by xs)

  -- Each item may stand in front of those behind it.
  abbrev pub Ordered : List A → Type 0
  Ordered [] = Unit
  Ordered (x ∷ xs) = All (λ y. le x y ≡ true) xs × Ordered xs

  insert_by-Perm : (x : A) (xs : List A) → Perm (insert_by x xs) (x ∷ xs)
  unfolding insert_by
  insert_by-Perm x [] = Perm.refl (x ∷ [])
  insert_by-Perm x (y ∷ ys) = elim (Bool-cases (le x y)) [
    | inl q ↦ rw q (Perm.refl (x ∷ y ∷ ys))
    | inr q ↦ rw q (Perm.trans (Perm.cons y (insert_by-Perm x ys)) (Perm.swap x y ys))
  ]

  pub sort_by-Perm : (xs : List A) → Perm (sort_by xs) xs
  unfolding sort_by
  sort_by-Perm [] = Perm.refl []
  sort_by-Perm (x ∷ xs) = Perm.trans (insert_by-Perm x (sort_by xs)) (Perm.cons x (sort_by-Perm xs))

  -- What holds of every item holds after the sort.
  All-insert_by : (P : A → Type 0) (x : A) (xs : List A) → P x → All P xs → All P (insert_by x xs)
  unfolding insert_by
  All-insert_by P x [] p a = (p, tt)
  All-insert_by P x (y ∷ ys) p a = elim (Bool-cases (le x y)) [
    | inl q ↦ rw q (p, a)
    | inr q ↦ rw q (a.0, All-insert_by P x ys p a.1)
  ]

  pub All-sort_by : (P : A → Type 0) (xs : List A) → All P xs → All P (sort_by xs)
  unfolding sort_by
  All-sort_by P [] a = tt
  All-sort_by P (x ∷ xs) a = All-insert_by P x (sort_by xs) a.0 (All-sort_by P xs a.1)

  -- Items that may all stand in front of each other stay as they are.
  pub sort_by-unordered : ((x y : A) → le x y ≡ true) → (xs : List A) → sort_by xs ≡ xs
  unfolding sort_by insert_by
  sort_by-unordered every [] = refl
  sort_by-unordered every (x ∷ xs) = ap (insert_by x) (sort_by-unordered every xs) ∙ kept x xs
    where
      kept : (x : A) (ys : List A) → insert_by x ys ≡ x ∷ ys
      kept x [] = refl
      kept x (y ∷ ys) = rw (every x y) refl

  module _ (total : (x y : A) → (le x y ≡ true) ⊎ (le y x ≡ true))
      (trans : (x y z : A) → le x y ≡ true → le y z ≡ true → le x z ≡ true) where
    All-behind :
        (x y : A) (ys : List A)
        → le x y ≡ true
        → All (λ z. le y z ≡ true) ys
        → All (λ z. le x z ≡ true) ys
    All-behind x y [] h a = tt
    All-behind x y (z ∷ zs) h a = (trans x y z h a.0, All-behind x y zs h a.1)

    insert_by-Ordered : (x : A) (xs : List A) → Ordered xs → Ordered (insert_by x xs)
    unfolding insert_by
    insert_by-Ordered x [] o = (tt, tt)
    insert_by-Ordered x (y ∷ ys) o = elim (Bool-cases (le x y)) [
      | inl q ↦ rw q ((q, All-behind x y ys q o.0), o)
      | inr q ↦ rw q (
        All-insert_by (λ z. le y z ≡ true) x ys (other q (total x y)) o.0,
        insert_by-Ordered x ys o.1,
      )
    ]
      where
        other : le x y ≡ false → ((le x y ≡ true) ⊎ (le y x ≡ true)) → le y x ≡ true
        other q (inl p) = cc
        other q (inr p) = p

    pub sort_by-Ordered : (xs : List A) → Ordered (sort_by xs)
    unfolding sort_by
    sort_by-Ordered [] = tt
    sort_by-Ordered (x ∷ xs) = insert_by-Ordered x (sort_by xs) (sort_by-Ordered xs)
