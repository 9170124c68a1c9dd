-- ===== src/Index/Recent.antt =====
-- The sort by start and the limit to five runs.
use xrpl_hive.Base.{
  ℕ, suc, ◌≤◌, List, [], ◌∷◌, ◌++◌, Text, ◌≡◌, refl, ap, ◌∙◌, ◌==◌, leb, if◌then◌else◌, arith,
  Bool-cases, inl, inr, length, length-take, min, take, drop, take-append-drop, All,
  All-append_split,
}
use mathlib.Core.List.{Perm}
use mathlib.Core.List.Perm
use xrpl_hive.Index.{Entry, insert_run, sort_runs, recent_runs}

module _ (time : Text → ℕ) where
  -- A run is not newer than another.
  abbrev pub NotAfter : Entry → Entry → Type 0
  NotAfter x y = time y.start ≤ time x.start

  -- Each run is not newer than the ones in front of it.
  abbrev pub Newest : List Entry → Type 0
  Newest [] = Unit
  Newest (x ∷ xs) = All (NotAfter x) xs × Newest xs

  -- The runs that started at a time.
  abbrev pub at_time : ℕ → List Entry → List Entry
  at_time t [] = []
  at_time t (x ∷ xs) = if time x.start == t then x ∷ at_time t xs else at_time t xs

  All-NotAfter :
      (x y : Entry) (xs : List Entry) → NotAfter x y → All (NotAfter y) xs → All (NotAfter x) xs
  All-NotAfter x y [] h a = tt
  All-NotAfter x y (z ∷ xs) h a = (omega arith, All-NotAfter x y xs h a.1)

  All-insert_run :
      (x e : Entry) (xs : List Entry)
      → NotAfter x e
      → All (NotAfter x) xs
      → All (NotAfter x) (insert_run time e xs)
  unfolding insert_run
  All-insert_run x e [] h a = (h, tt)
  All-insert_run x e (y ∷ ys) h a = elim (Bool-cases (leb (time y.start) (time e.start))) [
    | inl q ↦ rw q (h, a)
    | inr q ↦ rw q (a.0, All-insert_run x e ys h a.1)
  ]

  insert_run-Newest : (e : Entry) (xs : List Entry) → Newest xs → Newest (insert_run time e xs)
  unfolding insert_run
  insert_run-Newest e [] h = (tt, tt)
  insert_run-Newest e (x ∷ xs) h = elim (Bool-cases (leb (time x.start) (time e.start))) [
    | inl q ↦ let le : NotAfter e x = ground arith in rw q ((le, All-NotAfter e x xs le h.0), h)
    | inr q ↦
        let le : NotAfter x e = ground arith in
        rw q (All-insert_run x e xs le h.0, insert_run-Newest e xs h.1)
  ]

  sort_runs-Newest : (xs : List Entry) → Newest (sort_runs time xs)
  unfolding sort_runs
  sort_runs-Newest [] = tt
  sort_runs-Newest (x ∷ xs) = insert_run-Newest x (sort_runs time xs) (sort_runs-Newest xs)

  insert_run-Perm : (e : Entry) (xs : List Entry) → Perm (insert_run time e xs) (e ∷ xs)
  unfolding insert_run
  insert_run-Perm e [] = Perm.refl (e ∷ [])
  insert_run-Perm e (x ∷ xs) = elim (Bool-cases (leb (time x.start) (time e.start))) [
    | inl q ↦ rw q (Perm.refl (e ∷ x ∷ xs))
    | inr q ↦ rw q (Perm.trans (Perm.cons x (insert_run-Perm e xs)) (Perm.swap e x xs))
  ]

  sort_runs-Perm : (xs : List Entry) → Perm (sort_runs time xs) xs
  unfolding sort_runs
  sort_runs-Perm [] = Perm.refl []
  sort_runs-Perm (x ∷ xs) =
      Perm.trans (insert_run-Perm x (sort_runs time xs)) (Perm.cons x (sort_runs-Perm xs))

  at_time-insert_run :
      (t : ℕ) (e : Entry) (xs : List Entry) → at_time t (insert_run time e xs) ≡ at_time t (e ∷ xs)
  unfolding insert_run
  at_time-insert_run t e [] = refl
  at_time-insert_run t e (x ∷ xs) = ground (arith, at_time-insert_run t e xs)

  at_time-sort_runs : (t : ℕ) (xs : List Entry) → at_time t (sort_runs time xs) ≡ at_time t xs
  unfolding sort_runs
  at_time-sort_runs t [] = refl
  at_time-sort_runs t (x ∷ xs) =
      at_time-insert_run t x (sort_runs time xs) ∙ ground (arith, at_time-sort_runs t xs)

  -- In runs by their start, none of the later ones is newer than one of the first.
  Newest-split :
      (xs ys : List Entry) → Newest (xs ++ ys) → Newest xs × All (λ x. All (NotAfter x) ys) xs
  Newest-split [] ys h = (tt, tt)
  Newest-split (x ∷ xs) ys h =
      let (inside, behind) = All-append_split (NotAfter x) xs ys h.0 in
      let (sorted, apart) = Newest-split xs ys h.1 in ((inside, sorted), (behind, apart))

  length-insert_run :
      (e : Entry) (xs : List Entry) → length (insert_run time e xs) ≡ suc (length xs)
  unfolding insert_run
  length-insert_run e [] = refl
  length-insert_run e (x ∷ xs) = ground (arith, length-insert_run e xs)

  length-sort_runs : (xs : List Entry) → length (sort_runs time xs) ≡ length xs
  unfolding sort_runs
  length-sort_runs [] = refl
  length-sort_runs (x ∷ xs) = length-insert_run x (sort_runs time xs) ∙ ap suc (length-sort_runs xs)

  -- The runs that the page shows for a group are five, or all if there are fewer, the newest in front;
  -- the others are the rest of the group, and none of them is newer than a run that is shown. Runs that
  -- started at the same time keep the order of the listing.
  pub recent_runs-Newest :
      (runs : List Entry)
      → (rest : List Entry) × Perm (recent_runs time runs ++ rest) runs
        × (length (recent_runs time runs) ≡ min 5 (length runs))
        × Newest (recent_runs time runs)
        × All (λ x. All (NotAfter x) rest) (recent_runs time runs)
        × ((t : ℕ) → at_time t (recent_runs time runs ++ rest) ≡ at_time t runs)
  unfolding recent_runs
  recent_runs-Newest runs =
      let sorted = sort_runs time runs in
      let cut : take 5 sorted ++ drop 5 sorted ≡ sorted = take-append-drop 5 sorted in
      let order = Newest-split (take 5 sorted) (drop 5 sorted) (rw cut (sort_runs-Newest runs)) in
      (
        drop 5 sorted,
        rw cut (sort_runs-Perm runs),
        length-take 5 sorted ∙ ap (min 5) (length-sort_runs runs),
        order.0,
        order.1,
        λ t. rw cut (at_time-sort_runs t runs),
      )
