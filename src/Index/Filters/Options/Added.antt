-- ===== src/Index/Filters/Options/Added.antt =====
-- What the options of the client's filter hold after the clients of the rows were added.
use xrpl_hive.Base.{
  Bool, true, ◌||◌, List, [], ◌∷◌, ◌++◌, Text, length, ltb, ltb→lt, lt→ltb, ◌<◌, ◌≡◌, refl, ap, ◌∙◌,
  arith, All, All-append, Bool-cases, inl, inr,
}
use xrpl_hive.Maps.{same, same_refl}
use xrpl_hive.Sorting.{insert_by, sort_by}
use xrpl_hive.Html.{includes}
use xrpl_hive.Index.{join}
use xrpl_hive.Index.Filters.Options.{add_option, add_clients, add_row, collect_rows}

-- What holds of the clients of a row, and of the text of several.
abbrev pub Each : (Text → Type 0) → List Text → Type 0
Each P row = All P row × (1 < length row → P (join row))

All-add_option :
    (P : Text → Type 0) (t : Text) (o : List Text) → P t → All P o → All P (add_option t o)
All-add_option P t o p a = elim (Bool-cases (includes t o)) [
  | inl q ↦ rw q a
  | inr q ↦ rw q (All-append P o (t ∷ []) a (p, tt))
]

All-add_clients :
    (P : Text → Type 0) (row o : List Text) → All P row → All P o → All P (add_clients row o)
unfolding add_clients
All-add_clients P [] o h a = a
All-add_clients P (c ∷ cs) o h a =
    All-add_clients P cs (add_option c o) h.1 (All-add_option P c o h.0 a)

All-add_row : (P : Text → Type 0) (row o : List Text) → Each P row → All P o → All P (add_row row o)
unfolding add_row
All-add_row P row o h a =
    let singles = All-add_clients P row o h.0 a in
    elim (Bool-cases (ltb 1 (length row))) [
      | inl q ↦
          rw q (
            All-add_option P (join row) (add_clients row o) (h.1 (ltb→lt 1 (length row) q)) singles)
      | inr q ↦ rw q singles
    ]

pub All-collect_rows :
    (P : Text → Type 0) (rows : List (List Text)) (o : List Text)
    → All (Each P) rows
    → All P o
    → All P (collect_rows rows o)
unfolding collect_rows
All-collect_rows P [] o h a = a
All-collect_rows P (row ∷ rows) o h a =
    All-collect_rows P rows (add_row row o) h.1 (All-add_row P row o h.0 a)

-- An option stays an option.
unfoldable pub Has : List Text → Text → Type 0
Has o t = includes t o ≡ true

includes-append :
    (x : Text) (o p : List Text) → includes x (o ++ p) ≡ (includes x o || includes x p)
includes-append x [] p = refl
includes-append x (y ∷ o) p = ground (arith, includes-append x o p)

kept_by_add : (x t : Text) (o : List Text) → Has o x → Has (add_option t o) x
unfolding Has
kept_by_add x t o h = ground (arith, includes-append x o (t ∷ []))

added : (t : Text) (o : List Text) → Has (add_option t o) t
unfolding Has
added t o = ground (arith, includes-append t o (t ∷ []), same_refl t)

kept_by_clients : (x : Text) (row o : List Text) → Has o x → Has (add_clients row o) x
unfolding add_clients
kept_by_clients x [] o h = h
kept_by_clients x (c ∷ cs) o h = kept_by_clients x cs (add_option c o) (kept_by_add x c o h)

kept_by_row : (x : Text) (row o : List Text) → Has o x → Has (add_row row o) x
unfolding add_row
kept_by_row x row o h = elim (Bool-cases (ltb 1 (length row))) [
  | inl q ↦ rw q (kept_by_add x (join row) (add_clients row o) (kept_by_clients x row o h))
  | inr q ↦ rw q (kept_by_clients x row o h)
]

kept_by_rows :
    (x : Text) (rows : List (List Text)) (o : List Text) → Has o x → Has (collect_rows rows o) x
unfolding collect_rows
kept_by_rows x [] o h = h
kept_by_rows x (row ∷ rows) o h = kept_by_rows x rows (add_row row o) (kept_by_row x row o h)

pub weaken-All :
    (P Q : Text → Type 0) (xs : List Text) → ((x : Text) → P x → Q x) → All P xs → All Q xs
weaken-All P Q [] f h = tt
weaken-All P Q (x ∷ xs) f h = (f x h.0, weaken-All P Q xs f h.1)

clients_added : (row o : List Text) → All (Has (add_clients row o)) row
unfolding add_clients
clients_added [] o = tt
clients_added (c ∷ cs) o =
    (kept_by_clients c cs (add_option c o) (added c o), clients_added cs (add_option c o))

row_added : (row o : List Text) → Each (Has (add_row row o)) row
unfolding add_row
row_added row o = elim (Bool-cases (ltb 1 (length row))) [
  | inl q ↦ rw q (
    weaken-All (Has (add_clients row o)) (Has (add_option (join row) (add_clients row o))) row
        (λ x h. kept_by_add x (join row) (add_clients row o) h) (clients_added row o),
    λ _. added (join row) (add_clients row o),
  )
  | inr q ↦
      rw q (clients_added row o, λ several. let is_several = lt→ltb 1 (length row) several in cc)
]

pub rows_added :
    (rows : List (List Text)) (o : List Text) → All (Each (Has (collect_rows rows o))) rows
unfolding collect_rows
rows_added [] o = tt
rows_added (row ∷ rows) o =
    let o' = add_row row o in
    let here = row_added row o in
    (
      (
        weaken-All (Has o') (Has (collect_rows rows o')) row (λ x h. kept_by_rows x rows o' h)
            here.0,
        λ several. kept_by_rows (join row) rows o' (here.1 several),
      ),
      rows_added rows o',
    )

includes-insert_by :
    (le : Text → Text → Bool) (x y : Text) (ys : List Text)
    → includes x (insert_by le y ys) ≡ (same x y || includes x ys)
unfolding insert_by
includes-insert_by le x y [] = refl
includes-insert_by le x y (z ∷ zs) = elim (Bool-cases (le y z)) [
  | inl q ↦ rw q refl
  | inr q ↦ rw (q, includes-insert_by le x y zs) (swap (same x z) (same x y) (includes x zs))
]
  where
    swap : (a b c : Bool) → (a || (b || c)) ≡ (b || (a || c))
    swap a b c = ground arith

pub includes-sort_by :
    (le : Text → Text → Bool) (x : Text) (xs : List Text)
    → includes x (sort_by le xs) ≡ includes x xs
unfolding sort_by
includes-sort_by le x [] = refl
includes-sort_by le x (y ∷ ys) =
    includes-insert_by le x y (sort_by le ys) ∙ ap (λ b. same x y || b) (includes-sort_by le x ys)
