-- ===== src/Index/Filters/Options/Found.antt =====
-- The options of the client's filter: each finds a row, and no client is left out.
use mathlib.Core.List.{Memᴰ}
use xrpl_hive.Base.{
  Bool, true, List, [], ◌∷◌, Text, length, ◌<◌, ◌≡◌, ◌≢◌, refl, ◌∙◌, arith, All, Bool-cases, inl,
  inr,
}
use xrpl_hive.Maps.{same_refl}
use xrpl_hive.Sorting.{sort_by, All-sort_by}
use xrpl_hive.Html.{includes}
use xrpl_hive.Index.{join}
use xrpl_hive.Index.Filters.Options.{collect_rows, client_options, row_matches, search_client}
use xrpl_hive.Index.Filters.Options.Search.{Name, row_matches-Names}
use xrpl_hive.Index.Filters.Options.Added.{
  Each, All-collect_rows, weaken-All, rows_added, includes-sort_by, Has,
}

not_nil : (row : List Text) (rows : List (List Text)) → row ∷ rows ≢ []
not_nil row rows e = cc

finds :
    (t : Text) (row : List Text) (rows : List (List Text))
    → Memᴰ row rows
    → row_matches t row ≡ true
    → search_client t rows ≢ []
unfolding search_client
finds t row [] m h = elim m [ ]
finds t row (x ∷ rows) (Memᴰ.head e) h =
    let here : row_matches t x ≡ true = rw e at h in rw here (not_nil x (search_client t rows))
finds t row (x ∷ rows) (Memᴰ.tail m) h = elim (Bool-cases (row_matches t x)) [
  | inl q ↦ rw q (not_nil x (search_client t rows))
  | inr q ↦ rw q (finds t row rows m h)
]

All-includes : (xs : List Text) → All (λ x. includes x xs ≡ true) xs
All-includes [] = tt
All-includes (x ∷ xs) = (
  ground (arith, same_refl x),
  weaken-All (λ y. includes y xs ≡ true) (λ y. includes y (x ∷ xs) ≡ true) xs (λ y h. ground arith)
      (All-includes xs),
)

-- A search for each client of a row, and for the text of several, finds the row.
row_found : (row : List Text) → All Name row → Each (λ t. row_matches t row ≡ true) row
row_found row names = (singles row (All-includes row) names, several row names)
  where
    singles :
        (xs : List Text)
        → All (λ x. includes x row ≡ true) xs
        → All Name xs
        → All (λ t. row_matches t row ≡ true) xs
    singles [] h k = tt
    singles (x ∷ xs) h k = ((row_matches-Names row names).0 x k.0 ∙ h.0, singles xs h.1 k.1)

    several : (row : List Text) → All Name row → 1 < length row → row_matches (join row) row ≡ true
    several [] names h = absurd (omega arith)
    several (t ∷ []) names h = absurd (omega arith)
    several (t ∷ u ∷ ts) names h = ((row_matches-Names (t ∷ u ∷ ts) names).1 t u ts names).1 refl

rows_found :
    (all rows : List (List Text))
    → ((row : List Text) → Memᴰ row rows → Memᴰ row all)
    → All (All Name) rows
    → All (Each (λ t. search_client t all ≢ [])) rows
rows_found all [] sub names = tt
rows_found all (row ∷ rows) sub names =
    let in_all = sub row (Memᴰ.head refl) in
    let found = row_found row names.0 in
    (
      (
        weaken-All (λ t. row_matches t row ≡ true) (λ t. search_client t all ≢ []) row
            (λ t h. finds t row all in_all h) found.0,
        λ several. finds (join row) row all in_all (found.1 several),
      ),
      rows_found all rows (λ r m. sub r (Memᴰ.tail m)) names.1,
    )

module _ (minus_x_days trim : Text → Text) (text_le : Text → Text → Bool) where
  -- For rows of clients with names, each option of the client's filter finds a row, and the options have
  -- each client of each row, and the text of the clients of each row that has several.
  pub client_options-Each :
      (rows : List (List Text))
      → All (All Name) rows
      → (let options = client_options minus_x_days trim text_le rows in
          All (λ t. search_client t rows ≢ []) options
          × All (Each (λ t. includes t options ≡ true)) rows)
  unfolding client_options Has
  client_options-Each rows names =
      let o = collect_rows rows [] in
      (
        All-sort_by text_le (λ t. search_client t rows ≢ []) o
            (All-collect_rows (λ t. search_client t rows ≢ []) rows []
              (rows_found rows rows (λ r m. m) names) tt),
        each_sorted rows (rows_added rows []),
      )
    where
      each_sorted :
          (rs : List (List Text))
          → All (Each (λ t. includes t (collect_rows rows []) ≡ true)) rs
          → All (Each (λ t. includes t (sort_by text_le (collect_rows rows [])) ≡ true)) rs
      each_sorted [] h = tt
      each_sorted (r ∷ rs) h =
          let o = collect_rows rows [] in
          (
            (
              weaken-All (λ t. includes t o ≡ true) (λ t. includes t (sort_by text_le o) ≡ true) r
                  (λ t k. includes-sort_by text_le t o ∙ k) h.0.0,
              λ several. includes-sort_by text_le (join r) o ∙ h.0.1 several,
            ),
            each_sorted rs h.1,
          )
