-- ===== src/Index/Filters/Options/Search.antt =====
-- The search for a client, or for a combination of clients.
use xrpl_hive.Base.{
  true, false, List, [], ◌∷◌, ◌++◌, Text, ◌≡◌, ◌≢◌, ◌↔◌, refl, ap, sym, ◌∙◌, arith, All,
}
use xrpl_hive.Maps.{same_refl, same-≡}
use xrpl_hive.Html.{includes}
use xrpl_hive.Index.{join}
use xrpl_hive.Index.Filters.Options.{split_commas, has_comma, row_matches}

-- The name of a client: not empty, and without a comma.
abbrev pub Name : Text → Type 0
Name t = (t ≢ []) × All (λ c. c ≢ 44) t

has_comma-Name : (t : Text) → All (λ c. c ≢ 44) t → has_comma t ≡ false
has_comma-Name [] h = refl
has_comma-Name (c ∷ t) h = ground (arith, has_comma-Name t h.1)

split_last : (t : Text) → All (λ c. c ≢ 44) t → split_commas t ≡ t ∷ []
unfolding split_commas
split_last [] h = refl
split_last (c ∷ t) h = ground (arith, split_last t h.1)

split_part :
    (t rest : Text) → All (λ c. c ≢ 44) t → split_commas (t ++ 44 ∷ rest) ≡ t ∷ split_commas rest
unfolding split_commas
split_part [] rest h = refl
split_part (c ∷ t) rest h = ground (arith, split_part t rest h.1)

-- Names that are joined by commas can be read back.
pub split_commas-join :
    (t : Text) (ts : List Text) → All Name (t ∷ ts) → split_commas (join (t ∷ ts)) ≡ t ∷ ts
unfolding join
split_commas-join t [] h = split_last t h.0.1
split_commas-join t (u ∷ ts) h =
    split_part t (join (u ∷ ts)) h.0.1 ∙ ap (λ r. t ∷ r) (split_commas-join u ts h.1)

has_comma-join : (t u : Text) (ts : List Text) → has_comma (join (t ∷ u ∷ ts)) ≡ true
unfolding join
has_comma-join t u ts = in_middle t (join (u ∷ ts))
  where
    in_middle : (t rest : Text) → has_comma (t ++ 44 ∷ rest) ≡ true
    in_middle [] rest = refl
    in_middle (c ∷ t) rest = ground (arith, in_middle t rest)

-- Texts of several names that are the same are of the same names.
join_inj :
    (clients : List Text) (t u : Text) (ts : List Text)
    → All Name clients
    → All Name (t ∷ u ∷ ts)
    → join clients ≡ join (t ∷ u ∷ ts)
    → clients ≡ t ∷ u ∷ ts
unfolding join
join_inj [] t u ts names h e =
    let no : has_comma [] ≡ true = ap has_comma e ∙ has_comma-join t u ts in absurd (ground arith)
join_inj (c ∷ cs) t u ts names h e =
    sym (split_commas-join c cs names) ∙ ap split_commas e ∙ split_commas-join t (u ∷ ts) h

includes-split :
    (v : Text) (clients : List Text)
    → Name v
    → All Name clients
    → includes v (split_commas (join clients)) ≡ includes v clients
unfolding join split_commas
includes-split [] clients h names = absurd (h.0 refl)
includes-split (c ∷ v) [] h names = refl
includes-split (c ∷ v) (t ∷ ts) h names = ap (includes (c ∷ v)) (split_commas-join t ts names)

-- On rows of names, a name is searched among the clients of a row, and the text of several names finds
-- exactly the rows with these clients in this order.
pub row_matches-Names :
    (clients : List Text)
    → All Name clients
    → ((v : Text) → Name v → row_matches v clients ≡ includes v clients)
      × ((t u : Text) (ts : List Text)
          → All Name (t ∷ u ∷ ts)
          → (row_matches (join (t ∷ u ∷ ts)) clients ≡ true) ↔ (clients ≡ t ∷ u ∷ ts))
unfolding row_matches
row_matches-Names clients names = (single, several)
  where
    single : (v : Text) → Name v → row_matches v clients ≡ includes v clients
    single v h = rw (has_comma-Name v h.1) (includes-split v clients h names)

    several :
        (t u : Text) (ts : List Text)
        → All Name (t ∷ u ∷ ts)
        → (row_matches (join (t ∷ u ∷ ts)) clients ≡ true) ↔ (clients ≡ t ∷ u ∷ ts)
    several t u ts h = rw (has_comma-join t u ts) (
      λ e. join_inj clients t u ts names h (same-≡ (join clients) (join (t ∷ u ∷ ts)) e),
      λ e. rw e (same_refl (join (t ∷ u ∷ ts))),
    )
