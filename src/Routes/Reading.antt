-- ===== src/Routes/Reading.antt =====
-- The parameters that a page reads from a URL of routes.js are the ones that were written.
use xrpl_hive.Base.{◌≡◌, ◌≢◌, refl, [], ◌∷◌, ◌++◌, Text, All, All-append, arith}
use xrpl_hive.Browser.{Browser, location, cut_plain, cut-append}
use xrpl_hive.Maps.{Map}

module _ (b : Browser) where
  -- A page, a query without a hash, and one with a hash.
  pub location-query :
      (page : Text) (ps : Map Text)
      → All (λ c. c ≢ 35) page
      → All (λ c. c ≢ 63) page
      → location (page ++ 63 ∷ b.params_text ps)
        ≡ record { page = page; search = b.params_text ps; hash = [] }
  unfolding location
  location-query page ps h k =
      let url : All (λ c. c ≢ 35) (page ++ 63 ∷ b.params_text ps) =
        All-append (λ c. c ≢ 35) page (63 ∷ b.params_text ps) h
          (omega arith, b.params_text_plain ps) in
      rw (cut_plain 35 (page ++ 63 ∷ b.params_text ps) url, cut-append 63 page (b.params_text ps) k)
        refl

  pub location-query_hash :
      (page hash : Text) (ps : Map Text)
      → All (λ c. c ≢ 35) page
      → All (λ c. c ≢ 63) page
      → location ((page ++ 63 ∷ b.params_text ps) ++ 35 ∷ hash)
        ≡ record { page = page; search = b.params_text ps; hash = hash }
  unfolding location
  location-query_hash page hash ps h k =
      let url : All (λ c. c ≢ 35) (page ++ 63 ∷ b.params_text ps) =
        All-append (λ c. c ≢ 35) page (63 ∷ b.params_text ps) h
          (omega arith, b.params_text_plain ps) in
      rw
        (
          cut-append 35 (page ++ 63 ∷ b.params_text ps) hash url,
          cut-append 63 page (b.params_text ps) k,
        )
        refl
