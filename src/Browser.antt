-- ===== src/Browser.antt =====
-- What cmd/hiveview/assets/lib takes from the browser for its URLs: `URLSearchParams`, `parseInt`,
-- `escape` and the text of a number, with their behaviour; and the parts of a URL.
pub mod Example
use xrpl_hive.Base.{
  ℕ, ◌+◌, ◌<◌, ◌≡◌, ◌≢◌, refl, ap, sym, ◌∙◌, Bool, true, false, List, [], ◌∷◌, ◌++◌, Option, none,
  some, Text, codes, All, arith, ◌==◌, if◌then◌else◌, Bool-cases, inl, inr,
}
use xrpl_hive.Maps.{Map}

-- Numbers up to 2^53 are exact and written in decimals. A result of `parseInt` that is not a number or
-- is negative is `none`.
pub record Browser : Type 0 where
  pub params_text : Map Text → Text
  pub read_params : Text → Map Text
  pub read_params_lem : (ps : Map Text) → read_params (params_text ps) ≡ ps
  pub params_text_plain : (ps : Map Text) → All (λ c. c ≢ 35) (params_text ps)
  pub write : ℕ → Text
  pub parse_int : Text → Option ℕ
  pub parse_int-write : (n : ℕ) → n < 9007199254740992 → parse_int (write n) ≡ some n
  pub escape : Text → Text
  pub escape-write : (n : ℕ) → n < 9007199254740992 → escape (write n) ≡ write n

-- The part of a URL in front of '?' or '#', the query behind '?', and the hash behind '#'.
pub record Location : Type 0 where
  pub page : Text
  pub search : Text
  pub hash : Text

-- A text up to a character, and behind it.
pub cut : ℕ → Text → Text × Text
cut c [] = ([], [])
cut c (x ∷ t) = let rest = cut c t in if x == c then ([], t) else (x ∷ rest.0, rest.1)

unfoldable pub location : Text → Location
unfolding cut
location url =
    let parts = cut 35 url in
    let front = cut 63 parts.0 in record { page = front.0; search = front.1; hash = parts.1 }

pub cut_plain : (c : ℕ) (t : Text) → All (λ x. x ≢ c) t → cut c t ≡ (t, [])
unfolding cut
cut_plain c [] h = refl
cut_plain c (x ∷ t) h = ground (arith, cut_plain c t h.1)

pub cut-append : (c : ℕ) (t u : Text) → All (λ x. x ≢ c) t → cut c (t ++ c ∷ u) ≡ (t, u)
unfolding cut
cut-append c [] u h = ground arith
cut-append c (x ∷ t) u h = ground (arith, cut-append c t u h.1)
