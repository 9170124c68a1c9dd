-- ===== src/Browser/Example.antt =====
-- A browser for tests: parameters are written with marks that no text has, a number as one character.
use xrpl_hive.Base.{
  ℕ, ◌+◌, ◌-◌, ◌≡◌, ◌≢◌, refl, ap, [], ◌∷◌, ◌++◌, Option, none, some, Text, All, All-append,
  append-nil, arith, ◌==◌, if◌then◌else◌, map,
}
use xrpl_hive.Browser.{Browser}
use xrpl_hive.Maps.{Map}

abbrev pub marked : Text → Text
marked = map (λ c. c + 100)

abbrev pub write_params : Map Text → Text
write_params [] = []
write_params ((k, v) ∷ ps) = 1 ∷ (marked k ++ 0 ∷ (marked v ++ write_params ps))

-- The word that is read, the value behind it, and the parameters behind.
abbrev pub Reading : Type 0
Reading = Text × Text × Map Text

abbrev pub read_mark : ℕ → Reading → Reading
read_mark c (w, v, ps) =
    if c == 0 then ([], w, ps) else if c == 1 then ([], [], (w, v) ∷ ps) else ((c - 100) ∷ w, v, ps)

pub read_marks : Text → Reading
read_marks [] = ([], [], [])
read_marks (c ∷ t) = read_mark c (read_marks t)

read_marks-marked :
    (t u : Text)
    → read_marks (marked t ++ u) ≡ (t ++ (read_marks u).0, (read_marks u).1, (read_marks u).2)
unfolding read_marks
read_marks-marked [] u = refl
read_marks-marked (c ∷ t) u = rw (read_marks-marked t u) (ground arith)

pub read_marks-write_params : (ps : Map Text) → read_marks (write_params ps) ≡ ([], [], ps)
unfolding read_marks
read_marks-write_params [] = refl
read_marks-write_params ((k, v) ∷ ps) =
    rw
      (
        read_marks-marked k (0 ∷ (marked v ++ write_params ps)),
        read_marks-marked v (write_params ps),
        read_marks-write_params ps,
        append-nil k,
        append-nil v,
      )
      refl

marked_plain : (t : Text) → All (λ c. c ≢ 35) (marked t)
marked_plain [] = tt
marked_plain (c ∷ t) = (omega arith, marked_plain t)

pub write_params_plain : (ps : Map Text) → All (λ c. c ≢ 35) (write_params ps)
write_params_plain [] = tt
write_params_plain ((k, v) ∷ ps) = (
  omega arith,
  All-append (λ c. c ≢ 35) (marked k) _ (marked_plain k)
      (
        omega arith,
        All-append (λ c. c ≢ 35) (marked v) (write_params ps) (marked_plain v)
            (write_params_plain ps),
      ),
)

abbrev pub read_digit : Text → Option ℕ
read_digit [] = none
read_digit (c ∷ t) = if c == 0 then none else some (c - 1)

pub read_digit_lem : (n : ℕ) → read_digit ((n + 1) ∷ []) ≡ some n
read_digit_lem n = ground arith

unfoldable pub example_browser : Browser
unfolding read_marks
example_browser = record {
  params_text = write_params;
  read_params = λ t. (read_marks t).2;
  read_params_lem = λ ps. ap (λ r. r.2) (read_marks-write_params ps);
  params_text_plain = write_params_plain;
  write = λ n. (n + 1) ∷ [];
  parse_int = read_digit;
  parse_int-write = λ n h. read_digit_lem n;
  escape = λ t. t;
  escape-write = λ n h. refl;
}
