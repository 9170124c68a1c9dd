-- ===== src/Suite/Times.antt =====
-- `testSuiteTimes`.
use xrpl_hive.Base.{
  ℕ, Bool, true, false, List, [], ◌∷◌, some, Text, ◌≡◌, refl, if◌then◌else◌, arith, Bool-cases, inl,
  inr, ◌⊎◌, All, sub_ℕ,
}
use xrpl_hive.Suite.{TestCase, SuiteTimes, text_lt, widen, test_suite_times}

text_lt_irrefl : (a : Text) → text_lt a a ≡ false
text_lt_irrefl [] = refl
text_lt_irrefl (x ∷ a) = ground (arith, text_lt_irrefl a)

text_lt_trans : (a b c : Text) → text_lt a b ≡ true → text_lt b c ≡ true → text_lt a c ≡ true
text_lt_trans [] [] c h k = ground arith
text_lt_trans [] (y ∷ b) [] h k = ground arith
text_lt_trans [] (y ∷ b) (z ∷ c) h k = refl
text_lt_trans (x ∷ a) [] c h k = ground arith
text_lt_trans (x ∷ a) (y ∷ b) [] h k = ground arith
text_lt_trans (x ∷ a) (y ∷ b) (z ∷ c) h k = ground (arith, text_lt_trans a b c)

-- Not in front of a text, so not in front of what is in front of it.
text_lt_below : (a b c : Text) → text_lt a b ≡ false → text_lt c b ≡ true → text_lt a c ≡ false
text_lt_below a b c h k = elim (Bool-cases (text_lt a c)) [
  | inl q ↦ let p = text_lt_trans a c b q k in ground arith
  | inr q ↦ q
]

text_lt_above : (a b c : Text) → text_lt b a ≡ false → text_lt b c ≡ true → text_lt c a ≡ false
text_lt_above a b c h k = elim (Bool-cases (text_lt c a)) [
  | inl q ↦ let p = text_lt_trans b c a k q in ground arith
  | inr q ↦ q
]

widen-start :
    (a : Text) (tests : List TestCase) (s e : Text)
    → text_lt a s ≡ false
    → text_lt a (widen tests (s, e)).0 ≡ false
unfolding widen
widen-start a [] s e h = h
widen-start a (t ∷ tests) s e h = widen-start a tests _ _ (elim (Bool-cases (text_lt t.start s)) [
  | inl q ↦ rw q (text_lt_below a s t.start h q)
  | inr q ↦ rw q h
])

widen-end :
    (a : Text) (tests : List TestCase) (s e : Text)
    → text_lt e a ≡ false
    → text_lt (widen tests (s, e)).1 a ≡ false
unfolding widen
widen-end a [] s e h = h
widen-end a (t ∷ tests) s e h = widen-end a tests _ _ (elim (Bool-cases (text_lt e t.end)) [
  | inl q ↦ rw q (text_lt_above a e t.end h q)
  | inr q ↦ rw q h
])

-- A test does not start before a text, nor end after another.
abbrev pub Within : Text → Text → TestCase → Type 0
Within start end t = (text_lt t.start start ≡ false) × (text_lt end t.end ≡ false)

widen-Within :
    (tests : List TestCase) (s e : Text)
    → All (Within (widen tests (s, e)).0 (widen tests (s, e)).1) tests
unfolding widen
widen-Within [] s e = tt
widen-Within (t ∷ tests) s e = (
  (
    widen-start t.start tests _ _ (elim (Bool-cases (text_lt t.start s)) [
      | inl q ↦ rw q (text_lt_irrefl t.start)
      | inr q ↦ rw q q
    ]),
    widen-end t.end tests _ _ (elim (Bool-cases (text_lt e t.end)) [
      | inl q ↦ rw q (text_lt_irrefl t.end)
      | inr q ↦ rw q q
    ]),
  ),
  widen-Within tests _ _,
)

-- A text is one of some texts.
abbrev pub Among : Text → List Text → Type 0
Among a [] = ⊥
Among a (x ∷ xs) = (a ≡ x) ⊎ Among a xs

-- The text chosen from two stands among both.
Among-choice :
    (b : Bool) (a x y : Text) (xs : List Text)
    → Among a ((if b then x else y) ∷ xs)
    → Among a (y ∷ x ∷ xs)
Among-choice true a x y xs h = inr h
Among-choice false a x y xs (inl h) = inl h
Among-choice false a x y xs (inr h) = inr (inr h)

abbrev pub starts : List TestCase → List Text
starts [] = []
starts (t ∷ ts) = t.start ∷ starts ts

abbrev pub ends : List TestCase → List Text
ends [] = []
ends (t ∷ ts) = t.end ∷ ends ts

widen-Among :
    (tests : List TestCase) (s e : Text)
    → Among (widen tests (s, e)).0 (s ∷ starts tests)
      × Among (widen tests (s, e)).1 (e ∷ ends tests)
unfolding widen
widen-Among [] s e = (inl refl, inl refl)
widen-Among (t ∷ tests) s e =
    let h =
      widen-Among tests (if text_lt t.start s then t.start else s)
        (if text_lt e t.end then t.end else e) in
    (
      Among-choice (text_lt t.start s) _ t.start s (starts tests) h.0,
      Among-choice (text_lt e t.end) _ t.end e (ends tests) h.1,
    )

-- The times of a suite that is not empty: no test starts before its start or ends after its end, by
-- the order of the dates as texts, each is the one of a test, and the duration is the time between.
pub test_suite_times-Within :
    (parse : Text → ℕ) (test : TestCase) (tests : List TestCase)
    → (times : SuiteTimes) × (test_suite_times parse (test ∷ tests) ≡ some times)
      × All (Within times.start times.end) (test ∷ tests)
      × Among times.start (starts (test ∷ tests))
      × Among times.end (ends (test ∷ tests))
      × (times.duration ≡ sub_ℕ (parse times.end) (parse times.start))
unfolding test_suite_times
test_suite_times-Within parse test tests =
    let among = widen-Among tests test.start test.end in
    (
      _,
      refl,
      (
        (
          widen-start test.start tests test.start test.end (text_lt_irrefl test.start),
          widen-end test.end tests test.start test.end (text_lt_irrefl test.end),
        ),
        widen-Within tests test.start test.end,
      ),
      among.0,
      among.1,
      refl,
    )
