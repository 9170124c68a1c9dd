-- ===== src/Index/Summary/Moves.antt =====
-- The keys move the selection by one box.
use xrpl_hive.Base.{
  ℕ, zero, suc, ◌+◌, ◌-◌, ◌<◌, ◌≡◌, refl, ap, ◌∙◌, Bool, true, false, List, [], ◌∷◌, Option, none,
  some, Text, codes, map, length, get_elem?, ltb, if◌then◌else◌, arith, Bool-cases, inl, inr,
  length-map, some_inj,
}
use mathlib.Core.List.{map-append}
use xrpl_hive.Maps.{same_refl}
use xrpl_hive.Index.Boxes.{Dates, ClientBox, SuiteBox}
use xrpl_hive.Index.Summary.{
  Summary, select_suites, select_clients, is_box, filter_suite_and_client, KeyEvent, first_true,
  next_index, client_boxes, act, click_box, on_key, press_key, do_action,
}

-- The key Ctrl with an arrow.
abbrev pub arrow : Text → KeyEvent
arrow name = record { key = name; typing = false; cmd = true }

abbrev pub right : KeyEvent
right = arrow (codes "ArrowRight")

abbrev pub left : KeyEvent
left = arrow (codes "ArrowLeft")

-- The first box that is selected.
abbrev pub selection : Summary → Option ℕ
selection s = first_true (map (λ (c : ClientBox). c.selected) (client_boxes s.boxes))

-- No two boxes have both the suite and the client in common.
abbrev pub Apart : List ClientBox → Type 0
Apart boxes =
    (i j : ℕ) (c d : ClientBox)
    → get_elem? boxes i ≡ some c
    → get_elem? boxes j ≡ some d
    → is_box c.suite c.client d ≡ true
    → i ≡ j

first_true-map :
    (p : ClientBox → Bool) (xs : List ClientBox) (i : ℕ) (x : ClientBox)
    → get_elem? xs i ≡ some x
    → p x ≡ true
    → ((j : ℕ) (y : ClientBox) → get_elem? xs j ≡ some y → p y ≡ true → i ≡ j)
    → first_true (map p xs) ≡ some i
first_true-map p [] i x e q only = cc
first_true-map p (y ∷ xs) zero x e q only = let t : p y ≡ true = ap p (some_inj e) ∙ q in rw t refl
first_true-map p (y ∷ xs) (suc i) x e q only = elim (Bool-cases (p y)) [
  | inl t ↦ absurd (omega (arith, only 0 y refl t))
  | inr f ↦ rw (f, first_true-map p xs i x e q (λ j z h k. omega (arith, only (suc j) z h k))) refl
]

abbrev choose : (ClientBox → Bool) → ClientBox → ClientBox
choose chosen c = record c { selected = chosen c }

client_boxes-select :
    (title : Text) (chosen : ClientBox → Bool) (boxes : List SuiteBox)
    → client_boxes (select_suites title (select_clients chosen boxes))
      ≡ map (choose chosen) (client_boxes boxes)
unfolding select_suites select_clients
client_boxes-select title chosen [] = refl
client_boxes-select title chosen (box ∷ boxes) =
    rw
      (
        client_boxes-select title chosen boxes,
        map-append (choose chosen) box.boxes (client_boxes boxes),
      )
      refl

map-choose :
    (chosen : ClientBox → Bool) (xs : List ClientBox)
    → map (λ (c : ClientBox). c.selected) (map (choose chosen) xs) ≡ map chosen xs
map-choose chosen [] = refl
map-choose chosen (x ∷ xs) = ap (λ ys. chosen x ∷ ys) (map-choose chosen xs)

get_elem?-choose :
    (chosen : ClientBox → Bool) (xs : List ClientBox) (i : ℕ) (c : ClientBox)
    → get_elem? (map (choose chosen) xs) i ≡ some c
    → (d : ClientBox) × (get_elem? xs i ≡ some d) × (d.suite ≡ c.suite) × (d.client ≡ c.client)
get_elem?-choose chosen [] i c e = cc
get_elem?-choose chosen (x ∷ xs) zero c e = (
  x,
  refl,
  ap (λ (b : ClientBox). b.suite) (some_inj e),
  ap (λ (b : ClientBox). b.client) (some_inj e),
)
get_elem?-choose chosen (x ∷ xs) (suc i) c e = get_elem?-choose chosen xs i c e

Apart-choose :
    (chosen : ClientBox → Bool) (xs : List ClientBox) → Apart xs → Apart (map (choose chosen) xs)
Apart-choose chosen xs a i j c d e f q =
    let (c', e', p, r) = get_elem?-choose chosen xs i c e in
    let (d', f', p', r') = get_elem?-choose chosen xs j d f in
    a i j c' d' e' f' (rw (p, r, p', r') q)

get_elem?-lt {ℓ} :
    {A : Type ℓ} (xs : List A) (i : ℕ) → i < length xs → (x : A) × (get_elem? xs i ≡ some x)
get_elem?-lt [] i l = absurd (omega (arith, l))
get_elem?-lt (x ∷ xs) zero l = (x, refl)
get_elem?-lt (x ∷ xs) (suc i) l = get_elem?-lt xs i (omega (arith, l))

next_index-right :
    (bs : List Bool) (i : ℕ)
    → first_true bs ≡ some i
    → suc i < length bs
    → next_index false bs ≡ some (suc i)
unfolding next_index
next_index-right bs i h l = rw (next_index, h) (behind (length bs) l)
  where
    behind : (n : ℕ) → suc i < n → (if ltb (i + 1) n then some (i + 1) else none) ≡ some (suc i)
    behind n k = ground arith

next_index-left :
    (bs : List Bool) (i : ℕ) → first_true bs ≡ some (suc i) → next_index true bs ≡ some i
unfolding next_index
next_index-left bs i h = rw (next_index, h) before
  where
    before : (if ltb 0 (suc i) then some (suc i - 1) else none) ≡ some i
    before = ground arith

module _ (minus_x_days : Text → Text) where
  -- A click on the box at an index selects it and no other.
  click_box-selection :
      (s : Summary) (i : ℕ) (c : ClientBox)
      → Apart (client_boxes s.boxes)
      → get_elem? (client_boxes s.boxes) i ≡ some c
      → (let s' = filter_suite_and_client minus_x_days c.suite c.client s in
          (selection s' ≡ some i)
          × Apart (client_boxes s'.boxes)
          × (client_boxes s'.boxes ≡ map (choose (is_box c.suite c.client)) (client_boxes s.boxes)))
  unfolding filter_suite_and_client
  click_box-selection s i c a e =
      let chosen = is_box c.suite c.client in
      let q = client_boxes-select c.suite chosen s.boxes in
      (
        ap (λ xs. first_true (map (λ (c : ClientBox). c.selected) xs)) q
            ∙ ap first_true (map-choose chosen (client_boxes s.boxes))
            ∙ first_true-map chosen (client_boxes s.boxes) i c e
                (rw (same_refl c.suite, same_refl c.client) refl) (λ j d f h. a i j c d e f h),
        rw q (Apart-choose chosen (client_boxes s.boxes) a),
        q,
      )

  module _ (locale_le : Text → Text → Bool) (dates : Dates) where
    press_box :
        (e : KeyEvent) (s : Summary) (i : ℕ) (c : ClientBox)
        → on_key e s ≡ click_box i
        → get_elem? (client_boxes s.boxes) i ≡ some c
        → press_key locale_le dates minus_x_days e s
          ≡ some (filter_suite_and_client minus_x_days c.suite c.client s)
    unfolding press_key do_action
    press_box e s i c h f = rw (h, do_action, f) refl

    -- A box is selected, and it is not the last. No two boxes have the suite and the client in common.
    -- Then Ctrl and the right arrow select the box behind it, and Ctrl and the left arrow, pressed next,
    -- select it again.
    pub press_key-selection :
        (s : Summary) (i : ℕ)
        → Apart (client_boxes s.boxes)
        → selection s ≡ some i
        → suc i < length (client_boxes s.boxes)
        → (s' : Summary) × (press_key locale_le dates minus_x_days right s ≡ some s')
          × (selection s' ≡ some (suc i))
          × ((s'' : Summary) × (press_key locale_le dates minus_x_days left s' ≡ some s'')
              × (selection s'' ≡ some i))
    unfolding on_key
    press_key-selection s i a h l =
        let xs = client_boxes s.boxes in
        let flags = map (λ (c : ClientBox). c.selected) in
        let (c, e) = get_elem?-lt xs (suc i) l in
        let (h', a', q) = click_box-selection s (suc i) c a e in
        let s' = filter_suite_and_client minus_x_days c.suite c.client s in
        let n : i < length (client_boxes s'.boxes) =
          rw q (omega (arith, l, length-map (choose (is_box c.suite c.client)) xs)) in
        let (d, f) = get_elem?-lt (client_boxes s'.boxes) i n in
        (
          s',
          press_box right s (suc i) c
              (ap (act click_box) (
                next_index-right (flags xs) i h
                  (omega (arith, l, length-map (λ (c : ClientBox). c.selected) xs))))
              e,
          h',
          (
            filter_suite_and_client minus_x_days d.suite d.client s',
            press_box left s' i d
                (ap (act click_box) (next_index-left (flags (client_boxes s'.boxes)) i h')) f,
            (click_box-selection s' i d a' f).0,
          ),
        )
