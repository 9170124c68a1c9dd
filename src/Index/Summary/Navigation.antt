-- ===== src/Index/Summary/Navigation.antt =====
-- The keys that walk over the boxes.
use xrpl_hive.Base.{
  ℕ, zero, suc, ◌⊎◌, All, Bool-cases, sym, ◌+◌, ◌-◌, ◌<◌, ◌≡◌, refl, Bool, true, false, ◌||◌, List,
  [], ◌∷◌, Option, none, some, Text, codes, map, length, length-map, ltb, if◌then◌else◌, arith,
  Option-cases, inl, inr, some_inj,
}
use mathlib.Core.Path.{subst}
use xrpl_hive.Maps.{same}
use xrpl_hive.Index.Boxes.{ClientBox, SuiteBox}
use xrpl_hive.Index.Summary.{
  Summary, KeyEvent, Action, nothing, click_box, click_title, group_by, click_clear, focus_search,
  first_true, next_index, client_boxes, act, on_key,
}

first_true-lt-length : (bs : List Bool) (i : ℕ) → first_true bs ≡ some i → i < length bs
first_true-lt-length [] i h = cc
first_true-lt-length (true ∷ bs) i h = omega (arith, some_inj h)
first_true-lt-length (false ∷ bs) i h = elim (Option-cases (first_true bs)) [
  | inl e ↦ let no : none ≡ some i = rw e at h in cc
  | inr (j, e) ↦
      let q : some (suc j) ≡ some i = rw e at h in
      omega (arith, some_inj q, first_true-lt-length bs j e)
]

next_index-lt-length :
    (back : Bool) (bs : List Bool) (i : ℕ) → next_index back bs ≡ some i → i < length bs
unfolding next_index
next_index-lt-length back bs i h = elim (Option-cases (first_true bs)) [
  | inl e ↦ starts back (rw (next_index, e) at h)
  | inr (j, e) ↦ steps back j (first_true-lt-length bs j e) (rw (next_index, e) at h)
]
  where
    starts :
        (back : Bool)
        → (if back then none else if ltb 0 (length bs) then some 0 else none) ≡ some i
        → i < length bs
    starts back k = ground arith

    steps :
        (back : Bool) (j : ℕ)
        → j < length bs
        → (if back
            then (if ltb 0 j then some (j - 1) else none)
            else (if ltb (j + 1) (length bs) then some (j + 1) else none))
          ≡ some i
        → i < length bs
    steps back j l k = ground arith

-- The first of the flags that is set has the index.
abbrev pub FirstAt : List Bool → ℕ → Type 0
FirstAt [] j = ⊥
FirstAt (true ∷ bs) zero = Unit
FirstAt (true ∷ bs) (suc j) = ⊥
FirstAt (false ∷ bs) zero = ⊥
FirstAt (false ∷ bs) (suc j) = FirstAt bs j

-- None of the flags is set.
abbrev pub NoneSet : List Bool → Type 0
NoneSet bs = All (λ b. b ≡ false) bs

-- The index is the one in front of the first flag that is set, or behind it; without one that is set, it
-- is the first, for a step forward.
abbrev pub IsStep : Bool → List Bool → ℕ → Type 0
IsStep back bs i =
    (NoneSet bs × (back ≡ false) × (i ≡ 0))
    ⊎ ((j : ℕ) × FirstAt bs j × ((back ≡ true) × (i + 1 ≡ j) ⊎ (back ≡ false) × (i ≡ j + 1)))

first_true-FirstAt : (bs : List Bool) (j : ℕ) → first_true bs ≡ some j → FirstAt bs j
first_true-FirstAt [] j h = cc
first_true-FirstAt (true ∷ bs) zero h = tt
first_true-FirstAt (true ∷ bs) (suc j) h = absurd (omega (arith, some_inj h))
first_true-FirstAt (false ∷ bs) j h = elim (Option-cases (first_true bs)) [
  | inl e ↦ let no : none ≡ some j = rw e at h in cc
  | inr (k, e) ↦
      let q : some (suc k) ≡ some j = rw e at h in
      subst (FirstAt (false ∷ bs)) (some_inj q) (first_true-FirstAt bs k e)
]

first_true-NoneSet : (bs : List Bool) → first_true bs ≡ none → NoneSet bs
first_true-NoneSet [] h = tt
first_true-NoneSet (true ∷ bs) h = cc
first_true-NoneSet (false ∷ bs) h = elim (Option-cases (first_true bs)) [
  | inl e ↦ (refl, first_true-NoneSet bs e)
  | inr (k, e) ↦ let no : some (suc k) ≡ none = rw e at h in cc
]

next_index-IsStep :
    (back : Bool) (bs : List Bool) (i : ℕ) → next_index back bs ≡ some i → IsStep back bs i
unfolding next_index
next_index-IsStep back bs i h = elim (Option-cases (first_true bs)) [
  | inl e ↦ starts back (first_true-NoneSet bs e) (rw (next_index, e) at h)
  | inr (j, e) ↦ steps back j (first_true-FirstAt bs j e) (rw (next_index, e) at h)
]
  where
    starts :
        (back : Bool)
        → NoneSet bs
        → (if back then none else if ltb 0 (length bs) then some 0 else none) ≡ some i
        → IsStep back bs i
    starts true none_set k = cc
    starts false none_set k = elim (Bool-cases (ltb 0 (length bs))) [
      | inl q ↦ let z : some 0 ≡ some i = rw q at k in inl (none_set, refl, sym (some_inj z))
      | inr q ↦ let z : none ≡ some i = rw q at k in cc
    ]

    steps :
        (back : Bool) (j : ℕ)
        → FirstAt bs j
        → (if back
            then (if ltb 0 j then some (j - 1) else none)
            else (if ltb (j + 1) (length bs) then some (j + 1) else none))
          ≡ some i
        → IsStep back bs i
    steps true j at k = inr (j, at, inl (refl, ground arith))
    steps false j at k = inr (j, at, inr (refl, ground arith))

-- What is clicked is there, and is a step from what is selected.
abbrev pub InRange : KeyEvent → Summary → Action → Type 0
InRange e s (click_box i) =
    (i < length (client_boxes s.boxes))
    × IsStep (same e.key (codes "ArrowLeft"))
        (map (λ (c : ClientBox). c.selected) (client_boxes s.boxes)) i
InRange e s (click_title i) =
    (i < length s.boxes)
    × IsStep (same e.key (codes "ArrowUp")) (map (λ (box : SuiteBox). box.selected) s.boxes) i
InRange e s _ = Unit

act-InRange :
    (e : KeyEvent) (s : Summary) (click : ℕ → Action) (o : Option ℕ)
    → ((i : ℕ) → o ≡ some i → InRange e s (click i))
    → InRange e s (act click o)
act-InRange e s click none h = tt
act-InRange e s click (some i) h = h i refl

-- The branches of the key handler: a box, a title, a grouping.
branches-InRange :
    (e : KeyEvent) (s : Summary) (typing escape box title cmd group search : Bool) (x y : Action)
    (g : Text)
    → InRange e s x
    → InRange e s y
    → InRange e s (
        if typing
        then nothing
        else if escape
        then click_clear
        else if box
        then (if cmd then x else nothing)
        else if title
        then (if cmd then y else nothing)
        else if group
        then (if cmd then group_by g else nothing)
        else if search
        then focus_search
        else nothing)
branches-InRange e s true escape box title cmd group search x y g p q = tt
branches-InRange e s false true box title cmd group search x y g p q = tt
branches-InRange e s false false true title true group search x y g p q = p
branches-InRange e s false false true title false group search x y g p q = tt
branches-InRange e s false false false true true group search x y g p q = q
branches-InRange e s false false false true false group search x y g p q = tt
branches-InRange e s false false false false true true search x y g p q = tt
branches-InRange e s false false false false false true search x y g p q = tt
branches-InRange e s false false false false cmd false true x y g p q = tt
branches-InRange e s false false false false cmd false false x y g p q = tt

-- The client box or the title that a key clicks is there. It is the one in front of the first that is
-- selected for the left arrow and the arrow up, and the one behind it for the others; if none is selected
-- it is the first one, and not for those two keys.
pub on_key-InRange : (e : KeyEvent) (s : Summary) → InRange e s (on_key e s)
unfolding on_key
on_key-InRange e s =
    let clients = map (λ (c : ClientBox). c.selected) (client_boxes s.boxes) in
    let suites = map (λ (box : SuiteBox). box.selected) s.boxes in
    let left = same e.key (codes "ArrowLeft") in
    let up = same e.key (codes "ArrowUp") in
    branches-InRange e s e.typing (same e.key (codes "Escape"))
      (left || same e.key (codes "ArrowRight")) (up || same e.key (codes "ArrowDown")) e.cmd
      (same e.key (codes "g")) (same e.key (codes "/")) (act click_box (next_index left clients))
      (act click_title (next_index up suites)) _
      (act-InRange e s click_box (next_index left clients) (λ i h. (
        omega (
          arith,
          next_index-lt-length left clients i h,
          length-map (λ (c : ClientBox). c.selected) (client_boxes s.boxes),
        ),
        next_index-IsStep left clients i h,
      )))
      (act-InRange e s click_title (next_index up suites) (λ i h. (
        omega (
          arith,
          next_index-lt-length up suites i h,
          length-map (λ (box : SuiteBox). box.selected) s.boxes,
        ),
        next_index-IsStep up suites i h,
      )))
