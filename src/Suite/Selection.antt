-- ===== src/Suite/Selection.antt =====
-- The selection of tests: after a toggle, at most the toggled row is highlighted.
use xrpl_hive.Base.{
  ℕ, zero, suc, ◌+◌, ◌≤◌, Bool, true, false, not, List, [], ◌∷◌, Option, none, some, ◌≡◌, refl, ap,
  sym, ◌∙◌, get_elem?, ◌==◌, if◌then◌else◌, arith, All, Bool-cases, Option-cases, inl, inr,
  some_inj,
}
use mathlib.Core.Option
use xrpl_hive.Suite.{
  Row, Table, lit, update_row, selected_row, close, deselect_test, select_test, toggle_test_details,
}

-- How many rows of the page are open and highlighted.
abbrev pub lit_count : List Row → ℕ
lit_count [] = 0
lit_count (r ∷ rs) = if lit r then suc (lit_count rs) else lit_count rs

-- A highlighted row is open.
abbrev pub Marked : Row → Type 0
Marked r = r.highlighted ≡ true → r.opened ≡ true

get_elem?-update_row :
    (i j : ℕ) (f : Row → Row) (rs : List Row)
    → get_elem? (update_row j f rs) i
      ≡ (if i == j then Option.map f (get_elem? rs i) else get_elem? rs i)
unfolding update_row
get_elem?-update_row i j f [] = ground arith
get_elem?-update_row zero zero f (r ∷ rs) = refl
get_elem?-update_row zero (suc j) f (r ∷ rs) = ground arith
get_elem?-update_row (suc i) zero f (r ∷ rs) = ground arith
get_elem?-update_row (suc i) (suc j) f (r ∷ rs) = ground (arith, get_elem?-update_row i j f rs)

lit_count-update_row :
    (i : ℕ) (f : Row → Row) (rs : List Row) (r : Row)
    → get_elem? rs i ≡ some r
    → lit_count (update_row i f rs) + (if lit r then 1 else 0)
      ≡ lit_count rs + (if lit (f r) then 1 else 0)
unfolding update_row
lit_count-update_row i f [] r h = absurd (ground arith)
lit_count-update_row zero f (x ∷ rs) r h = rw (some_inj h) (ground arith)
lit_count-update_row (suc i) f (x ∷ rs) r h = ground (arith, lit_count-update_row i f rs r h)

lit-close : (b : Bool) (r : Row) → lit (close b r) ≡ false
unfolding lit close
lit-close b r = ground arith

lit_count-close :
    (i : ℕ) (b : Bool) (rs : List Row) → lit_count (update_row i (close b) rs) ≤ lit_count rs
unfolding update_row
lit_count-close i b [] = omega arith
lit_count-close zero b (r ∷ rs) = ground (arith, lit-close b r)
lit_count-close (suc i) b (r ∷ rs) = ground (arith, lit_count-close i b rs)

selected_row-none : (rs : List Row) → selected_row rs ≡ none → lit_count rs ≡ 0
unfolding selected_row
selected_row-none [] h = refl
selected_row-none (r ∷ rs) h = ground (arith, selected_row-none rs)

selected_row-some :
    (rs : List Row) (j : ℕ)
    → selected_row rs ≡ some j
    → lit_count (update_row j (close false) rs) + 1 ≡ lit_count rs
unfolding selected_row update_row
selected_row-some [] j h = absurd (ground arith)
selected_row-some (r ∷ rs) j h = elim (Bool-cases (lit r)) [
  | inl q ↦
      let first : some 0 ≡ some j = rw q at h in
      rw (← some_inj first) (ground (arith, lit-close false r, q))
  | inr q ↦
      let later : Option.map suc (selected_row rs) ≡ some j = rw q at h in
      elim (Option-cases (selected_row rs)) [
        | inl e ↦ let no : none ≡ some j = rw e at later in absurd (ground arith)
        | inr (k, e) ↦
            let next : some (suc k) ≡ some j = rw e at later in
            rw (← some_inj next) (ground (arith, selected_row-some rs k e, q))
      ]
]

All-update_row :
    (f : Row → Row) (i : ℕ) (rs : List Row)
    → ((r : Row) → get_elem? rs i ≡ some r → Marked r → Marked (f r))
    → All Marked rs
    → All Marked (update_row i f rs)
unfolding update_row
All-update_row f i [] h a = tt
All-update_row f zero (r ∷ rs) h a = (h r refl a.0, a.1)
All-update_row f (suc i) (r ∷ rs) h a = (a.0, All-update_row f i rs h a.1)

close-Marked : (b : Bool) (r : Row) → Marked (close b r)
unfolding close
close-Marked b r h = absurd (ground arith)

-- What `selectTest` takes away before it highlights a row: no row of the page is highlighted then.
cleared : Option ℕ → List Row → List Row
cleared none rs = rs
cleared (some j) rs = update_row j (close false) rs

abbrev chosen : Option ℕ → List Row → Option ℕ
chosen unselected rs = elim (selected_row rs) as (λ _. Option ℕ) [
  | none ↦ unselected
  | some j ↦ some j
]

abbrev highlight_in : ℕ → List Row → Table
highlight_in i rs = record {
  rows = update_row i (λ r. record r { highlighted = true }) rs;
  hash = some i;
}

select_test-cleared :
    (unselected : Option ℕ) (i : ℕ) (t : Table)
    → select_test unselected i t ≡ highlight_in i (cleared (chosen unselected t.rows) t.rows)
unfolding select_test cleared deselect_test
select_test-cleared unselected i t = by_choice (chosen unselected t.rows)
  where
    by_choice :
        (found : Option ℕ)
        → highlight_in i
            (elim found as (λ _. Table) [ none ↦ t | some j ↦ deselect_test j false t ]).rows
          ≡ highlight_in i (cleared found t.rows)
    by_choice none = refl
    by_choice (some j) = refl

lit_count-cleared :
    (unselected : Option ℕ) (rs : List Row)
    → lit_count rs ≤ 1
    → lit_count (cleared (chosen unselected rs) rs) ≡ 0
unfolding cleared
lit_count-cleared unselected rs h = by_selected (selected_row rs) refl
  where
    nothing : (u : Option ℕ) → lit_count rs ≡ 0 → lit_count (cleared u rs) ≡ 0
    nothing none z = z
    nothing (some j) z = omega (arith, lit_count-close j false rs)

    by_selected :
        (o : Option ℕ)
        → selected_row rs ≡ o
        → lit_count (cleared (elim o as (λ _. Option ℕ) [ none ↦ unselected | some j ↦ some j ]) rs)
          ≡ 0
    by_selected none e = nothing unselected (selected_row-none rs e)
    by_selected (some j) e = omega (arith, selected_row-some rs j e)

cleared-Marked : (found : Option ℕ) (rs : List Row) → All Marked rs → All Marked (cleared found rs)
unfolding cleared
cleared-Marked none rs a = a
cleared-Marked (some j) rs a = All-update_row (close false) j rs (λ r _ _. close-Marked false r) a

-- A row that is not highlighted stays as it is.
get_elem?-cleared :
    (found : Option ℕ) (rs : List Row) (i : ℕ) (drawn opened : Bool)
    → get_elem? rs i ≡ some (record { drawn = drawn; opened = opened; highlighted = false })
    → get_elem? (cleared found rs) i
      ≡ some (record { drawn = drawn; opened = opened; highlighted = false })
unfolding cleared close
get_elem?-cleared none rs i drawn opened h = h
get_elem?-cleared (some j) rs i drawn opened h =
    get_elem?-update_row i j (close false) rs ∙ rw h (if_same (i == j))
  where
    if_same : {x : Option Row} (b : Bool) → (if b then x else x) ≡ x
    if_same true = refl
    if_same false = refl

-- The table after a click on a row of the page.
abbrev pub Toggled : ℕ → Row → Table → Type 0
Toggled i r t =
    (get_elem? t.rows i
      ≡ some (record r { opened = not r.highlighted; highlighted = not r.highlighted }))
    × (lit_count t.rows ≡ (if r.highlighted then 0 else 1))
    × All Marked t.rows
    × (t.hash ≡ (if r.highlighted then none else some i))

abbrev open_row : Row
open_row = record { drawn = true; opened = true; highlighted = false }

light : Row → Row
light r = record r { highlighted = true }

highlight_in-Toggled :
    (i : ℕ) (rs : List Row) (opened : Bool)
    → get_elem? rs i ≡ some open_row
    → lit_count rs ≡ 0
    → All Marked rs
    → Toggled i (record { drawn = true; opened = opened; highlighted = false }) (highlight_in i rs)
unfolding lit light
highlight_in-Toggled i rs opened h k a = (
  get_elem?-update_row i i light rs ∙ rw h (ground arith),
  omega (arith, lit_count-update_row i light rs open_row h),
  All-update_row light i rs (λ r e _ _. ap (λ x. x.opened) (some_inj (sym e ∙ h))) a,
  refl,
)

select_test-Toggled :
    (unselected : Option ℕ) (i : ℕ) (t : Table) (opened : Bool)
    → get_elem? t.rows i ≡ some open_row
    → lit_count t.rows ≤ 1
    → All Marked t.rows
    → Toggled i
        (record { drawn = true; opened = opened; highlighted = false })
        (select_test unselected i t)
select_test-Toggled unselected i t opened h k a =
    let found = chosen unselected t.rows in
    rw (select_test-cleared unselected i t) (
      highlight_in-Toggled i (cleared found t.rows) opened
        (get_elem?-cleared found t.rows i true true h) (lit_count-cleared unselected t.rows k)
        (cleared-Marked found t.rows a))

deselect_test-Toggled :
    (i : ℕ) (t : Table)
    → get_elem? t.rows i ≡ some (record { drawn = true; opened = true; highlighted = true })
    → lit_count t.rows ≤ 1
    → All Marked t.rows
    → Toggled i
        (record { drawn = true; opened = true; highlighted = true })
        (deselect_test i true t)
unfolding lit close deselect_test
deselect_test-Toggled i t h k a = (
  get_elem?-update_row i i (close true) t.rows ∙ rw h (ground arith),
  omega (arith, lit_count-update_row i (close true) t.rows _ h),
  All-update_row (close true) i t.rows (λ r _ _. close-Marked true r) a,
  refl,
)

get_elem?-Marked :
    (i : ℕ) (rs : List Row) (r : Row) → get_elem? rs i ≡ some r → All Marked rs → Marked r
get_elem?-Marked i [] r h a = absurd (ground arith)
get_elem?-Marked zero (x ∷ rs) r h a = rw (← some_inj h) a.0
get_elem?-Marked (suc i) (x ∷ rs) r h a = get_elem?-Marked i rs r h a.1

abbrev flags : Bool → Bool → Bool → Row
flags drawn opened highlighted = record {
  drawn = drawn;
  opened = opened;
  highlighted = highlighted;
}

-- The first click on a closed row opens it.
opened_row-Toggled :
    (unselected : Option ℕ) (i : ℕ) (t : Table)
    → get_elem? t.rows i ≡ some (flags true false false)
    → lit_count t.rows ≤ 1
    → All Marked t.rows
    → Toggled i (flags true false false) (
        select_test unselected i
          (record t { rows = update_row i (λ r. record r { opened = true }) t.rows }))
unfolding lit
opened_row-Toggled unselected i t h k a =
    select_test-Toggled unselected i
      (record t { rows = update_row i (λ r. record r { opened = true }) t.rows }) false
      (get_elem?-update_row i i (λ r. record r { opened = true }) t.rows ∙ rw h (ground arith))
      (omega (arith, lit_count-update_row i (λ r. record r { opened = true }) t.rows _ h))
      (All-update_row (λ r. record r { opened = true }) i t.rows (λ r _ _ _. refl) a)

-- A click on a row of the page, where highlighted rows are open and at most one row of the page is
-- highlighted, keeps both. If the row was highlighted, it is closed and no row of the page is
-- highlighted; else it is open and the only one of the page that is highlighted, and the hash is its
-- test's.
pub toggle_test_details-Toggled :
    (unselected : Option ℕ) (i : ℕ) (t : Table) (r : Row)
    → get_elem? t.rows i ≡ some r
    → r.drawn ≡ true
    → lit_count t.rows ≤ 1
    → All Marked t.rows
    → Toggled i r (toggle_test_details unselected i t)
unfolding toggle_test_details
toggle_test_details-Toggled unselected i t r h d k a = by_flags r.drawn r.opened r.highlighted h d
  where
    by_flags :
        (drawn opened highlighted : Bool)
        → get_elem? t.rows i ≡ some (flags drawn opened highlighted)
        → drawn ≡ true
        → Toggled i (flags drawn opened highlighted) (toggle_test_details unselected i t)
    by_flags false opened highlighted e q = absurd (ground arith)
    by_flags true true true e q = rw (toggle_test_details, e) (deselect_test-Toggled i t e k a)
    by_flags true true false e q =
        rw (toggle_test_details, e) (select_test-Toggled unselected i t true e k a)
    by_flags true false true e q =
        let no = get_elem?-Marked i t.rows (flags true false true) e a refl in absurd (ground arith)
    by_flags true false false e q =
        rw (toggle_test_details, e) (opened_row-Toggled unselected i t e k a)
