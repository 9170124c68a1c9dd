-- ===== src/Index/Summary/Sorted.antt =====
-- The boxes in the order that the page's menu names.
use xrpl_hive.Base.{
  ℕ, Bool, true, false, List, [], ◌∷◌, some, Text, codes, ◌≡◌, ◌⊎◌, refl, map, leb, Bool-cases, inl,
  inr, arith, ◌≤◌, ◌≢◌, All,
}
use mathlib.Core.List.{Perm}
use mathlib.Core.Path.{subst}
use xrpl_hive.Sorting.{sort_by, Ordered, sort_by-Perm, sort_by-Ordered, sort_by-unordered}
use xrpl_hive.Maps.{same, same-≡, get, get-set_param}
use xrpl_hive.Index.Boxes.{ClientBox, SuiteBox}
use xrpl_hive.Index.Boxes.Display.{Pointwise}
use xrpl_hive.Index.Summary.{Summary, box_le, sort_all_clients}

module _ (locale_le : Text → Text → Bool) (time : Text → ℕ) (coverage : ClientBox → ℕ)
    (total : (a b : Text) → (locale_le a b ≡ true) ⊎ (locale_le b a ≡ true))
    (trans : (a b c : Text)
      → locale_le a b ≡ true
      → locale_le b c ≡ true
      → locale_le a c ≡ true) where
  abbrev le : Text → ClientBox → ClientBox → Bool
  le = box_le locale_le time coverage

  leb_total : (m n : ℕ) → (leb m n ≡ true) ⊎ (leb n m ≡ true)
  leb_total m n = elim (Bool-cases (leb m n)) [ inl q ↦ inl q | inr q ↦ inr (ground arith) ]

  leb_trans : (m n k : ℕ) → leb m n ≡ true → leb n k ≡ true → leb m k ≡ true
  leb_trans m n k p q = ground arith

  box_le_total : (sort : Text) (a b : ClientBox) → (le sort a b ≡ true) ⊎ (le sort b a ≡ true)
  unfolding box_le
  box_le_total sort a b = elim (Bool-cases (same sort (codes "name"))) [
    | inl p ↦ rw (box_le, p) (total a.client b.client)
    | inr p ↦ elim (Bool-cases (same sort (codes "coverage"))) [
      | inl q ↦ rw (box_le, p, q) (leb_total (coverage b) (coverage a))
      | inr q ↦ elim (Bool-cases (same sort (codes "time"))) [
        | inl r ↦ rw (box_le, p, q, r) (leb_total (time b.time) (time a.time))
        | inr r ↦ rw (box_le, p, q, r) (inl refl)
      ]
    ]
  ]

  box_le_trans :
      (sort : Text) (a b c : ClientBox)
      → le sort a b ≡ true
      → le sort b c ≡ true
      → le sort a c ≡ true
  unfolding box_le
  box_le_trans sort a b c h k = elim (Bool-cases (same sort (codes "name"))) [
    | inl p ↦
        rw (box_le, p)
          (trans a.client b.client c.client (rw (box_le, p) at h) (rw (box_le, p) at k))
    | inr p ↦ elim (Bool-cases (same sort (codes "coverage"))) [
      | inl q ↦
          rw (box_le, p, q)
            (leb_trans (coverage c) (coverage b) (coverage a) (rw (box_le, p, q) at k)
              (rw (box_le, p, q) at h))
      | inr q ↦ elim (Bool-cases (same sort (codes "time"))) [
        | inl r ↦
            rw (box_le, p, q, r)
              (leb_trans (time c.time) (time b.time) (time a.time) (rw (box_le, p, q, r) at k)
                (rw (box_le, p, q, r) at h))
        | inr r ↦ rw (box_le, p, q, r) refl
      ]
    ]
  ]

  -- A client box may stand in front of another: its name is not behind the other's, its coverage is not
  -- lower, or its time is not earlier.
  abbrev pub InOrder : Text → ClientBox → ClientBox → Type 0
  InOrder sort a b =
      (sort ≡ codes "name" → locale_le a.client b.client ≡ true)
      × (sort ≡ codes "coverage" → coverage b ≤ coverage a)
      × (sort ≡ codes "time" → time b.time ≤ time a.time)

  -- Each item may stand in front of those behind it.
  abbrev pub AllInOrder : Text → List ClientBox → Type 0
  AllInOrder sort [] = Unit
  AllInOrder sort (c ∷ cs) = All (InOrder sort c) cs × AllInOrder sort cs

  box_le-InOrder : (sort : Text) (a b : ClientBox) → le sort a b ≡ true → InOrder sort a b
  unfolding box_le
  box_le-InOrder sort a b h = (
    λ e. subst (λ t. le t a b ≡ true) e h,
    λ e. leb_le (coverage b) (coverage a) (subst (λ t. le t a b ≡ true) e h),
    λ e. leb_le (time b.time) (time a.time) (subst (λ t. le t a b ≡ true) e h),
  )
    where
      leb_le : (m n : ℕ) → leb m n ≡ true → m ≤ n
      leb_le m n q = ground arith

  All-InOrder :
      (sort : Text) (c : ClientBox) (cs : List ClientBox)
      → All (λ d. le sort c d ≡ true) cs
      → All (InOrder sort c) cs
  All-InOrder sort c [] a = tt
  All-InOrder sort c (d ∷ cs) a = (box_le-InOrder sort c d a.0, All-InOrder sort c cs a.1)

  Ordered-AllInOrder :
      (sort : Text) (cs : List ClientBox) → Ordered (le sort) cs → AllInOrder sort cs
  Ordered-AllInOrder sort [] o = tt
  Ordered-AllInOrder sort (c ∷ cs) o = (All-InOrder sort c cs o.0, Ordered-AllInOrder sort cs o.1)

  -- Another sort than the three has no order.
  box_le-other :
      (sort : Text)
      → sort ≢ codes "name"
      → sort ≢ codes "coverage"
      → sort ≢ codes "time"
      → (a b : ClientBox) → le sort a b ≡ true
  unfolding box_le
  box_le-other sort h k l a b =
      rw (other (codes "name") h, other (codes "coverage") k, other (codes "time") l) refl
    where
      other : (t : Text) → sort ≢ t → same sort t ≡ false
      other t n = elim (Bool-cases (same sort t)) [
        | inl q ↦ absurd (n (same-≡ sort t q))
        | inr q ↦ q
      ]

  -- A box with its client boxes in the order of a sort.
  abbrev pub SortedBox : Text → SuiteBox → SuiteBox → Type 0
  SortedBox sort before after =
      (after.title ≡ before.title)
      × (after.selected ≡ before.selected)
      × Perm after.boxes before.boxes
      × AllInOrder sort after.boxes
      × (sort ≢ codes "name"
          → sort ≢ codes "coverage"
          → sort ≢ codes "time"
          → after.boxes ≡ before.boxes)

  sorted_boxes-Pointwise :
      (sort : Text) (boxes : List SuiteBox)
      → Pointwise
          (SortedBox sort)
          boxes
          (map (λ (box : SuiteBox). record box { boxes = sort_by (le sort) box.boxes }) boxes)
  sorted_boxes-Pointwise sort [] = tt
  sorted_boxes-Pointwise sort (box ∷ boxes) = (
    (
      refl,
      refl,
      sort_by-Perm (le sort) box.boxes,
      Ordered-AllInOrder sort (sort_by (le sort) box.boxes)
          (sort_by-Ordered (le sort) (box_le_total sort) (box_le_trans sort) box.boxes),
      λ h k l. sort_by-unordered (le sort) (box_le-other sort h k l) box.boxes,
    ),
    sorted_boxes-Pointwise sort boxes,
  )

  -- The comparison of names is total and transitive. Then for every sort, each box has the client boxes
  -- that it had. Sorted by name, no name stands in front of a smaller one; by coverage, the highest comes
  -- first; by time, the most recent; and any other sort leaves the boxes as they are. The hash of the URL
  -- has the sort and else what it had.
  pub sort_all_clients-SortedBox :
      (sort : Text) (s : Summary)
      → (let s' = sort_all_clients locale_le time coverage sort s in
          Pointwise (SortedBox sort) s.boxes s'.boxes
          × (get (codes "summary-sort") s'.controls.url ≡ some sort)
          × ((k : Text)
              → same k (codes "summary-sort") ≡ false
              → get k s'.controls.url ≡ get k s.controls.url))
  unfolding sort_all_clients
  sort_all_clients-SortedBox sort s = (
    sorted_boxes-Pointwise sort s.boxes,
    get-set_param (codes "summary-sort") (codes "summary-sort") sort s.controls.url,
    λ k apart. rw (get-set_param k (codes "summary-sort") sort s.controls.url, apart) refl,
  )
