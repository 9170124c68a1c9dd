-- ===== src/Index/Boxes/Latest.antt =====
-- The boxes against the entries of the listing.
use xrpl_hive.Base.{
  ℕ, Bool, true, false, List, [], ◌∷◌, ◌++◌, none, some, Text, map, ◌≡◌, ◌≢◌, ◌⊎◌, refl, sym, ◌∙◌,
  All, inl, inr, Option-cases, some_inj, All-append,
}
use mathlib.Core.Option
use mathlib.Core.Path.{subst}
use mathlib.Core.List.{Perm, Memᴰ}
use xrpl_hive.Sorting.{sort_by, Ordered, All-sort_by, sort_by-Ordered}
use xrpl_hive.Maps.{Map, get}
use xrpl_hive.Index.{Entry, Groups, recent_runs}
use xrpl_hive.Index.Recent.{NotAfter, Newest, recent_runs-Newest}
use xrpl_hive.Index.Groups.{look, extend}
use xrpl_hive.Index.Groups.Distinct.{DistinctKeys, DistinctKeys-get, Distinct}
use xrpl_hive.Index.Boxes.{ClientBox, SuiteBox, by_name}
use xrpl_hive.Index.Boxes.Members.{
  Pointwise-All, Pointwise-Mem, Pointwise-map, Mem-sort_by, Mem-get, Ordered-map,
}
use xrpl_hive.Index.Boxes.Display.{Pointwise, ShowsRuns}

module _ (locale_le : Text → Text → Bool) (time : Text → ℕ) (written : Text → Text)
    (suite_of client_of : Text → Text → Text) (runs : Text → Text → List Entry) where
  -- A box has the start and the figures of one of the runs, and none of the others is newer.
  abbrev pub ShowsLatest : List Entry → ClientBox → Type 0
  ShowsLatest all c =
      (p : Entry) × (others : List Entry) × Perm (p ∷ others) all
      × All (NotAfter time p) others
      × (c.time ≡ written p.start)
      × (c.passes ≡ p.passes)
      × (c.fails ≡ p.fails)

  -- A client box under the title of a box.
  abbrev pub ShowsIn : Text → ClientBox → Type 0
  ShowsIn title c =
      (c.suite ≡ suite_of title c.name)
      × (c.client ≡ client_of title c.name)
      × (c.selected ≡ false)
      × ShowsLatest (runs title c.name) c

  -- The boxes of a display: titles and names in order, each client box with the latest of the runs under its
  -- title and name, and a client box for each title and name that have a run.
  abbrev pub Displays : List SuiteBox → Type 0
  Displays boxes =
      All
        (λ (box : SuiteBox).
          (box.selected ≡ false)
          × Ordered locale_le (map (λ (c : ClientBox). c.name) box.boxes)
          × All (ShowsIn box.title) box.boxes)
        boxes
      × Ordered locale_le (map (λ (box : SuiteBox). box.title) boxes)
      × ((title name : Text)
          → runs title name ≢ []
          → (box : SuiteBox) × Memᴰ box boxes
            × (box.title ≡ title)
            × ((c : ClientBox) × Memᴰ c box.boxes × (c.name ≡ name)))

  -- A box shows a group of runs.
  abbrev ShowsGroup : Text × Map (List Entry) → SuiteBox → Type 0
  ShowsGroup g box =
      (box.title ≡ g.0)
      × (box.selected ≡ false)
      × Pointwise
          (λ (r : Text × List Entry).
            ShowsRuns written (suite_of g.0 r.0) (client_of g.0 r.0) r.0 r.1)
          (by_name locale_le g.1) box.boxes

  ShowsRuns-name :
      (title : Text) (r : Text × List Entry) (c : ClientBox)
      → ShowsRuns written (suite_of title r.0) (client_of title r.0) r.0 r.1 c
      → c.name ≡ r.0
  ShowsRuns-name title (i, []) c h = absurd h
  ShowsRuns-name title (i, p ∷ rs) c h = h.2

  first_shown :
      (suite client name : Text) (all shown rest : List Entry) (c : ClientBox)
      → Perm (shown ++ rest) all
      → Newest time shown
      → All (λ x. All (NotAfter time x) rest) shown
      → ShowsRuns written suite client name shown c
      → ShowsLatest all c
  first_shown suite client name all [] rest c perm newest behind h = absurd h
  first_shown suite client name all (p ∷ shown) rest c perm newest behind h = (
    p,
    shown ++ rest,
    perm,
    All-append (NotAfter time p) shown rest newest.0 behind.0,
    h.3,
    h.4,
    h.5,
  )

  recent_shown :
      (title : Text) (r : Text × List Entry) (c : ClientBox)
      → recent_runs time (runs title r.0) ≡ r.1
      → ShowsRuns written (suite_of title r.0) (client_of title r.0) r.0 r.1 c
      → ShowsIn title c
  recent_shown title (i, []) c e h = absurd h
  recent_shown title (i, p ∷ rs) c e h =
      let (rest, perm, len, newest, behind, stable) = recent_runs-Newest time (runs title i) in
      subst
        (λ n.
          (c.suite ≡ suite_of title n)
          × (c.client ≡ client_of title n)
          × (c.selected ≡ false)
          × ShowsLatest (runs title n) c)
        (sym h.2)
        (
          h.0,
          h.1,
          h.6,
          first_shown (suite_of title i) (client_of title i) i (runs title i)
              (recent_runs time (runs title i)) rest c perm newest behind
              (subst (λ rs. ShowsRuns written (suite_of title i) (client_of title i) i rs c) (sym e)
                h),
        )

  found_runs :
      (all given : List Entry)
      → Option.map (recent_runs time) (extend none all) ≡ some given
      → recent_runs time all ≡ given
  found_runs [] given e = cc
  found_runs (p ∷ all) given e = some_inj e

  given_some :
      (all : List Entry)
      → all ≢ []
      → (given : List Entry) × (Option.map (recent_runs time) (extend none all) ≡ some given)
  given_some [] n = absurd (n refl)
  given_some (e ∷ all) n = (recent_runs time (e ∷ all), refl)

  look-get :
      (title name : Text) (groups : Groups) (given : List Entry)
      → look title name groups ≡ some given
      → (results : Map (List Entry)) × (get title groups ≡ some results)
        × (get name results ≡ some given)
  look-get title name groups given e = elim (Option-cases (get title groups)) [
    | inl q ↦ let no : none ≡ some given = rw (look, q) at e in cc
    | inr (results, q) ↦ (results, q, rw (look, q) at e)
  ]

  module _ (total : (a b : Text) → (locale_le a b ≡ true) ⊎ (locale_le b a ≡ true))
      (trans : (a b c : Text)
        → locale_le a b ≡ true
        → locale_le b c ≡ true
        → locale_le a c ≡ true) where
    names_in_order :
        {V : Type 0} (m : Map V)
        → Ordered locale_le (map (λ (e : Text × V). e.0) (by_name locale_le m))
    unfolding by_name
    names_in_order m =
        Ordered-map locale_le (λ e. e.0) (sort_by (λ x y. locale_le x.0 y.0) m)
          (sort_by-Ordered (λ x y. locale_le x.0 y.0) (λ x y. total x.0 y.0)
            (λ x y z. trans x.0 y.0 z.0) m)

    module _ (groups : Groups) (distinct : Distinct groups)
        (found : (title name : Text)
          → look title name groups
            ≡ Option.map (recent_runs time) (extend none (runs title name))) where
      -- What holds of a group with its key.
      Kept : Text × Map (List Entry) → Type 0
      Kept g = (get g.0 groups ≡ some g.1) × DistinctKeys g.1

      All-Kept : All Kept (by_name locale_le groups)
      unfolding by_name Kept
      All-Kept =
          All-sort_by (λ x y. locale_le x.0 y.0) Kept groups
            (both groups (DistinctKeys-get groups distinct.0) distinct.1)
        where
          both :
              (m : Groups)
              → All (λ e. get e.0 groups ≡ some e.1) m
              → All (λ g. DistinctKeys g.1) m
              → All Kept m
          both [] a b = tt
          both (g ∷ m) a b = ((a.0, b.0), both m a.1 b.1)

      recent_of :
          (title name : Text) (results : Map (List Entry)) (given : List Entry)
          → get title groups ≡ some results
          → get name results ≡ some given
          → recent_runs time (runs title name) ≡ given
      recent_of title name results given e f =
          found_runs (runs title name) given (sym (found title name) ∙ looked)
        where
          looked : look title name groups ≡ some given
          looked = rw (look, e) f

      box_shown :
          (g : Text × Map (List Entry)) (box : SuiteBox)
          → Kept g
          → ShowsGroup g box
          → (box.selected ≡ false)
            × Ordered locale_le (map (λ (c : ClientBox). c.name) box.boxes)
            × All (ShowsIn box.title) box.boxes
      unfolding Kept by_name
      box_shown g box (here, d) (t, s, p) = (
        s,
        subst (Ordered locale_le)
            (sym (
              Pointwise-map _ (λ r. r.0) (λ (c : ClientBox). c.name) (by_name locale_le g.1)
                box.boxes (λ r c h. ShowsRuns-name g.0 r c h) p))
            (names_in_order g.1),
        subst (λ title. All (ShowsIn title) box.boxes) (sym t)
            (Pointwise-All _ (λ r. get r.0 g.1 ≡ some r.1) (ShowsIn g.0) (by_name locale_le g.1)
              box.boxes (λ r c e h. recent_shown g.0 r c (recent_of g.0 r.0 g.1 r.1 here e) h)
              (All-sort_by (λ x y. locale_le x.0 y.0) (λ r. get r.0 g.1 ≡ some r.1) g.1
                (DistinctKeys-get g.1 d))
              p),
      )

      complete :
          (boxes : List SuiteBox)
          → Pointwise ShowsGroup (by_name locale_le groups) boxes
          → (title name : Text) → runs title name ≢ []
          → (box : SuiteBox) × Memᴰ box boxes
            × (box.title ≡ title)
            × ((c : ClientBox) × Memᴰ c box.boxes × (c.name ≡ name))
      unfolding by_name
      complete boxes p title name n =
          let (given, e) = given_some (runs title name) n in
          let (results, here, inside) = look-get title name groups given (found title name ∙ e) in
          let (box, in_boxes, shown) =
            Pointwise-Mem ShowsGroup (title, results) (by_name locale_le groups) boxes
              (Mem-sort_by (λ x y. locale_le x.0 y.0) (title, results) groups
                (Mem-get title results groups here))
              p in
          let (c, in_box, shows) =
            Pointwise-Mem _ (name, given) (by_name locale_le results) box.boxes
              (Mem-sort_by (λ x y. locale_le x.0 y.0) (name, given) results
                (Mem-get name given results inside))
              shown.2 in
          (box, in_boxes, shown.0, (c, in_box, ShowsRuns-name title (name, given) c shows))

      pub shown_Displays :
          (boxes : List SuiteBox)
          → Pointwise ShowsGroup (by_name locale_le groups) boxes
          → Displays boxes
      shown_Displays boxes p = (
        Pointwise-All ShowsGroup Kept _ (by_name locale_le groups) boxes box_shown All-Kept p,
        subst (Ordered locale_le)
            (sym (
              Pointwise-map ShowsGroup (λ g. g.0) (λ (box : SuiteBox). box.title)
                (by_name locale_le groups) boxes (λ g box h. h.0) p))
            (names_in_order groups),
        complete boxes p,
      )
