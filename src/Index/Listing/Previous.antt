-- ===== src/Index/Listing/Previous.antt =====
-- The run that a run is compared with in the table.
use xrpl_hive.Base.{
  ℕ, ◌+◌, ◌-◌, ◌<◌, true, false, List, [], ◌∷◌, Option, none, some, Text, ◌≡◌, refl, ltb, ◌==◌,
  if◌then◌else◌, All, arith, Bool-cases, Option-cases, inl, inr, ltb→lt, sym, ◌∙◌,
}
use mathlib.Core.Path.{subst}
use mathlib.Core.Bool.{true≢false}
use mathlib.Core.List.{Memᴰ}
use xrpl_hive.Maps.{same, same-≡, same_refl}
use xrpl_hive.Index.{Entry, join}
use xrpl_hive.Index.Recent.{NotAfter, Newest}
use xrpl_hive.Index.Listing.{
  is_earlier, previous_run, DiffCell, no_diff, fail_diff, pass_diff, diff_cell,
}

module _ (time : Text → ℕ) where
  -- A run of the same suite, with the same text of clients, that began before another.
  abbrev pub Before : Entry → Entry → Type 0
  Before run s =
      (s.name ≡ run.name) × (join s.clients ≡ join run.clients) × (time s.start < time run.start)

  is_earlier-Before : (run s : Entry) → is_earlier time run s ≡ true → Before run s
  is_earlier-Before run s h = elim (Bool-cases (same s.name run.name)) [
    | inr n ↦ let q : false ≡ true = rw n at h in cc
    | inl n ↦ elim (Bool-cases (same (join s.clients) (join run.clients))) [
      | inr c ↦ let q : false ≡ true = rw (n, c) at h in cc
      | inl c ↦ (
        same-≡ s.name run.name n,
        same-≡ (join s.clients) (join run.clients) c,
        ltb→lt (time s.start) (time run.start) (rw (n, c) at h),
      )
    ]
  ]

  Before-is_earlier : (run s : Entry) → Before run s → is_earlier time run s ≡ true
  Before-is_earlier run s (n, c, t) =
      let a : same s.name run.name ≡ true = rw n (same_refl run.name) in
      let b : same (join s.clients) (join run.clients) ≡ true =
        rw c (same_refl (join run.clients)) in
      rw (a, b) (ground arith)

  -- The latest of the runs of the same suite and clients that began before a run, if there is one.
  abbrev pub IsPrevious : Entry → List Entry → Option Entry → Type 0
  IsPrevious run suites none = All (λ s. ¬ Before run s) suites
  IsPrevious run suites (some p) =
      Before run p × Memᴰ p suites × All (λ s. Before run s → NotAfter time p s) suites

  weaken :
      (run p : Entry) (ss : List Entry)
      → All (NotAfter time p) ss
      → All (λ s. Before run s → NotAfter time p s) ss
  weaken run p [] a = tt
  weaken run p (s ∷ ss) a = (λ _. a.0, weaken run p ss a.1)

  not_earlier : (run s : Entry) → is_earlier time run s ≡ false → ¬ Before run s
  not_earlier run s q b = true≢false (sym (Before-is_earlier run s b) ∙ q)

  later_IsPrevious :
      (run s : Entry) (ss : List Entry) (o : Option Entry)
      → is_earlier time run s ≡ false
      → IsPrevious run ss o
      → IsPrevious run (s ∷ ss) o
  later_IsPrevious run s ss none q h = ((λ b. not_earlier run s q b), h)
  later_IsPrevious run s ss (some p) q (e, m, a) =
      (e, Memᴰ.tail m, ((λ b. absurd (not_earlier run s q b)), a))

  previous_run-IsPrevious :
      (run : Entry) (suites : List Entry)
      → Newest time suites
      → IsPrevious run suites (previous_run time run suites)
  unfolding previous_run
  previous_run-IsPrevious run [] n = tt
  previous_run-IsPrevious run (s ∷ ss) n = elim (Bool-cases (is_earlier time run s)) [
    | inl q ↦
        rw (previous_run, q)
          (is_earlier-Before run s q, Memᴰ.head refl, ((λ _. omega arith), weaken run s ss n.0))
    | inr q ↦
        rw (previous_run, q)
          (later_IsPrevious run s ss (previous_run time run ss) q
            (previous_run-IsPrevious run ss n.1))
  ]

  -- What a cell says of a run and the one before it.
  abbrev pub Compares : Entry → Option Entry → DiffCell → Type 0
  Compares run none cell = cell ≡ no_diff
  Compares run (some p) no_diff = run.passes ≡ p.passes
  Compares run (some p) (fail_diff n) = (0 < n) × (run.passes + n ≡ p.passes)
  Compares run (some p) (pass_diff n) = (0 < n) × (run.passes ≡ p.passes + n)

  compared :
      (run p : Entry)
      → Compares run (some p) (
          if p.passes == run.passes
          then no_diff
          else if ltb run.passes p.passes
          then fail_diff (p.passes - run.passes)
          else pass_diff (run.passes - p.passes))
  compared run p = elim (Bool-cases (p.passes == run.passes)) [
    | inl q ↦ rw q (ground arith)
    | inr q ↦ elim (Bool-cases (ltb run.passes p.passes)) [
      | inl l ↦ rw (q, l) (ground arith, ground arith)
      | inr l ↦ rw (q, l) (ground arith, ground arith)
    ]
  ]

  -- In a listing with the newest runs first, the cell of a run compares it with the latest run of the same
  -- suite, with the same text of clients, that began before: how many tests more or fewer pass, or nothing if as many do or
  -- there is no such run.
  pub diff_cell-Compares :
      (run : Entry) (suites : List Entry)
      → Newest time suites
      → (prev : Option Entry) × IsPrevious run suites prev
        × Compares run prev (diff_cell time suites run)
  unfolding diff_cell
  diff_cell-Compares run suites n = elim (Option-cases (previous_run time run suites)) [
    | inl e ↦
        (previous_run time run suites, previous_run-IsPrevious run suites n, rw (e, diff_cell) refl)
    | inr (p, e) ↦ (
      some p,
      subst (IsPrevious run suites) e (previous_run-IsPrevious run suites n),
      rw (diff_cell, e) (compared run p),
    )
  ]
