-- ===== src/Suite/Stats.antt =====
-- `calculateTestStats`.
use xrpl_hive.Base.{ℕ, suc, ◌+◌, List, [], ◌∷◌, length, ◌≡◌, if◌then◌else◌, arith}
use xrpl_hive.Suite.{TestCase, TestStats, count_test, count_tests, calculate_test_stats}

-- How many cases pass, and how many do not pass because of a timeout.
abbrev pub passing : List TestCase → ℕ
passing [] = 0
passing (t ∷ ts) = if t.pass then suc (passing ts) else passing ts

abbrev pub timed_out : List TestCase → ℕ
timed_out [] = 0
timed_out (t ∷ ts) =
    if t.pass then timed_out ts else if t.timeout then suc (timed_out ts) else timed_out ts

abbrev Counts : List TestCase → TestStats → TestStats → Type 0
Counts cases s s' =
    (s'.passed ≡ s.passed + passing cases)
    × (s'.passed + s'.failed ≡ s.passed + s.failed + length cases)
    × (s'.timeouts ≡ s.timeouts + timed_out cases)

count_tests-Counts : (cases : List TestCase) (s : TestStats) → Counts cases s (count_tests cases s)
unfolding count_tests count_test
count_tests-Counts [] s = (omega arith, omega arith, omega arith)
count_tests-Counts (t ∷ ts) s =
    let h = count_tests-Counts ts (count_test s t) in
    (ground (arith, h), ground (arith, h), ground (arith, h))

-- Each test case is counted once as passed or failed, the passed ones are those that pass, and the
-- timeouts are those that do not pass because of a timeout, a part of the failed ones.
pub calculate_test_stats_counts :
    (cases : List TestCase)
    → (let s = calculate_test_stats cases in
        (s.passed ≡ passing cases)
        × (s.passed + s.failed ≡ length cases)
        × (s.timeouts ≡ timed_out cases))
unfolding calculate_test_stats
calculate_test_stats_counts cases =
    let h = count_tests-Counts cases (record { passed = 0; failed = 0; timeouts = 0 }) in
    (omega (arith, h), omega (arith, h), omega (arith, h))
