-- ===== src/Suite/Output/Tests.antt =====
-- Lines with and without errors, and an instance of the result.
use xrpl_hive.Base.{true, false, codes, ◌≡◌, ◌↔◌, refl}
use xrpl_hive.Suite.Output.{keywords, tells_error}
use xrpl_hive.Suite.Output.Errors.{Occurs, tells_error_iff}

test_failed_run : tells_error (codes "2 of 5 FAILED") ≡ true
unfolding tells_error
test_failed_run = refl

failure_run : tells_error (codes "a failure") ≡ false
unfolding tells_error
failure_run = refl

-- No boundary of words stands between a colon and a space.
error_run : tells_error (codes "error: no peers") ≡ false
unfolding tells_error
error_run = refl

tells_error_iff_example :
    (tells_error (codes "error: no peers") ≡ true) ↔ Occurs false keywords (codes "error: no peers")
tells_error_iff_example = tells_error_iff (codes "error: no peers")
