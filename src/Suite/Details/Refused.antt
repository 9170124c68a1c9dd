-- ===== src/Suite/Details/Refused.antt =====
-- The box of a test whose log the server does not give.
use xrpl_hive.Base.{ℕ, ◌<◌, [], ◌∷◌, ◌++◌, none, some, Text, ◌≡◌, ap, ◌∙◌, arith}
use xrpl_hive.Browser.{Browser}
use xrpl_hive.TestLog.Decode.{TextDecoder}
use xrpl_hive.TestLog.Loader.{Error, Server, Offsets, done, thrown, ◌>>=◌}
use xrpl_hive.TestLog.Loader.Failed.{Refuses, refusal, iter_lines-refused}
use xrpl_hive.TestLog.Tail.{head_visit, after_head, head_and_tail_lines}
use xrpl_hive.Suite.Output.{highlight_errors_in_test_output}
use xrpl_hive.Suite.Details.{
  Origin, Hidden, Case, Html, Section, header_sections, format_test_details, log_arrived,
}
use xrpl_hive.Suite.Details.Arrived.{loader_of, waiting, spinner_gone}

module _ (b : Browser) (html : Html) (server : Server) (td : TextDecoder) (describe : Error → Text)
    (suite : Origin) (hidden : Hidden) (d : Case) (offsets : Offsets) where
  read_refused :
      (fuel : ℕ)
      → offsets.begin < offsets.end
      → Refuses server (loader_of suite offsets)
      → head_and_tail_lines server td fuel (loader_of suite offsets) 25 2097152
        ≡ thrown (refusal server (loader_of suite offsets))
  unfolding head_and_tail_lines
  read_refused fuel some_bytes refused =
      let l = loader_of suite offsets in
      ap (λ o. o >>= after_head server td fuel l 25 2097152)
        (iter_lines-refused server l td (head_visit 25 2097152) ([], 0) (omega arith) refused)

  -- A test whose output is a range of a log that is not empty, where the server refuses the first request
  -- for it: the box waits with a spinner, and then has the text of the error in its place.
  pub format_test_details-refused :
      (fuel : ℕ)
      → d.test.details ≡ none
      → d.test.log ≡ some offsets
      → offsets.begin < offsets.end
      → Refuses server (loader_of suite offsets)
      → (format_test_details b html suite hidden d
          ≡ done (
            header_sections b html suite hidden d ++ Section.spinner ∷ [],
            some (loader_of suite offsets),
          ))
        × (log_arrived b html describe suite d
              (head_and_tail_lines server td fuel (loader_of suite offsets) 25 2097152)
              (header_sections b html suite hidden d ++ Section.spinner ∷ [])
            ≡ header_sections b html suite hidden d
              ++ Section.failure (
                  highlight_errors_in_test_output
                    (describe (refusal server (loader_of suite offsets))))
                ∷ [])
  unfolding log_arrived
  format_test_details-refused fuel no_text logged some_bytes refused =
      let error = refusal server (loader_of suite offsets) in
      (
        waiting b html suite hidden d offsets no_text logged (omega arith),
        ap
              (λ r.
                log_arrived b html describe suite d r
                  (header_sections b html suite hidden d ++ Section.spinner ∷ []))
              (read_refused fuel some_bytes refused)
            ∙ ap (λ h. h ++ Section.failure (highlight_errors_in_test_output (describe error)) ∷ [])
                (spinner_gone b html suite hidden d),
      )
