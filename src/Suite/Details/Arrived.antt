-- ===== src/Suite/Details/Arrived.antt =====
-- The box of a test whose output is in a file of its own, from the click to the lines of the log.
use xrpl_hive.Base.{
  ℕ, ◌-◌, ◌≤◌, true, false, List, [], ◌∷◌, ◌++◌, none, some, Bytes, Text, codes, ◌≡◌, refl, ap, sym,
  ◌∙◌, length, length-map, map, ge→ltb, All, arith, append_assoc, append-nil, Bool, inr,
}
use xrpl_hive.Browser.{Browser}
use xrpl_hive.Routes.{results_root, test_log}
use xrpl_hive.TestLog.Decode.{TextDecoder, Ascii}
use xrpl_hive.TestLog.Lines.Spec.{Plain, terminate}
use xrpl_hive.TestLog.Loader.{Error, Server, Offsets, Loader, done, new_loader}
use xrpl_hive.TestLog.Loader.Fetch.{Serves, region}
use xrpl_hive.TestLog.Tail.{head_and_tail_lines}
use xrpl_hive.TestLog.Tail.Loop.{log_of}
use xrpl_hive.TestLog.Tail.Visits.{text_of}
use xrpl_hive.TestLog.Tail.Long.{head_and_tail_lines-ends}
use xrpl_hive.Suite.Output.{
  Block, LogData, no_items, trunc_text, format_test_detail_lines, format_test_log,
}
use xrpl_hive.Suite.Details.{
  TestStatus, LogLink, Origin, Hidden, Case, Html, Section, when, log_section, header_sections,
  after_details, format_test_details, without_spinner, log_arrived,
}
use xrpl_hive.Suite.Details.Shown.{no_items-length}

-- The loader of a range of the log of a suite.
abbrev pub loader_of : Origin → Offsets → Loader
loader_of suite offsets = record {
  log_file_name = results_root ++ suite.test_details_log;
  length = offsets.end - offsets.begin;
  offsets = offsets;
}

module _ (b : Browser) (html : Html) where
  -- The first and the last lines, with a link to the whole log between them.
  abbrev pub ends_blocks : Origin → Text → List Text → List Text → List Block
  ends_blocks suite test_index head tail =
      Block.code true false (format_test_detail_lines html.encode head)
      ∷ Block.trunc (test_log b suite.suite_id suite.name test_index)
          (codes "Output truncated. Click here to see full log.")
      ∷ Block.code false true (format_test_detail_lines html.encode tail)
      ∷ []

  format_ends :
      (suite : Origin) (test_index : Text) (head tail : List Text)
      → no_items head ≡ false
      → no_items tail ≡ false
      → format_test_log html.encode b suite.suite_id suite.name test_index
          (record { head = head; tail = tail; hidden_lines = none })
        ≡ ends_blocks suite test_index head tail
  unfolding format_test_log trunc_text
  format_ends suite test_index (x ∷ head) (y ∷ tail) h t = refl
  format_ends suite test_index [] tail h t = absurd (ground arith)
  format_ends suite test_index (x ∷ head) [] h t = absurd (ground arith)

  pub waiting :
      (suite : Origin) (hidden : Hidden) (d : Case) (offsets : Offsets)
      → d.test.details ≡ none
      → d.test.log ≡ some offsets
      → offsets.begin ≤ offsets.end
      → format_test_details b html suite hidden d
        ≡ done (
          header_sections b html suite hidden d ++ Section.spinner ∷ [],
          some (loader_of suite offsets),
        )
  unfolding format_test_details after_details new_loader
  waiting suite hidden d offsets no_text logged ordered =
      rw (no_text, logged, ge→ltb offsets.end offsets.begin ordered) refl

  -- Parts without a spinner stay when the spinner goes.
  Stays : List Section → Type 0
  Stays xs =
      (rest : List Section)
      → without_spinner b html (xs ++ rest) ≡ xs ++ without_spinner b html rest

  when-Stays : (c : Bool) (x : Section) → Stays (x ∷ []) → Stays (when c x)
  unfolding Stays without_spinner
  when-Stays true x h rest = h rest
  when-Stays false x h rest = refl

  append-Stays : (xs ys : List Section) → Stays xs → Stays ys → Stays (xs ++ ys)
  unfolding Stays
  append-Stays xs ys h k rest =
      ap (without_spinner b html) (append_assoc xs ys rest)
      ∙ h (ys ++ rest)
      ∙ ap (λ r. xs ++ r) (k rest)
      ∙ sym (append_assoc xs ys (without_spinner b html rest))

  status-Stays : (x : TestStatus) → Stays (Section.status x ∷ [])
  unfolding Stays without_spinner
  status-Stays x rest = refl

  clients-Stays : (x : List LogLink) → Stays (Section.clients x ∷ [])
  unfolding Stays without_spinner
  clients-Stays x rest = refl

  duration-Stays : (x : Text) → Stays (Section.duration x ∷ [])
  unfolding Stays without_spinner
  duration-Stays x rest = refl

  description-Stays : (x : Text) → Stays (Section.description x ∷ [])
  unfolding Stays without_spinner
  description-Stays x rest = refl

  header_sections-Stays :
      (suite : Origin) (hidden : Hidden) (d : Case) → Stays (header_sections b html suite hidden d)
  unfolding header_sections
  header_sections-Stays suite hidden d =
      append-Stays _ _
        (append-Stays _ _
          (append-Stays _ _ (when-Stays _ _ (status-Stays _)) (when-Stays _ _ (clients-Stays _)))
          (when-Stays _ _ (duration-Stays _)))
        (when-Stays _ _ (description-Stays _))

  pub spinner_gone :
      (suite : Origin) (hidden : Hidden) (d : Case)
      → without_spinner b html (header_sections b html suite hidden d ++ Section.spinner ∷ [])
        ≡ header_sections b html suite hidden d
  unfolding Stays without_spinner
  spinner_gone suite hidden d =
      header_sections-Stays suite hidden d (Section.spinner ∷ [])
      ∙ append-nil (header_sections b html suite hidden d)

  module _ (server : Server) (td : TextDecoder) (describe : Error → Text) (suite : Origin)
      (hidden : Hidden) (d : Case) (file : Bytes) (offsets : Offsets) where
    -- A test whose output is a range of a log in ASCII, of at most 2097152 bytes and of lines that end in
    -- newlines, at least 50 of them: the box waits with a spinner for the loader of that range; when its
    -- loops have ended, which they do, the spinner is gone, and the first 25 lines and the last 25 are
    -- there, with a link to the whole log between them.
    pub format_test_details-ends_blocks :
        (top middle bottom : List Text) (fuel : ℕ)
        → d.test.details ≡ none
        → d.test.log ≡ some offsets
        → offsets.begin ≤ offsets.end
        → offsets.end ≤ length file
        → offsets.end - offsets.begin ≤ 2097152
        → Serves server (results_root ++ suite.test_details_log) file
        → Ascii (region (loader_of suite offsets) file)
        → log_of (loader_of suite offsets) file ≡ text_of (top ++ (middle ++ bottom))
        → All Plain (top ++ (middle ++ bottom))
        → length top ≡ 25
        → length bottom ≡ 25
        → 2097179 ≤ fuel
        → (format_test_details b html suite hidden d
            ≡ done (
              header_sections b html suite hidden d ++ Section.spinner ∷ [],
              some (loader_of suite offsets),
            ))
          × (log_arrived b html describe suite d
                (head_and_tail_lines server td fuel (loader_of suite offsets) 25 2097152)
                (header_sections b html suite hidden d ++ Section.spinner ∷ [])
              ≡ header_sections b html suite hidden d
                ++ Section.details
                    (ends_blocks suite d.test_index (map terminate top) (map terminate bottom))
                  ∷ [])
    unfolding log_arrived
    format_test_details-ends_blocks top middle bottom fuel no_text logged ordered in_file small
          served ascii parts plain first_n last_n enough =
        let l = loader_of suite offsets in
        let header = header_sections b html suite hidden d in
        let box = header ++ Section.spinner ∷ [] in
        let ends : LogData = record {
          head = map terminate top;
          tail = map terminate bottom;
          hidden_lines = none;
        } in
        let read =
          head_and_tail_lines-ends server td l file served (omega arith) ascii top middle bottom 25
            2097152 parts plain (omega arith) first_n last_n (inr small) fuel (omega arith) in
        (
          waiting suite hidden d offsets no_text logged ordered,
          ap (λ r. log_arrived b html describe suite d r box) read
              ∙ ap (λ h. h ++ log_section b html suite d.test_index ends ∷ [])
                  (spinner_gone suite hidden d)
              ∙ ap (λ blocks. header ++ Section.details blocks ∷ [])
                  (format_ends suite d.test_index ends.head ends.tail
                    (no_items-length ends.head (omega (arith, length-map terminate top)))
                    (no_items-length ends.tail (omega (arith, length-map terminate bottom)))),
        )
