-- ===== src/Index/Listing/Actions.antt =====
-- cmd/hiveview/assets/lib/app-index.js: the buttons of a row of the table.
mod Tests
use xrpl_hive.Base.{
  ℕ, ◌+◌, Bool, true, false, not, ◌&&◌, List, [], ◌∷◌, ◌++◌, Text, codes, length, ◌==◌, ◌≤◌, ◌≡◌,
  ◌≢◌, refl, ap, sym, ◌∙◌, arith, All, All-append, append_assoc, Bool-cases, inl, inr,
  if◌then◌else◌,
}
use xrpl_hive.Maps.{Map}
use xrpl_hive.Browser.{Browser}
use xrpl_hive.Routes
use xrpl_hive.Html.{Nodes, nil, element}
use xrpl_hive.Html.Button.{ends_line, match_all, set_attributes, make_button}
use xrpl_hive.Html.Button.Written.{Plain, Free, attribute_part, attribute_text, match_all-text}
use xrpl_hive.Suite.Output.{word_char}
use xrpl_hive.Utils.Size.{format_bytes}
use xrpl_hive.Index.{join}
use xrpl_hive.Index.Listing.{Run}

-- The attributes of the button that filters, as they are written for `makeButton`.
filter_attributes : Text → Text → Text
filter_attributes name client_key =
    codes "onclick=\"filterSuiteAndClient('"
    ++ (name
        ++ (codes "', '"
            ++ (client_key
                ++ codes "'); return false;\" title=\"Filter by this suite and client\"")))

-- The two buttons, for the size of the file of the run.
unfoldable pub action_cell : Browser → (Text → Nodes) → Run → ℕ → Nodes × Nodes
unfolding filter_attributes
action_cell b parse run size =
    let url = Routes.suite b run.file_name run.entry.name in
    let load_text = codes "Load (" ++ (format_bytes b.write size ++ codes ")") in
    let client_key = join run.entry.clients in
    (
      make_button parse (codes "#") (codes "<i class=\"bi bi-funnel\"></i>")
          (codes "btn-outline-secondary btn-sm") (filter_attributes run.entry.name client_key),
      make_button parse url load_text (codes "btn-secondary btn-sm flex-grow-1") [],
    )

-- What a click on the button that filters runs.
abbrev pub filter_call : Text → Text → Text
filter_call name client_key =
    codes "filterSuiteAndClient('"
    ++ (name ++ (codes "', '" ++ (client_key ++ codes "'); return false;")))

-- The attributes that are meant.
abbrev filter_map : Text → Text → Map Text
filter_map name client_key =
    (codes "onclick", filter_call name client_key)
    ∷ (codes "title", codes "Filter by this suite and client")
    ∷ []

abbrev all_free : Text → Bool
all_free [] = true
all_free (c ∷ t) = not (c == 34) && (not (ends_line c) && all_free t)

all_free-Free : (t : Text) → all_free t ≡ true → All Free t
all_free-Free [] h = tt
all_free-Free (c ∷ t) h = ((ground arith, ground arith), all_free-Free t (ground arith))

append_assoc_four : (a b c d z : Text) → (a ++ (b ++ (c ++ d))) ++ z ≡ a ++ (b ++ (c ++ (d ++ z)))
append_assoc_four a b c d z =
    append_assoc a (b ++ (c ++ d)) z
    ∙ ap (λ t. a ++ t) (append_assoc b (c ++ d) z ∙ ap (λ t. b ++ t) (append_assoc c d z))

abbrev all_word : Text → Bool
all_word [] = true
all_word (c ∷ t) = word_char c && all_word t

all_word-word_char : (t : Text) → all_word t ≡ true → All (λ c. word_char c ≡ true) t
all_word-word_char [] h = tt
all_word-word_char (c ∷ t) h = elim (Bool-cases (word_char c)) [
  | inl q ↦ (q, all_word-word_char t (rw q at h))
  | inr q ↦ let no : false ≡ true = rw q at h in cc
]

filter_attributes-written :
    (name client_key : Text)
    → filter_attributes name client_key ≡ attribute_text (filter_map name client_key)
unfolding filter_attributes
filter_attributes-written name client_key =
    let between = codes "', '" in
    let behind = codes "'); return false;" in
    let title = 32 ∷ attribute_part (codes "title", codes "Filter by this suite and client") in
    sym (
      ap (λ t. codes "onclick=\"filterSuiteAndClient('" ++ t)
        (ap (λ t. t ++ title) (append_assoc_four name between client_key behind (34 ∷ []))
          ∙ append_assoc_four name between client_key (behind ++ 34 ∷ []) title))

filter_call-Free :
    (name client_key : Text)
    → All Free name
    → All Free client_key
    → All Free (filter_call name client_key)
filter_call-Free name client_key h k =
    All-append Free (codes "filterSuiteAndClient('") _
      (all_free-Free (codes "filterSuiteAndClient('") refl)
      (All-append Free name _ h (
        All-append Free (codes "', '") _ (all_free-Free (codes "', '") refl)
          (All-append Free client_key _ k (all_free-Free (codes "'); return false;") refl))))

filter_attributes-Plain :
    (name client_key : Text)
    → All Free name
    → All Free client_key
    → All Plain (filter_map name client_key)
filter_attributes-Plain name client_key h k = (
  (
    not_nil 111 (codes "nclick"),
    all_word-word_char (codes "onclick") refl,
    filter_call-Free name client_key h k,
  ),
  (
    (
      not_nil 116 (codes "itle"),
      all_word-word_char (codes "title") refl,
      all_free-Free (codes "Filter by this suite and client") refl,
    ),
    tt,
  ),
)
  where
    not_nil : (c : ℕ) (t : Text) → c ∷ t ≢ []
    not_nil c t e = cc

-- If neither the name of the suite nor the names of its clients have a double quote or the end of a line,
-- the button that filters has the call with the name and the clients as its handler, and the title; the
-- other button has the URL of the suite.
pub action_cell-attributes :
    (b : Browser) (parse : Text → Nodes) (run : Run) (size : ℕ)
    → All Free run.entry.name
    → All Free (join run.entry.clients)
    → action_cell b parse run size ≡ (
      element
          (codes "a")
          ((codes "href", codes "#")
            ∷ (codes "class", codes "btn btn-outline-secondary btn-sm")
            ∷ (codes "onclick", filter_call run.entry.name (join run.entry.clients))
            ∷ (codes "title", codes "Filter by this suite and client")
            ∷ [])
          (parse (codes "<i class=\"bi bi-funnel\"></i>"))
          nil,
      element
          (codes "a")
          ((codes "href", Routes.suite b run.file_name run.entry.name)
            ∷ (codes "class", codes "btn btn-secondary btn-sm flex-grow-1")
            ∷ [])
          (parse (codes "Load (" ++ (format_bytes b.write size ++ codes ")")))
          nil,
    )
unfolding action_cell make_button set_attributes
action_cell-attributes b parse run size free_name free_clients =
    let name = run.entry.name in
    let client_key = join run.entry.clients in
    ap
      (λ m. (
        element (codes "a")
            (set_attributes m (
              (codes "href", codes "#")
              ∷ (codes "class", codes "btn btn-outline-secondary btn-sm")
              ∷ []))
            (parse (codes "<i class=\"bi bi-funnel\"></i>")) nil,
        element (codes "a")
            ((codes "href", Routes.suite b run.file_name name)
              ∷ (codes "class", codes "btn btn-secondary btn-sm flex-grow-1")
              ∷ [])
            (parse (codes "Load (" ++ (format_bytes b.write size ++ codes ")"))) nil,
      ))
      (match_all-text (filter_attributes name client_key) (filter_map name client_key)
        (filter_attributes-written name client_key)
        (filter_attributes-Plain name client_key free_name free_clients))
