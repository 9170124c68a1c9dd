-- ===== src/Html/Tests.antt =====
-- A script in a paragraph, and an instance of the result.
use xrpl_hive.Base.{[], ◌∷◌, Text, codes, ◌≡◌, refl}
use xrpl_hive.Html.{Nodes, nil, text, element, AllowList, sanitize_nodes, sanitize_html}
use xrpl_hive.Html.Sanitize.{Clean, sanitize_html-Clean}

abbrev allow_links : AllowList
allow_links =
    (codes "p", []) ∷ (codes "a", codes "href" ∷ []) ∷ (codes "*", codes "class" ∷ []) ∷ []

abbrev with_script : Nodes
with_script =
    element (codes "p") ((codes "onclick", codes "f()") ∷ (codes "class", codes "c") ∷ [])
      (element (codes "script") [] (text (codes "f()") nil) (text (codes "peers") nil)) nil

sanitize_nodes_run :
    sanitize_nodes allow_links with_script
    ≡ element (codes "p") ((codes "class", codes "c") ∷ []) (text (codes "peers") nil) nil
unfolding sanitize_nodes
sanitize_nodes_run = refl

-- A parser that takes each text for the paragraph, and a writer of the texts.
abbrev paragraph : Text → Nodes
paragraph t = with_script

abbrev texts : Nodes → Text
texts nil = []
texts (text t nodes) = t
texts (element name attributes inside nodes) = texts inside

sanitize_html-Clean_example :
    (nodes : Nodes) × (sanitize_html paragraph texts (codes "<p>") allow_links ≡ texts nodes)
    × Clean allow_links nodes
    × (Clean allow_links (paragraph (codes "<p>")) → nodes ≡ paragraph (codes "<p>"))
sanitize_html-Clean_example =
    sanitize_html-Clean paragraph texts (codes "<p>") allow_links (λ e. cc)
