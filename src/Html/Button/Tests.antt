-- ===== src/Html/Button/Tests.antt =====
-- `makeButton` on an apostrophe inside quotes, and on an unfinished attribute.
use xrpl_hive.Base.{[], ◌∷◌, Text, codes, ◌≡◌, refl}
use xrpl_hive.Html.{Nodes, nil, text, element}
use xrpl_hive.Html.Button.{make_button}

abbrev plain : Text → Nodes
plain t = text t nil

button_with_apostrophe :
    make_button plain (codes "#") (codes "x") (codes "b") (codes "Title=\"it's\" data=5 id='k'")
    ≡ element
        (codes "a")
        ((codes "href", codes "#")
          ∷ (codes "class", codes "btn b")
          ∷ (codes "title", codes "it's")
          ∷ (codes "id", codes "k")
          ∷ [])
        (text (codes "x") nil)
        nil
unfolding make_button
button_with_apostrophe = refl

button_cut_short :
    make_button plain (codes "#") (codes "x") (codes "b") (codes "onclick='f('a')'")
    ≡ element
        (codes "a")
        ((codes "href", codes "#")
          ∷ (codes "class", codes "btn b")
          ∷ (codes "onclick", codes "f(")
          ∷ [])
        (text (codes "x") nil)
        nil
unfolding make_button
button_cut_short = refl
