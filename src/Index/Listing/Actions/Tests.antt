-- ===== src/Index/Listing/Actions/Tests.antt =====
-- The buttons of a run.
use xrpl_hive.Base.{[], ◌∷◌, ◌++◌, Text, codes, false, refl, ◌≡◌}
use xrpl_hive.Browser.Example.{example_browser}
use xrpl_hive.Routes
use xrpl_hive.Html.{Nodes, nil, text, element}
use xrpl_hive.Utils.Size.{format_bytes}
use xrpl_hive.Index.Listing.{Run}
use xrpl_hive.Index.Listing.Actions.{action_cell, filter_call, action_cell-attributes}

abbrev label : Text → Nodes
label t = text t nil

abbrev sync_run : Run
sync_run = record {
  entry = record {
    name = codes "sync";
    clients = codes "a" ∷ codes "b" ∷ [];
    start = codes "1";
    passes = 1;
    fails = 0;
  };
  file_name = codes "1.json";
  timeout = false;
  versions = [];
}

action_cell-attributes_example : action_cell example_browser label sync_run 2048 ≡ (
  element
      (codes "a")
      ((codes "href", codes "#")
        ∷ (codes "class", codes "btn btn-outline-secondary btn-sm")
        ∷ (codes "onclick", filter_call (codes "sync") (codes "a,b"))
        ∷ (codes "title", codes "Filter by this suite and client")
        ∷ [])
      (label (codes "<i class=\"bi bi-funnel\"></i>"))
      nil,
  element
      (codes "a")
      ((codes "href", Routes.suite example_browser (codes "1.json") (codes "sync"))
        ∷ (codes "class", codes "btn btn-secondary btn-sm flex-grow-1")
        ∷ [])
      (label (codes "Load (" ++ (format_bytes example_browser.write 2048 ++ codes ")")))
      nil,
)
unfolding xrpl_hive.Index.join
action_cell-attributes_example =
    action_cell-attributes example_browser label sync_run 2048
      ((refl, refl), ((refl, refl), ((refl, refl), ((refl, refl), tt))))
      ((refl, refl), ((refl, refl), ((refl, refl), tt)))
