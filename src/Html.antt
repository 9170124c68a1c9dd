-- ===== src/Html.antt =====
-- cmd/hiveview/assets/lib/html.js: `sanitizeHtml` and `makeDefinitionList`, on the nodes of a document. How
-- the browser parses and writes HTML is a parameter. An element has its name as `toLowerCase` gives it.
pub mod Sanitize
pub mod Button
mod Tests
use xrpl_hive.Base.{
  Bool, true, false, ◌||◌, List, [], ◌∷◌, ◌++◌, Option, none, some, Text, codes, if◌then◌else◌,
}
use xrpl_hive.Maps.{same, Map, get, or_else}

-- Nodes that stand beside each other: an element has a name, attributes and nodes inside.
pub data Nodes : Type 0 where
  nil : Nodes
  text : Text → Nodes → Nodes
  element : Text → Map Text → Nodes → Nodes → Nodes

-- The attributes that each element may have; those of "*" every element may have.
abbrev pub AllowList : Type 0
AllowList = Map (List Text)

abbrev pub includes : Text → List Text → Bool
includes x [] = false
includes x (y ∷ ys) = same x y || includes x ys

abbrev pub is_key : Text → AllowList → Bool
is_key k [] = false
is_key k ((j, v) ∷ m) = same k j || is_key k m

abbrev pub allowed_attributes : AllowList → Text → List Text
allowed_attributes allow name = or_else [] (get (codes "*") allow) ++ or_else [] (get name allow)

pub keep_attributes : List Text → Map Text → Map Text
keep_attributes allowed [] = []
keep_attributes allowed ((k, v) ∷ attrs) =
    let rest = keep_attributes allowed attrs in if includes k allowed then (k, v) ∷ rest else rest

-- The loop of `sanitizeHtml`: an element that goes takes along what is inside.
pub sanitize_nodes : AllowList → Nodes → Nodes
unfolding keep_attributes
sanitize_nodes allow nil = nil
sanitize_nodes allow (text t nodes) = text t (sanitize_nodes allow nodes)
sanitize_nodes allow (element name attributes inside nodes) =
    let inside' = sanitize_nodes allow inside in
    let nodes' = sanitize_nodes allow nodes in
    if is_key name allow
    then element name (keep_attributes (allowed_attributes allow name) attributes) inside' nodes'
    else nodes'

module _ (parse : Text → Nodes) (write : Nodes → Text) where
  unfoldable pub sanitize_html : Text → AllowList → Text
  unfolding sanitize_nodes
  sanitize_html [] allow = []
  sanitize_html (c ∷ t) allow = write (sanitize_nodes allow (parse (c ∷ t)))

terms : Map Text → Nodes
terms [] = nil
terms ((k, v) ∷ m) =
    element (codes "dt") [] (text k nil) (element (codes "dd") [] (text v nil) (terms m))

unfoldable pub make_definition_list : Map Text → Nodes
unfolding terms
make_definition_list m = element (codes "dl") [] (terms m) nil
