-- ===== src/Html/Sanitize.antt =====
-- What is left of a document when it is sanitized.
use xrpl_hive.Base.{true, List, [], ◌∷◌, Text, ◌≡◌, ◌≢◌, refl, ap, All, Bool-cases, inl, inr}
use xrpl_hive.Maps.{Map}
use xrpl_hive.Html.{
  Nodes, nil, text, element, AllowList, includes, is_key, allowed_attributes, keep_attributes,
  sanitize_nodes, sanitize_html,
}

abbrev pub CleanAttributes : List Text → Map Text → Type 0
CleanAttributes allowed attrs = All (λ a. includes a.0 allowed ≡ true) attrs

-- Every element, at any depth, is on the list, and so is each of its attributes.
abbrev pub Clean : AllowList → Nodes → Type 0
Clean allow nil = Unit
Clean allow (text t nodes) = Clean allow nodes
Clean allow (element name attributes inside nodes) =
    (is_key name allow ≡ true)
    × CleanAttributes (allowed_attributes allow name) attributes
    × Clean allow inside
    × Clean allow nodes

keep_attributes-Clean :
    (allowed : List Text) (attrs : Map Text)
    → CleanAttributes allowed (keep_attributes allowed attrs)
unfolding keep_attributes
keep_attributes-Clean allowed [] = tt
keep_attributes-Clean allowed ((k, v) ∷ attrs) = elim (Bool-cases (includes k allowed)) [
  | inl q ↦ rw q (q, keep_attributes-Clean allowed attrs)
  | inr q ↦ rw q (keep_attributes-Clean allowed attrs)
]

keep_attributes_keeps :
    (allowed : List Text) (attrs : Map Text)
    → CleanAttributes allowed attrs
    → keep_attributes allowed attrs ≡ attrs
unfolding keep_attributes
keep_attributes_keeps allowed [] c = refl
keep_attributes_keeps allowed ((k, v) ∷ attrs) c =
    rw (c.0, keep_attributes_keeps allowed attrs c.1) refl

sanitize_nodes-Clean :
    (allow : AllowList) (nodes : Nodes) → Clean allow (sanitize_nodes allow nodes)
unfolding sanitize_nodes
sanitize_nodes-Clean allow nil = tt
sanitize_nodes-Clean allow (text t nodes) = sanitize_nodes-Clean allow nodes
sanitize_nodes-Clean allow (element name attributes inside nodes) =
    elim (Bool-cases (is_key name allow)) [
      | inl q ↦ rw q (
        q,
        keep_attributes-Clean (allowed_attributes allow name) attributes,
        sanitize_nodes-Clean allow inside,
        sanitize_nodes-Clean allow nodes,
      )
      | inr q ↦ rw q (sanitize_nodes-Clean allow nodes)
    ]

sanitize_nodes_keeps :
    (allow : AllowList) (nodes : Nodes) → Clean allow nodes → sanitize_nodes allow nodes ≡ nodes
unfolding sanitize_nodes
sanitize_nodes_keeps allow nil c = refl
sanitize_nodes_keeps allow (text t nodes) c = ap (text t) (sanitize_nodes_keeps allow nodes c)
sanitize_nodes_keeps allow (element name attributes inside nodes) (k, a, i, n) =
    rw
      (
        k,
        keep_attributes_keeps (allowed_attributes allow name) attributes a,
        sanitize_nodes_keeps allow inside i,
        sanitize_nodes_keeps allow nodes n,
      )
      refl

-- What `sanitizeHtml` writes for a text that is not empty: nodes of which every element is on the list,
-- with attributes that are allowed for it only; and if the parsed text has no others, all of its nodes.
pub sanitize_html-Clean :
    (parse : Text → Nodes) (write : Nodes → Text) (t : Text) (allow : AllowList)
    → t ≢ []
    → (nodes : Nodes) × (sanitize_html parse write t allow ≡ write nodes)
      × Clean allow nodes
      × (Clean allow (parse t) → nodes ≡ parse t)
unfolding sanitize_html
sanitize_html-Clean parse write [] allow h = absurd (h refl)
sanitize_html-Clean parse write (c ∷ t) allow h = (
  sanitize_nodes allow (parse (c ∷ t)),
  refl,
  sanitize_nodes-Clean allow (parse (c ∷ t)),
  sanitize_nodes_keeps allow (parse (c ∷ t)),
)
