-- ===== src/Common/Header.antt =====
-- `updateHeader` and `hiveInfoHTML`: what the header says of hive, as the nodes of its HTML. How a date is
-- written and `escape` are parameters.
use xrpl_hive.Base.{[], ◌∷◌, ◌++◌, Option, none, some, Text, codes, take, ◌≡◌, refl}
use xrpl_hive.Html.{Nodes, nil, text, element}
use xrpl_hive.Html.Button.{make_link}

-- The file hive.json, where a field can be missing.
pub record HiveInfo : Type 0 where
  pub build_date : Option Text
  pub source_commit : Option Text

-- Nodes that stand behind others.
abbrev pub followed_by : Nodes → Nodes → Nodes
followed_by nil others = others
followed_by (text t nodes) others = text t (followed_by nodes others)
followed_by (element name attributes inside nodes) others =
    element name attributes inside (followed_by nodes others)

module _ (locale_date escape : Text → Text) where
  built : Option Text → Nodes
  built none = nil
  built (some []) = nil
  built (some (c ∷ date)) =
      element (codes "span") [] (text (codes "hiveview (UI) built: " ++ locale_date (c ∷ date)) nil)
        nil

  -- The link shows the first 8 characters of the commit.
  commit : Option Text → Nodes
  commit none = nil
  commit (some []) = nil
  commit (some (c ∷ hash)) =
      let url = codes "https://github.com/ethereum/hive/commits/" ++ escape (c ∷ hash) in
      element (codes "span") [] (text (codes "commit: ") (make_link url (take 8 (c ∷ hash)))) nil

  unfoldable pub hive_info_html : HiveInfo → Nodes
  unfolding built commit
  hive_info_html info = followed_by (built info.build_date) (commit info.source_commit)

  -- The header after the load of hive.json, or after an error, which `none` stands for.
  unfoldable pub update_header : Option HiveInfo → Nodes → Nodes
  update_header none header = header
  update_header (some info) header = hive_info_html info

abbrev same_text : Text → Text
same_text t = t

commit_run :
    update_header same_text same_text
      (some (record { build_date = none; source_commit = some (codes "0123456789") }))
      nil
    ≡ element
        (codes "span")
        []
        (text (codes "commit: ") (
          element
            (codes "a")
            ((codes "href", codes "https://github.com/ethereum/hive/commits/0123456789") ∷ [])
            (text (codes "01234567") nil)
            nil))
        nil
unfolding update_header hive_info_html make_link
commit_run = refl
