-- ===== src/Kapp/Replacer.antt =====
-- pkg/kapp/replacer.go: logical secret names in a tree of JSON are replaced by internal ones.
use potter_controller.Prelude.{
  Bool, Map, String, if◌then◌else◌, is_empty, lookup, none, some, ◌&&◌, ◌==◌,
}
use potter_controller.Api.{Raw, Result, err, ok}

-- The values of encoding/json. The order of an object's fields is that of the iteration.
mutual
  pub data Tree : Type 0 where
    json_string : String → Tree
    json_array : Trees → Tree
    json_map : TreeFields → Tree
    json_other : Raw → Tree  -- a number, a Boolean, null

  pub data Trees : Type 0 where
    no_trees : Trees
    tree : Tree → Trees → Trees

  pub data TreeFields : Type 0 where
    no_fields : TreeFields
    tree_field : String → Tree → TreeFields → TreeFields

abbrev pub is_name_of_secret : String → String → Bool
is_name_of_secret key parent = key == "name" && (parent == "secretRef")

abbrev pub mapped : Map String → String → String
mapped mapping s = elim (lookup s mapping) [ none ↦ s | some t ↦ t ]

module _ (mapping : Map String) where
  -- A string is changed by the loop over the fields that holds it only.
  unfoldable mutual
    pub replace_tree : Tree → String → Tree
    replace_tree (json_array ts) parent = json_array (replace_elements ts)
    replace_tree (json_map fs) parent = json_map (replace_fields fs parent)
    replace_tree t parent = t

    pub replace_elements : Trees → Trees
    replace_elements no_trees = no_trees
    replace_elements (tree t ts) = tree (replace_tree t "") (replace_elements ts)

    pub replace_fields : TreeFields → String → TreeFields
    replace_fields no_fields parent = no_fields
    replace_fields (tree_field key t fs) parent =
        tree_field key (replace_field key t parent) (replace_fields fs parent)

    pub replace_field : String → Tree → String → Tree
    replace_field key (json_string s) parent =
        json_string (if is_name_of_secret key parent then mapped mapping s else s)
    replace_field key (json_array ts) parent = json_array (replace_elements ts)
    replace_field key (json_map fs) parent = json_map (replace_fields fs key)
    replace_field key (json_other raw) parent = json_other raw

-- `replaceSecretNames`; the arguments are json.Unmarshal and json.Marshal.
unfoldable pub replace_secret_names :
    (Raw → Result Tree) → (Tree → Result Raw) → Map String → Raw → Result Raw
unfolding replace_tree
replace_secret_names unmarshal marshal mapping raw =
    if is_empty mapping
    then ok raw
    else elim (unmarshal raw) [ err e ↦ err e | ok t ↦ marshal (replace_tree mapping t "") ]
