-- ===== src/Kapp/ReplacerLaws.antt =====
-- The replacement of secret names against a description of it: the secret names of a tree, and the tree
-- without them.
use mathlib.Core.List.{map-append}
use potter_controller.Prelude.{
  List, Map, String, [], ap, arith, if◌then◌else◌, map, refl, ◌++◌, ◌∷◌, ◌≡◌,
}
use potter_controller.Kapp.Replacer.{
  Tree, TreeFields, Trees, is_name_of_secret, json_array, json_map, json_other, json_string, mapped,
  no_fields, no_trees, replace_elements, replace_field, replace_fields, replace_tree, tree,
  tree_field,
}

-- The texts of the fields "name" of the objects that stand under "secretRef", from left to right.
unfoldable mutual
  pub referenced_names : Tree → String → List String
  referenced_names (json_array ts) parent = names_of_elements ts
  referenced_names (json_map fs) parent = names_of_fields fs parent
  referenced_names t parent = []

  pub names_of_elements : Trees → List String
  names_of_elements no_trees = []
  names_of_elements (tree t ts) = referenced_names t "" ++ names_of_elements ts

  pub names_of_fields : TreeFields → String → List String
  names_of_fields no_fields parent = []
  names_of_fields (tree_field key t fs) parent =
      names_of_field key t parent ++ names_of_fields fs parent

  pub names_of_field : String → Tree → String → List String
  names_of_field key (json_string s) parent = if is_name_of_secret key parent then s ∷ [] else []
  names_of_field key (json_array ts) parent = names_of_elements ts
  names_of_field key (json_map fs) parent = names_of_fields fs key
  names_of_field key (json_other raw) parent = []

-- The same tree with empty secret names.
unfoldable mutual
  pub without_names : Tree → String → Tree
  without_names (json_array ts) parent = json_array (elements_without_names ts)
  without_names (json_map fs) parent = json_map (fields_without_names fs parent)
  without_names t parent = t

  pub elements_without_names : Trees → Trees
  elements_without_names no_trees = no_trees
  elements_without_names (tree t ts) = tree (without_names t "") (elements_without_names ts)

  pub fields_without_names : TreeFields → String → TreeFields
  fields_without_names no_fields parent = no_fields
  fields_without_names (tree_field key t fs) parent =
      tree_field key (field_without_names key t parent) (fields_without_names fs parent)

  pub field_without_names : String → Tree → String → Tree
  field_without_names key (json_string s) parent =
      if is_name_of_secret key parent then json_string "" else json_string s
  field_without_names key (json_array ts) parent = json_array (elements_without_names ts)
  field_without_names key (json_map fs) parent = json_map (fields_without_names fs key)
  field_without_names key (json_other raw) parent = json_other raw

module _ (mapping : Map String) where
  mutual
    unfolding replace_tree referenced_names

    names_lem :
        (t : Tree) (p : String)
        → referenced_names (replace_tree mapping t p) p
          ≡ map (mapped mapping) (referenced_names t p)
    names_lem (json_string s) p = refl
    names_lem (json_array ts) p = elements_lem ts
    names_lem (json_map fs) p = fields_lem fs p
    names_lem (json_other raw) p = refl

    elements_lem :
        (ts : Trees)
        → names_of_elements (replace_elements mapping ts)
          ≡ map (mapped mapping) (names_of_elements ts)
    elements_lem no_trees = refl
    elements_lem (tree t ts) =
        rw
          (
            names_lem t "",
            elements_lem ts,
            map-append (mapped mapping) (referenced_names t "") (names_of_elements ts),
          )
          refl

    fields_lem :
        (fs : TreeFields) (p : String)
        → names_of_fields (replace_fields mapping fs p) p
          ≡ map (mapped mapping) (names_of_fields fs p)
    fields_lem no_fields p = refl
    fields_lem (tree_field key t fs) p =
        rw
          (
            field_lem key t p,
            fields_lem fs p,
            map-append (mapped mapping) (names_of_field key t p) (names_of_fields fs p),
          )
          refl

    field_lem :
        (key : String) (t : Tree) (p : String)
        → names_of_field key (replace_field mapping key t p) p
          ≡ map (mapped mapping) (names_of_field key t p)
    field_lem key (json_string s) p = ground arith
    field_lem key (json_array ts) p = elements_lem ts
    field_lem key (json_map fs) p = fields_lem fs key
    field_lem key (json_other raw) p = refl

  mutual
    unfolding replace_tree without_names

    rest_lem :
        (t : Tree) (p : String) → without_names (replace_tree mapping t p) p ≡ without_names t p
    rest_lem (json_string s) p = refl
    rest_lem (json_array ts) p = ap json_array (elements_rest ts)
    rest_lem (json_map fs) p = ap json_map (fields_rest fs p)
    rest_lem (json_other raw) p = refl

    elements_rest :
        (ts : Trees)
        → elements_without_names (replace_elements mapping ts) ≡ elements_without_names ts
    elements_rest no_trees = refl
    elements_rest (tree t ts) = rw (rest_lem t "", elements_rest ts) refl

    fields_rest :
        (fs : TreeFields) (p : String)
        → fields_without_names (replace_fields mapping fs p) p ≡ fields_without_names fs p
    fields_rest no_fields p = refl
    fields_rest (tree_field key t fs) p = rw (field_rest key t p, fields_rest fs p) refl

    field_rest :
        (key : String) (t : Tree) (p : String)
        → field_without_names key (replace_field mapping key t p) p ≡ field_without_names key t p
    field_rest key (json_string s) p = ground arith
    field_rest key (json_array ts) p = ap json_array (elements_rest ts)
    field_rest key (json_map fs) p = ap json_map (fields_rest fs key)
    field_rest key (json_other raw) p = refl

-- The replacement in a tree, for any mapping: the secret names of the new tree are, one by one and in
-- order, those of the old tree by the mapping, a name that it does not have as it is; and apart from its
-- secret names the new tree is the old one.
pub replaces_secret_names :
    (mapping : Map String) (t : Tree)
    → (referenced_names (replace_tree mapping t "") ""
        ≡ map (mapped mapping) (referenced_names t ""))
      × (without_names (replace_tree mapping t "") "" ≡ without_names t "")
replaces_secret_names mapping t = (names_lem mapping t "", rest_lem mapping t "")
