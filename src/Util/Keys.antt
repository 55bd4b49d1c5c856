-- ===== src/Util/Keys.antt =====
-- pkg/util/keys.go: the names of deploy items, and the keys of clusterboms that are read off them.
use Prim.Native.Char.{Char, code}
use Prim.Native.String.{String, [], ◌∷◌, ◌++◌}
use potter_controller.Prelude.{Bool, Option, eqb, false, if◌then◌else◌, lookup, none, some, ◌&&◌}
use potter_controller.Api.{DeployItem, NamespacedName, ObjectMeta, label_cluster_bom_name}

abbrev pub separator : String
separator = "-"

-- The character of `Separator`.
abbrev pub is_dash : Char → Bool
is_dash c = eqb (code c) 45

-- A text starts with `Separator`, or with `DoubleSeparator`.
abbrev pub starts_single : String → Bool
starts_single [] = false
starts_single (c ∷ s) = is_dash c

abbrev pub starts_double : String → Bool
starts_double [] = false
starts_double (c ∷ s) = is_dash c && starts_single s

-- `name[0:strings.LastIndex(name, separator)]`, or `none` where the index is -1.
unfoldable pub before_last : (String → Bool) → String → Option String
before_last p [] = none
before_last p (c ∷ s) = elim (before_last p s) [
  | some r ↦ some (c ∷ r)
  | none ↦ if p (c ∷ s) then some [] else none
]

unfoldable pub create_deploy_item_name : String → String → String
create_deploy_item_name bom app = bom ++ separator ++ app

-- With a generated UUID.
unfoldable pub create_secret_name : String → String → String → String
create_secret_name uuid bom app = bom ++ separator ++ app ++ separator ++ uuid

-- `none` is the panic of a slice up to -1, on a name without a separator.
unfoldable pub get_cluster_bom_key_from_deploy_item_key : NamespacedName → Option NamespacedName
unfolding before_last
get_cluster_bom_key_from_deploy_item_key key =
    let found : Option String = elim (before_last starts_double key.name) [
      | some r ↦ some r
      | none ↦ before_last starts_single key.name
    ] in
    elim found [ none ↦ none | some r ↦ some (record { namespace = key.namespace; name = r }) ]

unfoldable pub get_cluster_bom_key_from_deploy_item : DeployItem → NamespacedName
unfolding lookup
get_cluster_bom_key_from_deploy_item item = record {
  namespace = item.meta.namespace;
  name = elim (lookup label_cluster_bom_name item.meta.labels) [ none ↦ "" | some n ↦ n ];
}

abbrev pub get_key : ObjectMeta → NamespacedName
get_key meta = record { namespace = meta.namespace; name = meta.name }
