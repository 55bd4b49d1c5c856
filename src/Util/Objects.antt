-- ===== src/Util/Objects.antt =====
-- pkg/util/finalizer.go, pkg/util/annotations.go and pkg/util/labels.go, on the metadata of an object.
-- A nil map of annotations reads as an empty one.
use potter_controller.Prelude.{
  Bool, List, Option, String, [], any, delete, false, if◌then◌else◌, insert, lookup, none, some,
  ◌++◌, ◌==◌, ◌∷◌,
}
use potter_controller.Api.{ObjectMeta}

abbrev pub hub_controller_finalizer : String
hub_controller_finalizer = "hub-controller"

unfoldable pub has_finalizer : ObjectMeta → String → Bool
has_finalizer obj finalizer = any (λ fin. fin == finalizer) obj.finalizers

unfoldable pub add_finalizer : ObjectMeta → String → ObjectMeta
add_finalizer obj finalizer = record obj { finalizers = obj.finalizers ++ finalizer ∷ [] }

unfoldable pub without : String → List String → List String
without finalizer [] = []
without finalizer (fin ∷ fins) =
    let rest = without finalizer fins in if fin == finalizer then rest else fin ∷ rest

unfoldable pub remove_finalizer : ObjectMeta → String → ObjectMeta
unfolding without
remove_finalizer obj finalizer = record obj { finalizers = without finalizer obj.finalizers }

unfoldable pub get_annotation : ObjectMeta → String → Option String
unfolding lookup
get_annotation obj key = lookup key obj.annotations

unfoldable pub has_annotation : ObjectMeta → String → String → Bool
unfolding get_annotation
has_annotation obj key value = elim (get_annotation obj key) [ none ↦ false | some v ↦ v == value ]

unfoldable pub add_annotation : ObjectMeta → String → String → ObjectMeta
unfolding insert
add_annotation obj key value = record obj { annotations = insert key value obj.annotations }

unfoldable pub remove_annotation : ObjectMeta → String → ObjectMeta
unfolding delete
remove_annotation obj key = record obj { annotations = delete key obj.annotations }
