-- ===== src/Deploy/MergeMaps.antt =====
-- `MergeMaps` of pkg/deployutil/deployutil.go, on the values of a `map[string]interface{}`.
use potter_controller.Prelude.{
  Option, String, arith, eq_iff, if◌then◌else◌, none, refl, some, ◌==◌, ◌≡◌,
}
use potter_controller.Api.{Raw}

-- A value that is not a map is its text. The order of a map is that of its iteration.
mutual
  pub data Value : Type 0 where
    scalar : Raw → Value
    object : Fields → Value

  pub data Fields : Type 0 where
    end : Fields
    field : String → Value → Fields → Fields

-- result[key]
unfoldable pub get_field : String → Fields → Option Value
get_field k end = none
get_field k (field j v fs) = if j == k then some v else get_field k fs

-- result[key] = value
unfoldable pub put_field : String → Value → Fields → Fields
put_field k v end = field k v end
put_field k v (field j u fs) =
    let rest = put_field k v fs in if j == k then field k v fs else field j u rest

-- The second map is iterated over; `merge_value` is the body of the loop for the value that the result
-- has at the key.
unfoldable mutual
  unfolding get_field put_field

  pub merge_maps : Fields → Fields → Fields
  merge_maps a end = a
  merge_maps a (field k v b) = merge_maps (put_field k (merge_value (get_field k a) v) a) b

  pub merge_value : Option Value → Value → Value
  merge_value (some (object a)) (object b) = object (merge_maps a b)
  merge_value _ v = v

-- No key stands twice.
abbrev pub Unique : Fields → Type 0
Unique end = Unit
Unique (field k v fs) = (get_field k fs ≡ none) × Unique fs

get_field-put_field :
    (k j : String) (v : Value) (fs : Fields)
    → get_field j (put_field k v fs) ≡ (if k == j then some v else get_field j fs)
unfolding get_field put_field
get_field-put_field k j v end = ground arith
get_field-put_field k j v (field i u fs) =
    ground (arith, get_field-put_field k j v fs, eq_iff i k, eq_iff i j, eq_iff k j)

-- At every key that the second map does not have, the merged map has what the first one has; at every
-- other key it has the value of the second map, merged into the value of the first one where both are
-- maps. No key stands twice in the second map.
pub get_field-merge_maps :
    (a b : Fields) (k : String)
    → Unique b
    → get_field k (merge_maps a b) ≡ (elim (get_field k b) [
      | none ↦ get_field k a
      | some v ↦ some (merge_value (get_field k a) v)
    ])
unfolding merge_maps get_field
get_field-merge_maps a end k h = refl
get_field-merge_maps a (field j v b) k (h, hs) = ground (
  arith,
  h,
  eq_iff j k,
  get_field-put_field j k (merge_value (get_field j a) v) a,
  get_field-merge_maps (put_field j (merge_value (get_field j a) v) a) b k hs,
)
