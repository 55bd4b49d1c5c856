-- ===== src/Deploy/Requirements.antt =====
-- `ComputeReadinessForResourceReadyRequirements` of pkg/deployutil/deployutil.go, with the functions of
-- pkg/util/util.go that it calls, and `GetResourceData` of pkg/deployutil/dynamic_client.go.
use Prim.Native.String.{◌++◌}
use potter_controller.Prelude.{
  Bool, List, Map, Option, String, [], any, if◌then◌else◌, lookup, none, some, ◌>>=◌, ◌∷◌,
}
use potter_controller.Api.{
  Raw, ReadyRequirements, Resource, Result, State, elements, err, ok, state_ok, state_unknown,
}
use potter_controller.Deploy.Readiness.{
  BasicKubernetesObject, Workload, job_readiness, object_readiness,
}
use potter_controller.Deploy.Target.{Kubeconfig, TargetSystem, get_resource}
use potter_controller.Deploy.WorseState.{worse_state}
use potter_controller.Util.Text.{has_prefix}

-- encoding/json and jsonpath on objects of type `O` with values of type `V`: an object of JSON, what a
-- path finds in an object, and reflect.DeepEqual. `find_results` also parses the path.
pub record JsonPath (O V : Type 0) : Type 0 where
  pub parse_object : Raw → Option (Map V)
  pub find_results : O → String → Option (List (List V))
  pub deep_equal : V → V → Bool

-- What `getFieldByJSONPath` does: a value, an error, or an index out of range, which ends the process.
pub data FieldResult (V : Type 0) : Type 0 where
  field_value : V → FieldResult V
  field_error : FieldResult V
  field_panic : FieldResult V

module _ {O V : Type 0} (j : JsonPath O V) where
  unfoldable pub success_values_of : List Raw → Option (List V)
  success_values_of [] = some []
  success_values_of (raw ∷ raws) = do
    fields ← j.parse_object raw
    value ← lookup "value" fields
    rest ← success_values_of raws
    some (value ∷ rest)

  unfoldable pub contains_value : V → List V → Bool
  contains_value value values = any (j.deep_equal value) values

  -- The two loops over what was found.
  unfoldable pub check_values : List V → State → List V → State
  unfolding contains_value worse_state
  check_values success s [] = s
  check_values success s (v ∷ vs) =
      check_values success (if contains_value v success then s else worse_state s state_unknown) vs

  unfoldable pub check_results : List V → State → List (List V) → State
  unfolding check_values
  check_results success s [] = s
  check_results success s (r ∷ rs) = check_results success (check_values success s r) rs

  -- The body of the loop once the resource is read.
  unfoldable pub adapt_resource : Resource → Result O → State → State
  unfolding success_values_of check_results worse_state
  adapt_resource q (err e) s = worse_state s state_unknown
  adapt_resource q (ok o) s = elim (success_values_of (elements q.success_values)) [
    | none ↦ worse_state s state_unknown
    | some success ↦ elim (j.find_results o q.field_path) [
      | none ↦ worse_state s state_unknown
      | some results ↦ check_results success s results
    ]
  ]

  unfoldable pub compute_readiness_for_resources :
      {W : Type 0} → TargetSystem W O → Kubeconfig → List Resource → State → W → State × W
  unfolding adapt_resource get_resource
  compute_readiness_for_resources t config [] s w = (s, w)
  compute_readiness_for_resources t config (q ∷ qs) s w =
      let (r, w1) = get_resource t config q.api_version q.resource q.namespace q.name w in
      compute_readiness_for_resources t config qs (adapt_resource q r s) w1

  -- `res[0][0]`, guarded by the two lengths
  unfoldable pub single_result : List (List V) → FieldResult V
  single_result [] = field_error
  single_result ((v ∷ vs) ∷ []) = field_value v
  single_result ([] ∷ []) = field_panic
  single_result ((v ∷ []) ∷ _) = field_value v
  single_result (_ ∷ _) = field_error

  unfoldable pub get_field_by_json_path : O → String → FieldResult V
  unfolding single_result
  get_field_by_json_path o field_path =
      let path = if has_prefix "." field_path then field_path else "." ++ field_path in
      elim (j.find_results o ("{" ++ path ++ "}")) [
        | none ↦ field_error
        | some results ↦ single_result results
      ]

  unfoldable pub get_resource_data :
      {W : Type 0}
      → TargetSystem W O
      → Kubeconfig
      → String
      → String
      → String
      → String
      → String
      → W
      → FieldResult V × W
  unfolding get_resource get_field_by_json_path
  get_resource_data t config api_version resource namespace name field_path w =
      let (r, w1) = get_resource t config api_version resource namespace name w in
      elim r [ err e ↦ (field_error, w1) | ok o ↦ (get_field_by_json_path o field_path, w1) ]

  -- `ComputeReadiness`: the objects, the resource requirements and the jobs, one after the other.
  unfoldable pub compute_objects_readiness :
      {W : Type 0}
      → (BasicKubernetesObject → W → Result Workload × W)
      → TargetSystem W O
      → Kubeconfig
      → ReadyRequirements
      → String
      → List BasicKubernetesObject
      → W
      → State × W
  unfolding object_readiness compute_readiness_for_resources job_readiness
  compute_objects_readiness get t config requirements namespace objects w =
      let (s1, w1) = object_readiness get namespace state_ok objects w in
      let (s2, w2) =
        compute_readiness_for_resources t config (elements requirements.resources) s1 w1 in
      job_readiness get s2 (elements requirements.jobs) w2
