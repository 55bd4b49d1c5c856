-- ===== src/Examples/Small.antt =====
-- The helpers, on small inputs.
use Prim.Native.String.{◌++◌ as ◌<>◌}
use potter_controller.Prelude.{
  List, Map, String, [], arith, false, if◌then◌else◌, is_empty, lookup, none, refl, some, some_inj,
  true, ℕ, ◌&&◌, ◌*◌, ◌-◌, ◌==◌, ◌↔◌, ◌∷◌, ◌≡◌, ◌≢◌, ◌≤◌,
}
use potter_controller.Api.{
  Condition, ErrorEntry, LastOperation, Result, condition_unknown, conflict, err, minute, ok,
  second, state_failed, state_ok,
}
use potter_controller.Deploy.ErrorBounds.{Kept, error_history_bounded}
use potter_controller.Deploy.ErrorHistory.{compute_error_history}
use potter_controller.Deploy.ItemCondition.{condition_of, worsify_deploy_item_condition}
use potter_controller.Deploy.MergeMaps.{Fields, end, field, get_field, merge_maps, object, scalar}
use potter_controller.Deploy.MergePaths.{UniqueFields, look, merge_maps_at_paths, silent}
use potter_controller.Deploy.Readiness.{
  BasicKubernetesObject, Workload, deployment, object_readiness,
}
use potter_controller.Deploy.ReadinessLaws.{AllReady, object_readiness_ok_iff}
use potter_controller.Deploy.WorsifyLaws.{worsify_is_worse_status}
use potter_controller.Examples.Data.{installed, meta, ready}
use potter_controller.Sync.BlockObject.{BlockObject, SyncClient, block}
use potter_controller.Sync.Decision.{ClusterBomSync}
use potter_controller.Sync.RetryTimes.{block_retry_positive}
use potter_controller.Util.Backoff.{requeue_timeout_bounds}
use potter_controller.Util.Condition.{is_equal_hdc_condition_list, worse_condition_status}
use potter_controller.Util.KeyRoundTrip.{deploy_item_key_round_trip}
use potter_controller.Util.Keys.{
  before_last, create_deploy_item_name, get_cluster_bom_key_from_deploy_item_key, separator,
  starts_double, starts_single,
}
use potter_controller.Util.ObjectLaws.{finalizer_round_trip, hdc_lists_equal_iff_empty}
use potter_controller.Util.Objects.{
  add_finalizer, has_finalizer, hub_controller_finalizer, remove_finalizer,
}
use potter_controller.Util.Requeue.{
  calculate_requeue_duration_for_premature_retry, calculate_requeue_timeout, requeue_timeout_base,
  requeue_timeout_max,
}

requeue_timeout_bounds_example :
    (requeue_timeout_base ≤ calculate_requeue_timeout 3)
    × (calculate_requeue_timeout 3 ≤ calculate_requeue_timeout 9)
    × (calculate_requeue_timeout 9 ≤ requeue_timeout_max)
requeue_timeout_bounds_example = requeue_timeout_bounds 3 9 (omega arith) (omega arith)

abbrev failed : LastOperation
failed = record installed { state = state_failed; number_of_tries = 1; time = 100 }

premature : calculate_requeue_duration_for_premature_retry 105 failed ≡ some (20 * second - 5)
unfolding calculate_requeue_duration_for_premature_retry
premature = refl

no_double_in_bom : before_last starts_double ("my-bom" <> separator) ≡ none
unfolding before_last
no_double_in_bom = refl

no_single_in_app : before_last starts_single "app" ≡ none
unfolding before_last
no_single_in_app = refl

deploy_item_key_round_trip_example :
    get_cluster_bom_key_from_deploy_item_key
      (record { namespace = "garden"; name = create_deploy_item_name "my-bom" "app" })
    ≡ some (record { namespace = "garden"; name = "my-bom" })
deploy_item_key_round_trip_example =
    deploy_item_key_round_trip "garden" "my-bom" "app" no_double_in_bom no_single_in_app

finalizer_round_trip_example :
    (has_finalizer (add_finalizer meta hub_controller_finalizer) hub_controller_finalizer ≡ true)
    × (has_finalizer
          (remove_finalizer (add_finalizer meta hub_controller_finalizer) hub_controller_finalizer)
          "other"
        ≡ (if hub_controller_finalizer == "other" then false else has_finalizer meta "other"))
finalizer_round_trip_example = finalizer_round_trip meta hub_controller_finalizer "other"

hdc_lists_equal_iff_empty_example :
    is_equal_hdc_condition_list 0 (ready ∷ []) 1 (ready ∷ [])
    ≡ (is_empty (ready ∷ []) && is_empty (ready ∷ []))
hdc_lists_equal_iff_empty_example =
    hdc_lists_equal_iff_empty 0 1 (ready ∷ []) (ready ∷ []) (λ e. absurd (omega (arith, e)))

abbrev errors : List ErrorEntry
errors =
    record { description = "timeout"; time = 1 } ∷ record { description = "refused"; time = 2 } ∷ []

error_history_bounded_example :
    (l : List ErrorEntry) × (compute_error_history (some errors) state_failed "refused" 3 9
      ≡ some l)
    × Kept "refused" 9 l
error_history_bounded_example = error_history_bounded errors "refused" 3 9 (omega arith)

found_ready : condition_of "Ready" (ready ∷ []) ≡ some ready
unfolding condition_of
found_ready = refl

worsify_is_worse_status_example :
    (c : Condition) × (condition_of "Ready"
        (worsify_deploy_item_condition "Ready" condition_unknown 9 "reason" "message" (ready ∷ []))
      ≡ some c)
    × (c.status ≡ worse_condition_status ready.status condition_unknown)
worsify_is_worse_status_example =
    worsify_is_worse_status "Ready" condition_unknown 9 "reason" "message" (ready ∷ []) ready tt tt
      found_ready

abbrev counters : Map ℕ
counters = ("a", 2) ∷ []

not_zero : lookup "a" counters ≢ some 0
unfolding lookup
not_zero h = absurd (omega (arith, some_inj h))

abbrev foreign : ClusterBomSync
foreign = record {
  key = record { namespace = "garden"; name = "bom" };
  id = "other";
  timestamp = 0;
  until = 90 * second;
  version = 3;
}

abbrev busy : SyncClient Unit
busy = record {
  get_uncached = λ key w. (ok foreign, w);
  create = λ o w. (err conflict, w);
  update = λ o w. (err conflict, w);
  remove = λ o w. (none, w);
  now = λ w. (100 * second, w);
}

abbrev block_object : BlockObject
block_object = record { unique_id = "me"; excluded_boms = []; sync_disabled = false }

block_retry_positive_example :
    second ≤ (block busy block_object foreign.key (5 * minute) true tt).0.retry
block_retry_positive_example =
    block_retry_positive busy block_object foreign.key (5 * minute) true tt

abbrev defaults : Fields
defaults = field "image" (object (field "tag" (scalar "1") end)) end

abbrev overrides : Fields
overrides = field "image" (object (field "name" (scalar "web") end)) end

overrides-UniqueFields : UniqueFields overrides
unfolding UniqueFields get_field
overrides-UniqueFields = (refl, (refl, tt, tt), tt)

merge_maps_at_paths_example :
    ((s : String)
      → look (object overrides) ("image" ∷ "tag" ∷ []) ≡ some (scalar s)
      → look (object (merge_maps defaults overrides)) ("image" ∷ "tag" ∷ []) ≡ some (scalar s))
    × (silent (object overrides) ("image" ∷ "tag" ∷ []) ≡ true
        → look (object (merge_maps defaults overrides)) ("image" ∷ "tag" ∷ [])
          ≡ look (object defaults) ("image" ∷ "tag" ∷ []))
merge_maps_at_paths_example =
    merge_maps_at_paths ("image" ∷ "tag" ∷ []) defaults overrides overrides-UniqueFields

-- The merged value holds the fields of both.
merged_image :
    get_field "image" (merge_maps defaults overrides)
    ≡ some (object (field "tag" (scalar "1") (field "name" (scalar "web") end)))
unfolding merge_maps
merged_image = refl

abbrev deployment_object : BasicKubernetesObject
deployment_object = record {
  api_version = "apps/v1";
  kind = "Deployment";
  key = record { namespace = ""; name = "web" };
}

abbrev running : BasicKubernetesObject → List String → Result Workload × List String
running o w = (ok (deployment 2 2 (some 3) 3 3 3), w)

object_readiness_ok_iff_example :
    ((object_readiness running "default" state_ok (deployment_object ∷ []) []).0 ≡ state_ok)
    ↔ AllReady running "default" (deployment_object ∷ []) []
object_readiness_ok_iff_example =
    object_readiness_ok_iff running "default" (deployment_object ∷ []) []

deployment_ready :
    (object_readiness running "default" state_ok (deployment_object ∷ []) []).0 ≡ state_ok
unfolding object_readiness
deployment_ready = refl
