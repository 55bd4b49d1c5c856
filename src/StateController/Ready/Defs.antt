-- ===== src/StateController/Ready/Defs.antt =====
-- `computeClusterBomReadyCondition` and `adaptConditionStatus`.
use potter_controller.Prelude.{
  Bool, List, Option, String, [], eqb, false, if◌then◌else◌, is_some, none, not, some, ◌>>=◌, ◌∷◌,
}
use potter_controller.Api.{
  ApplicationConfig, ClusterBom, ClusterBomCondition, ConditionStatus, DeployItem, Json, Time,
  cluster_bom_ready, condition_true, condition_unknown, hub_deployment_ready,
}
use potter_controller.ControllerUtil.{
  find_app_deployment_config_in_list, find_deploy_item_in_list, is_equal_config,
}
use potter_controller.StateController.States.{
  get_app_config_id_from_deploy_item, is_remove, read_provider_status,
}
use potter_controller.StateController.Statistics.{
  Statistics, add_failed_app, add_pending_app, add_successful_app,
  get_reason_and_message_for_ready_condition, no_apps,
}
use potter_controller.Util.Condition.{
  get_cluster_bom_condition, get_deploy_item_condition, get_deploy_item_condition_status, is_false,
  is_unknown, transition_time, worse_condition_status,
}

-- The status of the condition and the statistics, which the two loops change together.
pub record Progress : Type 0 where
  pub status : ConditionStatus
  pub stat : Statistics

abbrev pub start : Progress
start = record { status = condition_true; stat = no_apps }

unfoldable pub count_pending : String → Progress → Progress
unfolding worse_condition_status add_pending_app
count_pending id p = record {
  status = worse_condition_status p.status condition_unknown;
  stat = add_pending_app id p.stat;
}

-- `WorseConditionStatus`, and the list that a status adds the application to.
unfoldable pub count_status : String → ConditionStatus → Progress → Progress
unfolding worse_condition_status add_pending_app add_failed_app add_successful_app
count_status id status p = record {
  status = worse_condition_status p.status status;
  stat =
      if is_unknown status
      then add_pending_app id p.stat
      else if is_false status
      then add_failed_app id p.stat
      else add_successful_app id p.stat;
}

abbrev pub ready_status : DeployItem → ConditionStatus
ready_status item =
    get_deploy_item_condition_status (get_deploy_item_condition item hub_deployment_ready)

-- `err` of `isEqualConfig` is logged only, and leaves `isEqualConfig` false.
abbrev pub or_false : Option Bool → Bool
or_false none = false
or_false (some b) = b

-- `adaptConditionStatus` at a deploy item that exists; `none` is the returned error.
unfoldable pub adapt_existing : Json → ApplicationConfig → DeployItem → Progress → Option Progress
unfolding count_pending count_status is_equal_config
adapt_existing json app item p =
    if not (or_false (is_equal_config json app item)) then some (count_pending app.id p) else do
      _ ← read_provider_status json item
      if not (eqb item.meta.generation item.status.observed_generation)
          then some (count_pending app.id p)
          else some (count_status app.id (ready_status item) p)

unfoldable pub adapt_condition_status :
    Json → ApplicationConfig → Option DeployItem → Progress → Option Progress
unfolding adapt_existing
adapt_condition_status json app none p = some (count_pending app.id p)
adapt_condition_status json app (some item) p = adapt_existing json app item p

-- The loop over the application configs.
unfoldable pub adapt_configs :
    Json → List DeployItem → List ApplicationConfig → Progress → Option Progress
unfolding adapt_condition_status
adapt_configs json items [] p = some p
adapt_configs json items (app ∷ rest) p =
    adapt_condition_status json app (find_deploy_item_in_list items app.id) p >>= λ q.
    adapt_configs json items rest q

-- One round of the loop over the deploy items: those with no application config are being removed.
unfoldable pub adapt_orphan :
    Json → List ApplicationConfig → DeployItem → Progress → Option Progress
unfolding count_pending count_status
adapt_orphan json configs item p =
    let id = get_app_config_id_from_deploy_item item in
    if is_some (find_app_deployment_config_in_list configs id) then some p else do
      s ← read_provider_status json item
      if not (is_remove s.last_operation.operation)
          then some (count_pending id p)
          else some (count_status id (ready_status item) p)

unfoldable pub adapt_orphans :
    Json → List ApplicationConfig → List DeployItem → Progress → Option Progress
unfolding adapt_orphan
adapt_orphans json configs [] p = some p
adapt_orphans json configs (item ∷ rest) p = do
  q ← adapt_orphan json configs item p
  adapt_orphans json configs rest q

-- Both loops.
unfoldable pub adapt_all : Json → List DeployItem → ClusterBom → Option Progress
unfolding adapt_configs adapt_orphans
adapt_all json items bom = do
  p ← adapt_configs json items bom.spec.application_configs start
  adapt_orphans json bom.spec.application_configs items p

unfoldable pub ready_condition : Time → ClusterBom → Progress → ClusterBomCondition
unfolding transition_time get_reason_and_message_for_ready_condition
ready_condition now bom p =
    let (reason, message) = get_reason_and_message_for_ready_condition p.stat in
    record {
      type = cluster_bom_ready;
      status = p.status;
      reason = reason;
      message = message;
      last_update_time = now;
      last_transition_time =
          transition_time now (get_cluster_bom_condition bom cluster_bom_ready) p.status;
    }

unfoldable pub compute_cluster_bom_ready_condition :
    Json → Time → List DeployItem → ClusterBom → Option (ClusterBomCondition × Statistics)
unfolding ready_condition adapt_all
compute_cluster_bom_ready_condition json now items bom = do
  p ← adapt_all json items bom
  some (ready_condition now bom p, p.stat)
