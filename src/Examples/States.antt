-- ===== src/Examples/States.antt =====
-- The conditions of a clusterbom whose application is installed.
use mathlib.Core.List.{Memᴰ}
use potter_controller.Prelude.{
  All, String, [], if◌then◌else◌, lookup, map, none, refl, some, ◌+◌, ◌<◌, ◌∷◌, ◌≡◌, ◌⊎◌,
}
use potter_controller.Api.{
  ApplicationState, ClusterBomCondition, Reachability, condition_false, condition_true,
  condition_unknown, state_ok,
}
use potter_controller.ControllerUtil.{
  find_app_deployment_config_in_list, find_deploy_item_in_list, same_ready_requirements,
}
use potter_controller.Deploy.WorseState.{worst_of}
use potter_controller.Examples.Data.{bom, installed, item, json, provider_status, ready}
use potter_controller.StateController.Overall.{overall_state_is_worst}
use potter_controller.StateController.Reachable.{compute_cluster_reachable_condition}
use potter_controller.StateController.Reachable.Reports.{
  NoneAfter, reachable_follows_latest, reports,
}
use potter_controller.StateController.Ready.{compute_cluster_bom_ready_condition}
use potter_controller.StateController.Ready.Sound.{IsDeployed, IsSettled, ready_true_sound}
use potter_controller.StateController.Ready.Verdict.{
  config_ids, orphan_ids, ready_condition_agrees, times,
}
use potter_controller.StateController.States.{
  compute_application_states, compute_overall_state, compute_state,
  get_app_config_id_from_deploy_item, read_provider_status,
}
use potter_controller.StateController.Statistics.{Statistics, status_of}
use potter_controller.Util.Condition.{
  get_cluster_bom_condition, get_deploy_item_condition, get_deploy_item_condition_status,
  map_to_hdc_condition,
}

abbrev all_ready : Statistics
all_ready = record { successful_apps = "app" ∷ []; pending_apps = []; failed_apps = [] }

abbrev bom_ready : ClusterBomCondition
bom_ready = record {
  type = "Ready";
  status = condition_true;
  last_update_time = 9;
  last_transition_time = 9;
  reason = "AllAppsReady";
  message = "All applications are ready. ";
}

computed_ready :
    compute_cluster_bom_ready_condition json 9 (item ∷ []) bom ≡ some (bom_ready, all_ready)
unfolding compute_cluster_bom_ready_condition find_deploy_item_in_list lookup
    same_ready_requirements read_provider_status find_app_deployment_config_in_list
    get_deploy_item_condition_status get_cluster_bom_condition get_deploy_item_condition
computed_ready = refl

ready_condition_agrees_example :
    (bom_ready.type ≡ "Ready")
    × (bom_ready.status ≡ status_of all_ready)
    × ((id : String)
        → times id all_ready.failed_apps
            + times id all_ready.pending_apps
            + times id all_ready.successful_apps
          ≡ times id (config_ids bom.spec.application_configs)
            + times id (orphan_ids bom.spec.application_configs (item ∷ [])))
ready_condition_agrees_example =
    ready_condition_agrees json 9 (item ∷ []) bom bom_ready all_ready computed_ready

ready_true_sound_example :
    All (IsDeployed json (item ∷ [])) bom.spec.application_configs
    × All (IsSettled json bom.spec.application_configs) (item ∷ [])
ready_true_sound_example =
    ready_true_sound json 9 (item ∷ []) bom bom_ready all_ready computed_ready refl

abbrev bom_reachable : ClusterBomCondition
bom_reachable = record {
  type = "ClusterReachable";
  status = condition_true;
  last_update_time = 9;
  last_transition_time = 9;
  reason = "ReasonClusterReachable";
  message = "Cluster reachable";
}

computed_reachable : compute_cluster_reachable_condition json 9 (item ∷ []) bom ≡ some bom_reachable
unfolding compute_cluster_reachable_condition read_provider_status get_cluster_bom_condition
computed_reachable = refl

reachable_follows_latest_example :
    (NoneAfter 0 (reports json (item ∷ [])) × (bom_reachable.status ≡ condition_unknown))
    ⊎ ((r : Reachability) × Memᴰ r (reports json (item ∷ []))
        × (0 < r.time)
        × NoneAfter r.time (reports json (item ∷ []))
        × (bom_reachable.status ≡ (if r.reachable then condition_true else condition_false)))
reachable_follows_latest_example =
    reachable_follows_latest json 9 (item ∷ []) bom bom_reachable computed_reachable

abbrev app_state : ApplicationState
app_state = record {
  id = "app";
  state = state_ok;
  detailed_state = record {
    generation = 1;
    observed_generation = 1;
    phase = "";
    deletion_timestamp = none;
    current_operation = record { time = 9 };
    last_operation = installed;
    reachability = provider_status.reachability;
    readiness = provider_status.readiness;
    hdc_conditions = ready ∷ [];
    type_specific_status = none;
  };
}

computed_states : compute_application_states json 9 (item ∷ []) ≡ some (app_state ∷ [])
unfolding compute_application_states read_provider_status compute_state
    get_app_config_id_from_deploy_item map_to_hdc_condition lookup
computed_states = refl

overall_state_is_worst_example :
    compute_overall_state (app_state ∷ [])
    ≡ worst_of (map (λ (s : ApplicationState). s.state) (app_state ∷ []))
overall_state_is_worst_example = overall_state_is_worst (app_state ∷ [])
