-- ===== src/Examples/Published.antt =====
-- The status that the state controller computes for a clusterbom with one deploy item.
use potter_controller.Prelude.{Option, [], false, lookup, none, refl, some, ◌∷◌, ◌≡◌}
use potter_controller.Api.{ClusterBomStatus, ok}
use potter_controller.ControllerUtil.{
  find_app_deployment_config_in_list, find_deploy_item_in_list, same_ready_requirements,
}
use potter_controller.Examples.Boms.{Cluster, cluster, empty_cluster}
use potter_controller.Examples.Data.{bom, item, json}
use potter_controller.Examples.Loops.{loop_client}
use potter_controller.StateController.Cleaner.{StateClient}
use potter_controller.StateController.Published.{IsConsistent, published_status_agrees}
use potter_controller.StateController.Reachable.{compute_cluster_reachable_condition}
use potter_controller.StateController.Ready.{compute_cluster_bom_ready_condition}
use potter_controller.StateController.Reconcile.{compute_cluster_bom_conditions, compute_status}
use potter_controller.StateController.States.{
  compute_application_states, compute_state, read_provider_status,
}
use potter_controller.Sync.BlockObject.{BlockObject}
use potter_controller.Util.Condition.{
  get_cluster_bom_condition, get_deploy_item_condition, get_deploy_item_condition_status,
}

abbrev state_client : StateClient Cluster
state_client = record {
  bom_client = cluster;
  sync_client = loop_client.sync_client;
  get_item = λ key w. (ok item, w);
  list_boms = λ w. (ok (bom ∷ []), w);
}

abbrev block_object : BlockObject
block_object = record { unique_id = "own"; excluded_boms = []; sync_disabled = false }

abbrev status_or : Option ClusterBomStatus → ClusterBomStatus
status_or none = bom.status
status_or (some s) = s

abbrev published : ClusterBomStatus
published =
    status_or (compute_status state_client block_object none json (item ∷ []) bom empty_cluster).0

computed :
    (compute_status state_client block_object none json (item ∷ []) bom empty_cluster).0
    ≡ some published
unfolding compute_status compute_cluster_bom_conditions compute_cluster_bom_ready_condition
    find_deploy_item_in_list lookup same_ready_requirements read_provider_status
    find_app_deployment_config_in_list get_deploy_item_condition_status get_cluster_bom_condition
    get_deploy_item_condition compute_cluster_reachable_condition compute_application_states
    compute_state
computed = refl

published_status_agrees_example : IsConsistent (item ∷ []) bom published
published_status_agrees_example =
    published_status_agrees state_client block_object none json (item ∷ []) bom empty_cluster
      published computed
