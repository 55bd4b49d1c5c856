-- ===== src/StateController/Reconcile.antt =====
-- `Reconcile` of the state controller: the status of a clusterbom follows that of a deploy item.
use potter_controller.Prelude.{
  List, Option, [], false, if◌then◌else◌, none, some, true, ◌*◌, ◌>>=◌, ◌∷◌,
}
use potter_controller.Api.{
  ApiError, ClusterBom, ClusterBomCondition, ClusterBomStatus, DeployItem,
  HubDeployItemConfiguration, Json, NamespacedName, Result, err, minute, not_found, ok, other_error,
}
use potter_controller.ClusterBomController.BomStatus.{
  adjust_cluster_bom_status_for_not_existing_target_cluster, update_cluster_bom_status,
}
use potter_controller.ClusterBomController.Handlers.{
  bom_labels, get_secret_key_from_cluster_bom, returned,
}
use potter_controller.ClusterBomController.Items.{delete_deploy_item, delete_deploy_items}
use potter_controller.DeploymentController.StatusUpdate.{
  Outcome, done, panics, requeue, requeue_after,
}
use potter_controller.StateController.Cleaner.{
  ClusterBomCleaner, StateClient, cleanup_status_of_empty_cluster_boms, exists_secret,
}
use potter_controller.StateController.Reachable.{compute_cluster_reachable_condition}
use potter_controller.StateController.Ready.{compute_cluster_bom_ready_condition}
use potter_controller.StateController.States.{compute_application_states, compute_overall_state}
use potter_controller.StateController.Statistics.{
  Statistics, get_overall_num_of_deployments, get_overall_num_of_ready_deployments,
  get_overall_progress,
}
use potter_controller.Sync.BlockObject.{BlockObject, block, release}
use potter_controller.Util.Keys.{get_cluster_bom_key_from_deploy_item_key, get_key}

module _ {W : Type 0} (c : StateClient W) (b : BlockObject) (av : Option NamespacedName)
    (json : Json) where
  unfoldable pub list_deploy_items_for_cluster_bom :
      NamespacedName → W → Result (List DeployItem) × W
  list_deploy_items_for_cluster_bom key w = c.list_items key.namespace (bom_labels key.name) w

  unfoldable pub get_cluster_bom : NamespacedName → W → Result (Option ClusterBom) × W
  get_cluster_bom key w =
      let (r, w1) = c.get_bom key w in
      (elim r [ ok bom ↦ ok (some bom) | err not_found ↦ ok none | err e ↦ err e ], w1)

  -- The item and its configuration, where it exists.
  unfoldable pub get_deploy_item :
      NamespacedName → W → Result (Option (DeployItem × HubDeployItemConfiguration)) × W
  get_deploy_item key w =
      let (r, w1) = c.get_item key w in
      (
        elim r [
          | ok item ↦ elim (json.unmarshal_configuration item.configuration) [
            | none ↦ err (other_error "error unmashalling deployitem configuration")
            | some config ↦ ok (some (item, config))
          ]
          | err not_found ↦ ok none
          | err e ↦ err e
        ],
        w1,
      )

  unfoldable pub compute_cluster_bom_conditions :
      List DeployItem → ClusterBom → W → Option (List ClusterBomCondition × Statistics) × W
  unfolding compute_cluster_bom_ready_condition compute_cluster_reachable_condition
  compute_cluster_bom_conditions items bom w =
      let (now, w1) = c.now w in
      let (now', w2) = c.now w1 in
      (
        (do
          (ready, stat) ← compute_cluster_bom_ready_condition json now items bom
          reachable ← compute_cluster_reachable_condition json now' items bom
          some (ready ∷ reachable ∷ [], stat)),
        w2,
      )

  -- The new status, or `none` at an error.
  unfoldable pub compute_status : List DeployItem → ClusterBom → W → Option ClusterBomStatus × W
  unfolding compute_cluster_bom_conditions compute_application_states compute_overall_state
      get_overall_num_of_deployments get_overall_num_of_ready_deployments get_overall_progress
  compute_status items bom w =
      let (r, w1) = compute_cluster_bom_conditions items bom w in
      let (now, w2) = c.now w1 in
      let (now', w3) = c.now w2 in
      (
        (do
          (conditions, stat) ← r
          states ← compute_application_states json now items
          some (record {
            application_states = states;
            overall_state = compute_overall_state states;
            overall_time = now';
            description = "";
            conditions = conditions;
            observed_generation = bom.meta.generation;
            overall_num_of_deployments = get_overall_num_of_deployments stat;
            overall_num_of_ready_deployments = get_overall_num_of_ready_deployments stat;
            overall_progress = get_overall_progress stat;
          })),
        w3,
      )

  unfoldable pub adjust_cluster_bom_status : ClusterBom → W → Outcome × W
  unfolding list_deploy_items_for_cluster_bom compute_status update_cluster_bom_status
  adjust_cluster_bom_status bom w =
      let (r, w1) = list_deploy_items_for_cluster_bom (get_key bom.meta) w in
      elim r [
        | err _ ↦ (requeue, w1)
        | ok items ↦
            let (s, w2) = compute_status items bom w1 in
            elim s [
              | none ↦ (requeue, w2)
              | some status ↦
                  let (e, w3) = update_cluster_bom_status c.bom_client av bom status w2 in
                  (returned e, w3)
            ]
      ]

  unfoldable pub delete_deploy_items_for_not_existing_target_cluster :
      NamespacedName → W → Option ApiError × W
  unfolding list_deploy_items_for_cluster_bom delete_deploy_items
  delete_deploy_items_for_not_existing_target_cluster key w =
      let (r, w1) = list_deploy_items_for_cluster_bom key w in
      elim r [ err e ↦ (some e, w1) | ok items ↦ delete_deploy_items c.bom_client items w1 ]

  -- With the key of the clusterbom, and the clusterbom if it exists.
  unfoldable pub handle_not_existing_target_cluster :
      NamespacedName → Option ClusterBom → W → Outcome × W
  unfolding delete_deploy_items_for_not_existing_target_cluster
      adjust_cluster_bom_status_for_not_existing_target_cluster
  handle_not_existing_target_cluster key bom w =
      let (e, w1) = delete_deploy_items_for_not_existing_target_cluster key w in
      let adjusted : Outcome × W = elim bom [
        | none ↦ (done, w1)
        | some found_bom ↦
            let (e', w2) =
              adjust_cluster_bom_status_for_not_existing_target_cluster c.bom_client av found_bom
                w1 in
            (returned e', w2)
      ] in
      elim e [ some _ ↦ (requeue, w1) | none ↦ adjusted ]

  unfoldable pub reconcile_deploy_item_with_cluster_bom :
      NamespacedName → ClusterBom → W → Outcome × W
  unfolding get_deploy_item exists_secret handle_not_existing_target_cluster
      adjust_cluster_bom_status get_secret_key_from_cluster_bom
  reconcile_deploy_item_with_cluster_bom key bom w =
      let (r, w1) = get_deploy_item key w in
      let (s, w2) = exists_secret c (get_secret_key_from_cluster_bom bom) w1 in
      elim r [
        | err _ ↦ (requeue, w1)
        | ok _ ↦ elim s [
          | err _ ↦ (requeue, w2)
          | ok false ↦ handle_not_existing_target_cluster (get_key bom.meta) (some bom) w2
          | ok true ↦ adjust_cluster_bom_status bom w2
        ]
      ]

  unfoldable pub reconcile_deploy_item_without_cluster_bom : NamespacedName → W → Outcome × W
  unfolding get_deploy_item exists_secret handle_not_existing_target_cluster delete_deploy_item
      get_cluster_bom_key_from_deploy_item_key
  reconcile_deploy_item_without_cluster_bom key w =
      let (r, w1) = get_deploy_item key w in
      elim r [
        | err _ ↦ (requeue, w1)
        | ok none ↦ (done, w1)
        | ok (some (item, config)) ↦
            let (s, w2) =
              exists_secret c (record { namespace = key.namespace; name = config.local_secret_ref })
                w1 in
            let (e, w3) = delete_deploy_item c.bom_client item w2 in
            elim s [
              | err _ ↦ (requeue, w2)
              | ok true ↦ (returned e, w3)
              | ok false ↦ elim (get_cluster_bom_key_from_deploy_item_key (get_key item.meta)) [
                | none ↦ (panics, w2)
                | some bom_key ↦ handle_not_existing_target_cluster bom_key none w2
              ]
            ]
      ]

  unfoldable pub reconcile_deploy_item : NamespacedName → NamespacedName → W → Outcome × W
  unfolding get_cluster_bom reconcile_deploy_item_with_cluster_bom
      reconcile_deploy_item_without_cluster_bom
  reconcile_deploy_item bom_key key w =
      let (r, w1) = get_cluster_bom bom_key w in
      elim r [
        | err _ ↦ (requeue, w1)
        | ok none ↦ reconcile_deploy_item_without_cluster_bom key w1
        | ok (some bom) ↦ reconcile_deploy_item_with_cluster_bom key bom w1
      ]

  -- The lock is that of the clusterbom. The cleaner is a field of the reconciler.
  unfoldable pub reconcile_state :
      NamespacedName → ClusterBomCleaner → W → Outcome × ClusterBomCleaner × W
  unfolding cleanup_status_of_empty_cluster_boms get_cluster_bom_key_from_deploy_item_key block
      reconcile_deploy_item release
  reconcile_state key cleaner w =
      let (cleaner', w1) = cleanup_status_of_empty_cluster_boms c b av cleaner w in
      elim (get_cluster_bom_key_from_deploy_item_key key) [
        | none ↦ (panics, cleaner', w1)
        | some bom_key ↦
            let (blocked, w2) = block c.sync_client b bom_key (5 * minute) false w1 in
            let (out, w3) = reconcile_deploy_item bom_key key w2 in
            elim blocked.error [
              | some _ ↦ (requeue, cleaner', w2)
              | none ↦
                  if blocked.granted
                  then (out, cleaner', release c.sync_client b key false w3)
                  else (requeue_after blocked.retry, cleaner', w2)
            ]
      ]
