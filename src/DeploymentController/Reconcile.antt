-- ===== src/DeploymentController/Reconcile.antt =====
-- `Reconcile` of the deployment controller. The event writer reads a clusterbom for events only, and
-- the log, the liveness check and the thread counter have no part in what is done.
use potter_controller.Prelude.{
  Bool, Option, String, false, if◌then◌else◌, ltb, none, some, true, ◌*◌, ◌+◌, ◌-◌,
}
use potter_controller.Api.{
  ApiError, DeployItem, Duration, HubDeployItemProviderStatus, Json, NamespacedName, Time, err,
  minute, not_found, ok, second,
}
use potter_controller.Deploy.Client.{Client, Deployer}
use potter_controller.Deploy.DeployData.{
  DeployData, get_secret_key, is_delete_operation, is_finally_failed_data, is_install_but_not_ready,
  is_last_deploy_failed, is_new_operation, is_reconcile, new_deploy_data,
}
use potter_controller.Deploy.WorseState.{is_ok}
use potter_controller.DeploymentController.Deactivator.{
  delete_if_required, handle_deactivation_or_reactivation,
}
use potter_controller.DeploymentController.Finalizers.{
  drop_finalizer, ensure_finalizer, with_finalizer,
}
use potter_controller.DeploymentController.StatusUpdate.{
  Outcome, done, panics, requeue, requeue_after, update_status,
}
use potter_controller.StateController.States.{is_install, is_remove}
use potter_controller.Sync.BlockObject.{BlockObject, SyncClient, block}
use potter_controller.Util.Keys.{get_cluster_bom_key_from_deploy_item_key}
use potter_controller.Util.Requeue.{calculate_requeue_duration_for_premature_retry}

-- `none` where the item may be processed now.
abbrev pub remaining : Time → Time → Option Duration
remaining now next = if ltb now next then some (next - now) else none

module _ {W : Type 0} (c : Client W) where
  -- The clock is read only where there is a time to compare it with.
  unfoldable pub calculate_requeue_duration_for_unreachable_cluster :
      HubDeployItemProviderStatus → W → Option Duration × W
  calculate_requeue_duration_for_unreachable_cluster s w = elim s.reachability [
    | none ↦ (none, w)
    | some r ↦
        let (now, w1) = c.now w in
        if r.reachable then (none, w) else (remaining now (r.time + 5 * minute), w1)
  ]

  unfoldable pub calculate_requeue_duration_for_not_ready_install :
      HubDeployItemProviderStatus → W → Option Duration × W
  calculate_requeue_duration_for_not_ready_install s w = elim s.readiness [
    | none ↦ (none, w)
    | some r ↦
        let (now, w1) = c.now w in
        if is_ok r.state then (none, w) else (remaining now (r.time + 15 * second), w1)
  ]

module _ {W : Type 0} (c : Client W) (json : Json) where
  abbrev pub outcome : Option ApiError → Outcome
  outcome none = done
  outcome (some _) = requeue

  -- The chain of tests on the last operation; `item` is the item after `addFinalizer`.
  unfoldable pub process : Deployer W → DeployData → DeployItem → W → Outcome × W
  unfolding update_status drop_finalizer calculate_requeue_duration_for_premature_retry
      calculate_requeue_duration_for_not_ready_install is_new_operation is_finally_failed_data
      is_last_deploy_failed is_reconcile is_install_but_not_ready
  process deployer d item w =
      let run : (DeployData → W → DeployData × W) → W → Outcome × W =
        λ f v. (let (d', v') = f d v in update_status c json d' v') in
      let (now, w1) = c.now w in
      let (wait, w2) = calculate_requeue_duration_for_not_ready_install c d.provider_status w in
      if is_new_operation d
      then run deployer.process_new_operation w
      else if is_finally_failed_data d
      then (done, w)
      else if is_last_deploy_failed d
      then elim (calculate_requeue_duration_for_premature_retry now
          d.provider_status.last_operation) [
            | some t ↦ (requeue_after t, w1)
            | none ↦ run deployer.retry_failed_operation w1
          ]
      else if is_reconcile d
      then run deployer.reconcile_operation w
      else if is_install_but_not_ready d
      then elim wait [
        | some t ↦ (requeue_after t, w2)
        | none ↦ run deployer.process_pending_operation w2
      ]
      else if is_remove d.provider_status.last_operation.operation
      then (outcome (drop_finalizer c item w).0, (drop_finalizer c item w).1)
      else if is_install d.provider_status.last_operation.operation
      then (done, w)
      else (requeue, w)

  -- From `addFinalizer` on.
  unfoldable pub process_reachable : Deployer W → DeployData → W → Outcome × W
  unfolding ensure_finalizer process calculate_requeue_duration_for_unreachable_cluster
  process_reachable deployer d w =
      let (r, w1) = ensure_finalizer c d.item w in
      let d' = record d { item = with_finalizer d.item } in
      elim r [
        | err _ ↦ (requeue, w1)
        | ok item ↦
            let (wait, w2) =
              calculate_requeue_duration_for_unreachable_cluster c d.provider_status w1 in
            elim wait [ some t ↦ (requeue_after t, w2) | none ↦ process deployer d' item w2 ]
      ]

  -- The target cluster of a deleted item may be gone.
  unfoldable pub process_item : Deployer W → DeployData → W → Outcome × W
  unfolding is_delete_operation get_secret_key drop_finalizer process_reachable
  process_item deployer d w =
      let (r, w1) = c.get_secret (get_secret_key d) w in
      let (e, w2) = deployer.cleanup d false w1 in
      let (e', w3) = drop_finalizer c d.item w2 in
      if is_delete_operation d
      then elim r [
        | ok _ ↦ process_reachable deployer d w1
        | err not_found ↦ elim e [ some _ ↦ (requeue, w2) | none ↦ (outcome e', w3) ]
        | err _ ↦ (requeue, w1)
      ]
      else process_reachable deployer d w

  -- `GetDeployer` fails for an unknown type; `disabled` is DISABLE_DEPLOY_PREPROCESS.
  unfoldable pub reconcile_fetched :
      (String → Option (Deployer W)) → Bool → DeployItem → W → Outcome × W
  unfolding handle_deactivation_or_reactivation delete_if_required new_deploy_data process_item
  reconcile_fetched get_deployer disabled item w =
      let (stop, item', w1) = handle_deactivation_or_reactivation c item w in
      elim stop [
        | err _ ↦ (requeue, w1)
        | ok true ↦ let (e, w2) = delete_if_required c item' w1 in (outcome e, w2)
        | ok false ↦ elim (new_deploy_data json item') [
          | none ↦ (requeue, w1)
          | some d ↦ elim (get_deployer item'.type) [
            | none ↦ (done, w1)
            | some deployer ↦
                let (d', w2) = deployer.preprocess d w1 in
                if disabled then process_item deployer d w1 else process_item deployer d' w2
          ]
        ]
      ]

  unfoldable pub reconcile :
      SyncClient W
      → BlockObject
      → (String → Option (Deployer W))
      → Bool
      → NamespacedName
      → W
      → Outcome × W
  unfolding block reconcile_fetched get_cluster_bom_key_from_deploy_item_key
  reconcile sync b get_deployer disabled key w =
      elim (get_cluster_bom_key_from_deploy_item_key key) [
        | none ↦ (panics, w)
        | some bom ↦
            let (blocked, w1) = block sync b bom (5 * minute) true w in
            let (r, w2) = c.get_item key w1 in
            elim blocked.error [
              | some _ ↦ (requeue, w1)
              | none ↦
                  if blocked.granted
                  then elim r [
                    | err not_found ↦ (done, w2)
                    | err _ ↦ (requeue, w2)
                    | ok item ↦ reconcile_fetched get_deployer disabled item w2
                  ]
                  else (requeue_after blocked.retry, w1)
            ]
      ]
