-- ===== src/DeploymentController/Laws.antt =====
-- What the deployment controller does with a deploy item that it processed before.
use potter_controller.Prelude.{
  String, arith, false, lookup-delete, lookup-insert, true, ℕ, ◌+◌, ◌-◌, ◌<◌, ◌≡◌,
}
use potter_controller.Api.{DeployItem, Json, State, Time, ok, state_failed}
use potter_controller.Deploy.Client.{Client, Deployer}
use potter_controller.Deploy.DeployData.{
  DeployData, is_finally_failed_data, is_last_deploy_failed, is_new_operation, set_status,
}
use potter_controller.DeploymentController.Deactivator.{
  deactivated_meta, handle_deactivation_or_reactivation, reactivated_meta,
}
use potter_controller.DeploymentController.Reconcile.{process}
use potter_controller.DeploymentController.StatusUpdate.{requeue_after}
use potter_controller.Util.Objects.{
  add_annotation, get_annotation, has_annotation, remove_annotation,
}
use potter_controller.Util.Requeue.{
  calculate_requeue_duration_for_premature_retry, calculate_requeue_timeout,
}

-- The status that `SetStatus` writes is that of an operation that is not new, whether the deploy item
-- is deleted or not.
set_status_settles :
    (state : State) (description : String) (tries : ℕ) (now : Time) (d : DeployData)
    → is_new_operation (set_status state description tries now d) ≡ false
unfolding set_status is_new_operation
set_status_settles state description tries now d = ground arith

-- A deploy item whose operation `SetStatus` wrote as failed, at `t` and with a number of tries, is put
-- off by the rest of the timeout of these tries, as long as that has not passed, and nothing but the
-- clock is called.
pub failed_operation_waits :
    {W : Type 0} (c : Client W) (json : Json) (deployer : Deployer W) (description : String)
    (tries : ℕ) (t : Time) (d : DeployData) (item : DeployItem) (w : W)
    → (c.now w).0 < t + calculate_requeue_timeout tries
    → process c json deployer (set_status state_failed description tries t d) item w
      ≡ (requeue_after (t + calculate_requeue_timeout tries - (c.now w).0), (c.now w).1)
unfolding process set_status is_new_operation is_finally_failed_data is_last_deploy_failed
    calculate_requeue_duration_for_premature_retry
failed_operation_waits c json deployer description tries t d item w h = ground arith

-- An item that was deactivated is left alone from then on, and one that was reactivated is processed
-- again, without a further update.
deactivation_holds :
    {W : Type 0} (c : Client W) (item : DeployItem) (w : W)
    → (handle_deactivation_or_reactivation c (record item { meta = deactivated_meta item.meta }) w
        ≡ (ok true, record item { meta = deactivated_meta item.meta }, w))
      × (handle_deactivation_or_reactivation c (record item { meta = reactivated_meta item.meta }) w
          ≡ (ok false, record item { meta = reactivated_meta item.meta }, w))
unfolding handle_deactivation_or_reactivation deactivated_meta reactivated_meta has_annotation
    get_annotation add_annotation remove_annotation
deactivation_holds c item w = grind (arith, lookup-delete, lookup-insert)
