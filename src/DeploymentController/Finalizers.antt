-- ===== src/DeploymentController/Finalizers.antt =====
-- `addFinalizer` and `removeFinalizer` of the deployment controller.
use potter_controller.Prelude.{Option, if◌then◌else◌, none, some, ◌||◌}
use potter_controller.Api.{ApiError, DeployItem, Result, err, ok}
use potter_controller.Deploy.Client.{Client}
use potter_controller.Deploy.ExportSecrets.{remove_unreferenced_export_secrets}
use potter_controller.StateController.States.{is_deleted}
use potter_controller.Util.Keys.{get_key}
use potter_controller.Util.Objects.{
  add_finalizer, has_finalizer, hub_controller_finalizer, remove_finalizer,
}

-- The item that `addFinalizer` leaves in the variable of its caller.
unfoldable pub with_finalizer : DeployItem → DeployItem
unfolding has_finalizer add_finalizer
with_finalizer item =
    if is_deleted item.meta || has_finalizer item.meta hub_controller_finalizer
    then item
    else record item { meta = add_finalizer item.meta hub_controller_finalizer }

module _ {W : Type 0} (c : Client W) where
  unfoldable pub ensure_finalizer : DeployItem → W → Result DeployItem × W
  unfolding has_finalizer with_finalizer
  ensure_finalizer item w =
      let (e, w1) = c.update_item (with_finalizer item) w in
      let fetched = c.get_item (get_key item.meta) w1 in
      if is_deleted item.meta || has_finalizer item.meta hub_controller_finalizer
      then (ok item, w)
      else elim e [ some x ↦ (err x, w1) | none ↦ fetched ]

  unfoldable pub drop_finalizer : DeployItem → W → Option ApiError × W
  unfolding remove_unreferenced_export_secrets remove_finalizer
  drop_finalizer item w =
      let (e, w1) = remove_unreferenced_export_secrets c item none w in
      let updated =
        c.update_item (record item { meta = remove_finalizer item.meta hub_controller_finalizer })
          w1 in
      elim e [ some x ↦ (some x, w1) | none ↦ updated ]
