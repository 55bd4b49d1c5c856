-- ===== src/DeploymentController/StatusUpdate.antt =====
-- `updateStatus` of the deployment controller, with the calls that it makes.
use potter_controller.Prelude.{
  Bool, Option, false, if◌then◌else◌, is_empty, lookup, none, not, some, true, ◌&&◌, ◌>>=◌,
}
use potter_controller.Api.{
  ApiError, DeployItem, DeployItemStatus, Duration, Json, NamespacedName, Result, conflict, err,
  hub_deployment_ready, not_found, ok, other_error, second,
}
use potter_controller.Deploy.Client.{Client}
use potter_controller.Deploy.DeployData.{
  DeployData, annotation_key_reconcile, annotation_value_reconcile, get_status,
}
use potter_controller.Deploy.ExportSecrets.{
  create_export_secret_for_di, remove_unreferenced_export_secrets,
}
use potter_controller.Deploy.ItemCondition.{is_condition_true}
use potter_controller.Util.Keys.{get_key}
use potter_controller.Util.Objects.{has_annotation, remove_annotation}
use potter_controller.Util.Requeue.{repeat}

-- A ctrl.Result, or the panic of a slice out of range. No call returns an error besides it.
pub data Outcome : Type 0 where
  done requeue panics : Outcome
  requeue_after : Duration → Outcome

abbrev pub is_conflict : Option ApiError → Bool
is_conflict (some conflict) = true
is_conflict _ = false

module _ {W : Type 0} (c : Client W) (json : Json) where
  -- `removeReconcileAnnotation`, whose errors are only logged
  unfoldable pub remove_reconcile_annotation : DeployItem → W → W
  unfolding has_annotation remove_annotation
  remove_reconcile_annotation item w =
      let (r, w1) = c.get_item (get_key item.meta) w in
      let removed : W = elim r [
        | err _ ↦ w1
        | ok stored ↦
            (c.update_item
              (record stored { meta = remove_annotation stored.meta annotation_key_reconcile })
              w1).1
      ] in
      if has_annotation item.meta annotation_key_reconcile annotation_value_reconcile
      then removed
      else w

  unfoldable pub update_deploy_item_status_once :
      NamespacedName → DeployItemStatus → W → Option ApiError × W
  update_deploy_item_status_once key status w =
      let (r, w1) = c.get_item key w in
      elim r [
        | err e ↦ (some e, w1)
        | ok item ↦ c.update_item_status (record item { status = status }) w1
      ]

  -- The error of the last round stands in a variable of the caller.
  unfoldable pub update_round :
      NamespacedName → DeployItemStatus → Option ApiError × W → Bool × (Option ApiError × W)
  unfolding update_deploy_item_status_once
  update_round key status (_, w) =
      let (e, w1) = update_deploy_item_status_once key status w in (not (is_conflict e), (e, w1))

  unfoldable pub update_deploy_item_status : NamespacedName → DeployItemStatus → W → Outcome × W
  unfolding update_round repeat
  update_deploy_item_status key status w =
      let (_, (e, w1)) =
        repeat (update_round key status) 10 (λ (x, v). (x, c.sleep second v)) (none, w) in
      (elim e [ none ↦ done | some _ ↦ requeue ], w1)

  -- Whether a secret is to be written, or the error.
  unfoldable pub has_new_export_data : DeployData → W → Result Bool × W
  unfolding lookup
  has_new_export_data d w = elim d.item.status.export_reference [
    | none ↦ (ok true, w)
    | some ref ↦
        let (r, w1) = c.get_secret ref w in
        elim r [
          | err not_found ↦ (ok true, w1)
          | err e ↦ (err e, w1)
          | ok s ↦ (
            -- the old data stay a nil map, and the new ones are not empty
            elim (c.yaml_unmarshal (lookup c.data_object_secret_data_key s.content)) [
              | some e ↦ err e
              | none ↦ ok true
            ],
            w1,
          )
        ]
  ]

  -- The data of the item with the new reference, or the error; `none` is a panic.
  unfoldable pub write_export_data : DeployData → W → Option (Result DeployData × W)
  unfolding create_export_secret_for_di
  write_export_data d w = elim (c.yaml_marshal d.export_values) [
    | none ↦ some (err (other_error "Error marshaling new export data"), w)
    | some bytes ↦ do
      (r, w1) ← create_export_secret_for_di c d bytes w
      some (
        elim r [
          | err e ↦ err e
          | ok name ↦ ok (record d {
            item = record d.item {
              status = record d.item.status {
                export_reference = some (record { namespace = d.item.meta.namespace; name = name });
              };
            };
          })
        ],
        w1,
      )
  ]

  unfoldable pub store_export_data : DeployData → W → Option (Result DeployData × W)
  unfolding has_new_export_data write_export_data
  store_export_data d w =
      let (r, w1) = has_new_export_data d w in
      elim r [
        | err e ↦ some (err e, w1)
        | ok true ↦ write_export_data d w1
        | ok false ↦ some (ok d, w1)
      ]

  -- The part of `updateStatus` after the export data. The result of the update of the status comes
  -- without an error, so the export secrets are cleaned up whatever it was.
  unfoldable pub write_status : DeployData → W → Outcome × W
  unfolding remove_reconcile_annotation get_status update_deploy_item_status
      remove_unreferenced_export_secrets
  write_status d w =
      let w1 = remove_reconcile_annotation d.item w in
      elim (get_status json d) [
        | none ↦ (requeue, w1)
        | some status ↦
            let (result, w2) = update_deploy_item_status (get_key d.item.meta) status w1 in
            (result, (remove_unreferenced_export_secrets c d.item status.export_reference w2).1)
      ]

  unfoldable pub update_status : DeployData → W → Outcome × W
  unfolding is_condition_true store_export_data write_status
  update_status d w =
      let stored : Outcome × W = elim (store_export_data d w) [
        | none ↦ (panics, w)
        | some (err _, w1) ↦ (requeue, w1)
        | some (ok d', w1) ↦ write_status d' w1
      ] in
      if is_condition_true hub_deployment_ready d.item.status.conditions
        && not (is_empty d.export_values)
      then stored
      else write_status d w
