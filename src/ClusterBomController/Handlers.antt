-- ===== src/ClusterBomController/Handlers.antt =====
-- The handlers of the clusterbom controller (clusterbom_controller.go). The audit log is off, as it is
-- without the flag `audit-log`: `auditLogger` is nil then, and `auditLog` and `auditLogResult` return at
-- once.
use potter_controller.Prelude.{
  Bool, List, Map, Option, String, [], false, if◌then◌else◌, is_empty, is_some, none, not, some,
  ◌*◌, ◌∷◌,
}
use potter_controller.Api.{
  ApiError, ClusterBom, DeployItem, Json, NamespacedName, Result, err, label_cluster_bom_name,
  minute, not_found, ok, second,
}
use potter_controller.ClusterBomController.BomStatus.{
  adjust_cluster_bom_status_for_not_existing_target_cluster,
}
use potter_controller.ClusterBomController.Calls.{BomControllerClient, SecretObject}
use potter_controller.ClusterBomController.Deactivator.{
  Verdict, delete_bom_if_required, handle_bom_deactivation_or_reactivation,
}
use potter_controller.ClusterBomController.Items.{
  delete_deploy_items, delete_orphaned_deploy_items, handle_app_configs,
}
use potter_controller.ClusterBomController.Secrets.{cleanup_all_secrets, cleanup_secrets}
use potter_controller.Deploy.DeployData.{annotation_key_reconcile, annotation_value_reconcile}
use potter_controller.Deploy.ExportSecrets.{label_purpose}
use potter_controller.DeploymentController.Deactivator.{
  asks_deactivate, asks_reactivate, deactivated_meta, reactivated_meta,
}
use potter_controller.DeploymentController.StatusUpdate.{
  Outcome, done, is_conflict, requeue, requeue_after,
}
use potter_controller.Sync.BlockObject.{BlockObject, SyncClient, block, release}
use potter_controller.Util.Keys.{get_key}
use potter_controller.Util.Objects.{add_annotation, has_annotation, remove_annotation}
use potter_controller.Util.Requeue.{repeat}

-- A clusterbom that does not exist and a secret that does not exist are `none`.
pub record AssociatedObjects : Type 0 where
  pub deploy_items : List DeployItem
  pub clusterbom : Option ClusterBom
  pub secret : Option SecretObject
  pub secrets : List SecretObject

abbrev pub bom_labels : String → Map String
bom_labels name = (label_cluster_bom_name, name) ∷ []

abbrev pub value_labels : String → Map String
value_labels name = (label_cluster_bom_name, name) ∷ (label_purpose, "secret-values") ∷ []

unfoldable pub get_secret_key_from_cluster_bom : ClusterBom → NamespacedName
get_secret_key_from_cluster_bom bom = record {
  namespace = bom.meta.namespace;
  name = bom.spec.secret_ref;
}

-- `returnSuccess` without an error, `returnFailure` with one.
abbrev pub returned : Option ApiError → Outcome
returned none = done
returned (some _) = requeue

module _ {W : Type 0} (c : BomControllerClient W) where
  -- The objects of a clusterbom that was found, and its secret.
  unfoldable pub read_secret :
      List DeployItem → List SecretObject → ClusterBom → W → Result AssociatedObjects × W
  unfolding get_secret_key_from_cluster_bom
  read_secret items secrets bom w =
      let (r, w1) = c.get_secret (get_secret_key_from_cluster_bom bom) w in
      let read : Option SecretObject → AssociatedObjects = λ s. record {
        deploy_items = items;
        clusterbom = some bom;
        secret = s;
        secrets = secrets;
      } in
      (elim r [ ok s ↦ ok (read (some s)) | err not_found ↦ ok (read none) | err e ↦ err e ], w1)

  unfoldable pub read_associated_objects : NamespacedName → W → Result AssociatedObjects × W
  unfolding read_secret
  read_associated_objects key w =
      let (items, w1) = c.list_items key.namespace (bom_labels key.name) w in
      let (secrets, w2) = c.list_secrets key.namespace (value_labels key.name) w1 in
      let (bom, w3) = c.get_bom key w2 in
      elim items [
        | err e ↦ (err e, w1)
        | ok xs ↦ elim secrets [
          | err e ↦ (err e, w2)
          | ok ss ↦ elim bom [
            | ok b ↦ read_secret xs ss b w3
            | err not_found ↦ (
              ok (record { deploy_items = xs; clusterbom = none; secret = none; secrets = ss }),
              w3,
            )
            | err e ↦ (err e, w3)
          ]
        ]
      ]

  unfoldable pub annotate_items : List DeployItem → W → Option ApiError × W
  unfolding add_annotation
  annotate_items [] w = (none, w)
  annotate_items (item ∷ rest) w =
      let (e, w1) =
        c.update_item
          (record item {
            meta = add_annotation item.meta annotation_key_reconcile annotation_value_reconcile;
          })
          w in
      let others = annotate_items rest w1 in elim e [ some x ↦ (some x, w1) | none ↦ others ]

  unfoldable pub remove_bom_annotation_once : NamespacedName → W → Option ApiError × W
  unfolding remove_annotation
  remove_bom_annotation_once key w =
      let (r, w1) = c.get_bom key w in
      elim r [
        | err not_found ↦ (none, w1)
        | err e ↦ (some e, w1)
        | ok bom ↦
            c.update_bom (record bom { meta = remove_annotation bom.meta annotation_key_reconcile })
              w1
      ]

  -- A round of the loop; the error of the last round stands in a variable of the caller.
  unfoldable pub annotation_round :
      NamespacedName → Option ApiError × W → Bool × (Option ApiError × W)
  unfolding remove_bom_annotation_once
  annotation_round key (_, w) =
      let (e, w1) = remove_bom_annotation_once key w in (not (is_conflict e), (e, w1))

  unfoldable pub remove_bom_annotation : NamespacedName → W → Option ApiError × W
  unfolding annotation_round repeat
  remove_bom_annotation key w =
      (repeat (annotation_round key) 10 (λ (x, v). (x, c.sleep second v)) (none, w)).1

  unfoldable pub handle_reconcile_annotation : ClusterBom → W → Option ApiError × W
  unfolding has_annotation annotate_items remove_bom_annotation
  handle_reconcile_annotation bom w =
      let (r, w1) = c.list_items bom.meta.namespace (bom_labels bom.meta.name) w in
      let handled_annotation : Option ApiError × W = elim r [
        | err e ↦ (some e, w1)
        | ok items ↦
            let (e, w2) = annotate_items items w1 in
            let removed = remove_bom_annotation (get_key bom.meta) w2 in
            elim e [ some x ↦ (some x, w2) | none ↦ removed ]
      ] in
      if has_annotation bom.meta annotation_key_reconcile annotation_value_reconcile
      then handled_annotation
      else (none, w)

  -- The world after the update, for the clusterbom without its finalizers.
  unfoldable pub remove_finalizer_from_clusterbom :
      ClusterBom → List SecretObject → W → Option ApiError × W
  unfolding cleanup_all_secrets
  remove_finalizer_from_clusterbom bom secrets w =
      let (e, w1) = cleanup_all_secrets c secrets w in
      let freed = c.update_bom (record bom { meta = record bom.meta { finalizers = [] } }) w1 in
      if is_empty bom.meta.finalizers
      then (none, w)
      else elim e [ some x ↦ (some x, w1) | none ↦ freed ]

  unfoldable pub handle_cluster_bom_marked_for_deletion :
      ClusterBom → List DeployItem → List SecretObject → W → Outcome × W
  unfolding remove_finalizer_from_clusterbom delete_deploy_items
  handle_cluster_bom_marked_for_deletion bom items secrets w =
      let (e, w1) = remove_finalizer_from_clusterbom bom secrets w in
      let (e', w2) = delete_deploy_items c items w in
      if is_empty bom.meta.finalizers
      then (done, w)
      else if is_empty items
      then (returned e, w1)
      else (returned e', w2)

  unfoldable pub handle_cluster_bom_does_not_exist : List DeployItem → W → Outcome × W
  unfolding delete_deploy_items
  handle_cluster_bom_does_not_exist items w =
      let (e, w1) = delete_deploy_items c items w in
      if is_empty items then (done, w) else (returned e, w1)

-- The clusterbom as `handleDeactivationOrReactivation` leaves it where it stops.
unfoldable pub stopped_bom : ClusterBom → ClusterBom
unfolding deactivated_meta reactivated_meta
stopped_bom bom =
    if asks_deactivate bom.meta
    then record bom { meta = deactivated_meta bom.meta }
    else if asks_reactivate bom.meta
    then record bom { meta = reactivated_meta bom.meta }
    else bom

module _ {W : Type 0} (c : BomControllerClient W) (json : Json) (av : Option NamespacedName) where
  -- The target cluster does not exist: its items are deleted, and the clusterbom is checked again.
  unfoldable pub handle_not_existing_cluster : ClusterBom → List DeployItem → W → Outcome × W
  unfolding delete_deploy_items adjust_cluster_bom_status_for_not_existing_target_cluster
  handle_not_existing_cluster bom items w =
      let (e, w1) = delete_deploy_items c items w in
      let (_, w2) = adjust_cluster_bom_status_for_not_existing_target_cluster c av bom w1 in
      elim e [ some _ ↦ (requeue, w1) | none ↦ (requeue, w2) ]

  unfoldable pub handle_existing_cluster : ClusterBom → List DeployItem → W → Outcome × W
  unfolding delete_orphaned_deploy_items handle_app_configs handle_reconcile_annotation
  handle_existing_cluster bom items w =
      let apps = bom.spec.application_configs in
      let (e, w1) = delete_orphaned_deploy_items c apps items w in
      let (e', _, w2) = handle_app_configs c json av bom apps items w1 in
      let (e'', w3) = handle_reconcile_annotation c bom w2 in
      elim e [
        | some _ ↦ (requeue, w1)
        | none ↦ elim e' [ some _ ↦ (requeue, w2) | none ↦ (returned e'', w3) ]
      ]

  unfoldable pub handle_normal_cluster_bom :
      ClusterBom → Option SecretObject → List DeployItem → W → Outcome × W
  unfolding handle_not_existing_cluster handle_existing_cluster
  handle_normal_cluster_bom bom none items w = handle_not_existing_cluster bom items w
  handle_normal_cluster_bom bom (some secret) items w = handle_existing_cluster bom items w

  -- From the test of `clusterbomExists` on.
  unfoldable pub handle_cluster_bom : AssociatedObjects → W → Outcome × W
  unfolding handle_cluster_bom_does_not_exist handle_cluster_bom_marked_for_deletion cleanup_secrets
      handle_normal_cluster_bom
  handle_cluster_bom a w = elim a.clusterbom [
    | none ↦ handle_cluster_bom_does_not_exist c a.deploy_items w
    | some bom ↦
        if is_some bom.meta.deletion_timestamp
        then handle_cluster_bom_marked_for_deletion c bom a.deploy_items a.secrets w
        else handle_normal_cluster_bom bom a.secret a.deploy_items
            (cleanup_secrets c bom.spec.application_configs a.secrets w)
  ]

  -- After the deactivation of a clusterbom that exists.
  unfoldable pub after_deactivation :
      ClusterBom → AssociatedObjects → Result Verdict × List DeployItem × W → Outcome × W
  unfolding delete_bom_if_required handle_cluster_bom stopped_bom
  after_deactivation bom a (r, items, w) =
      let (e, w1) = delete_bom_if_required c.calls (stopped_bom bom) items w in
      let handled_bom = handle_cluster_bom (record a { deploy_items = items }) w in
      elim r [
        | err _ ↦ (requeue, w)
        | ok v ↦
            if v.progressing
            then (requeue_after (3 * second), w)
            else if v.stop
            then (returned e, w1)
            else handled_bom
      ]

  unfoldable pub process_objects : AssociatedObjects → W → Outcome × W
  unfolding handle_bom_deactivation_or_reactivation after_deactivation handle_cluster_bom
  process_objects a w = elim a.clusterbom [
    | none ↦ handle_cluster_bom a w
    | some bom ↦
        after_deactivation bom a
          (handle_bom_deactivation_or_reactivation c.calls bom a.deploy_items w)
  ]

  unfoldable pub process_cluster_bom : NamespacedName → W → Outcome × W
  unfolding read_associated_objects process_objects
  process_cluster_bom key w =
      let (r, w1) = read_associated_objects c key w in
      elim r [ err _ ↦ (requeue, w1) | ok a ↦ process_objects a w1 ]

  -- The lock is held for five minutes, and released whatever the outcome is.
  unfoldable pub reconcile_cluster_bom :
      SyncClient W → BlockObject → NamespacedName → W → Outcome × W
  unfolding block release process_cluster_bom
  reconcile_cluster_bom sync b key w =
      let (blocked, w1) = block sync b key (5 * minute) false w in
      let (out, w2) = process_cluster_bom key w1 in
      let w3 = release sync b key false w2 in
      elim blocked.error [
        | some _ ↦ (requeue, w1)
        | none ↦ if blocked.granted then (out, w3) else (requeue_after blocked.retry, w1)
      ]
