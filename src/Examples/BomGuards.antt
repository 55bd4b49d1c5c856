-- ===== src/Examples/BomGuards.antt =====
-- What the clusterbom controller leaves alone, on a small cluster.
use text.Mathlib.TextEquality.{eq_iff}
use potter_controller.Prelude.{[], any, arith, false, none, refl, some, ◌+◌, ◌<◌, ◌==◌, ◌∷◌, ◌≡◌}
use potter_controller.Api.{ApplicationConfig, ClusterBom, Json, hour, other_error}
use potter_controller.ClusterBomController.BomStatus.{
  adjust_cluster_bom_status_for_not_existing_target_cluster, not_existing_status,
}
use potter_controller.ClusterBomController.Calls.{
  SecretObject, delete_marked_secret, get_secret_deletion_key, mark_for_deletion,
  with_deletion_token,
}
use potter_controller.ClusterBomController.Errors.{
  failed_config_requeues, not_existing_status_is_stable,
}
use potter_controller.ClusterBomController.Guards.{cleanup_keeps_used, finalizer_kept_while_items}
use potter_controller.ClusterBomController.Handlers.{
  handle_cluster_bom_marked_for_deletion, handle_existing_cluster,
}
use potter_controller.ClusterBomController.Items.{
  copy_app_config_to_deploy_item, delete_orphaned_deploy_items, handle_app_config,
  handle_app_configs,
}
use potter_controller.ClusterBomController.Secrets.{
  cleanup_secret, cleanup_secrets, is_contained_in_named_secrets, is_used, uses_secret,
}
use potter_controller.ControllerUtil.{find_deploy_item_in_list}
use potter_controller.DeploymentController.StatusUpdate.{requeue}
use potter_controller.Examples.Boms.{Cluster, cluster, empty_cluster, one_app, secret_named}
use potter_controller.Examples.Data.{app, bom, item, json}

-- An application that uses the secret `used`.
abbrev app_with_secret : ApplicationConfig
app_with_secret = record app {
  secret_values = some (record { internal_secret_name = "used"; operation = "" });
}

-- The secret `used` was not removed.
abbrev StillThere : Cluster → Type 0
StillThere w = any (λ n. n == "used") w.removed_secrets ≡ false

removes_only_unused_and_old :
    (s : SecretObject) (w : Cluster)
    → is_used (app_with_secret ∷ []) s ≡ false
    → s.meta.creation_timestamp + hour < (cluster.now w).0
    → StillThere w
    → StillThere (delete_marked_secret cluster s (cluster.now w).1).1
unfolding is_used uses_secret is_contained_in_named_secrets delete_marked_secret mark_for_deletion
    with_deletion_token get_secret_deletion_key
removes_only_unused_and_old s w unused old h =
    ground (arith, h, eq_iff "used" s.meta.name, eq_iff s.meta.name "used", unused)

cleanup_keeps_used_example : StillThere (
    cleanup_secrets cluster
      (app_with_secret ∷ [])
      (secret_named "used" ∷ secret_named "old" ∷ [])
      empty_cluster)
cleanup_keeps_used_example =
    cleanup_keeps_used cluster StillThere (app_with_secret ∷ []) (λ w h. h)
      removes_only_unused_and_old (secret_named "used" ∷ secret_named "old" ∷ []) empty_cluster refl

removes_the_other :
    (cleanup_secrets cluster
      (app_with_secret ∷ [])
      (secret_named "used" ∷ secret_named "old" ∷ [])
      empty_cluster).removed_secrets
    ≡ "old" ∷ []
unfolding cleanup_secrets cleanup_secret is_used uses_secret is_contained_in_named_secrets
    delete_marked_secret mark_for_deletion with_deletion_token get_secret_deletion_key
removes_the_other = refl

-- The clusterbom was not written.
abbrev NotWritten : Cluster → Type 0
NotWritten w = any (λ n. n == "update-bom") w.log ≡ false

finalizer_kept_while_items_example :
    NotWritten (handle_cluster_bom_marked_for_deletion cluster bom (item ∷ []) [] empty_cluster).1
finalizer_kept_while_items_example =
    finalizer_kept_while_items cluster NotWritten (λ x w alive h. h) bom (item ∷ []) []
      empty_cluster refl refl

-- A configuration that cannot be encoded.
abbrev broken : Json
broken = record json { marshal_configuration = λ c. none }

no_orphans : delete_orphaned_deploy_items cluster one_app [] empty_cluster ≡ (none, empty_cluster)
unfolding delete_orphaned_deploy_items
no_orphans = refl

no_config_before :
    handle_app_configs cluster broken none bom [] [] empty_cluster ≡ (none, [], empty_cluster)
unfolding handle_app_configs
no_config_before = refl

cannot_copy :
    handle_app_config cluster broken none bom app [] empty_cluster
    ≡ (some (other_error "error copying appconfig to new deployitem"), [], empty_cluster)
unfolding handle_app_config find_deploy_item_in_list copy_app_config_to_deploy_item
cannot_copy = refl

failed_config_requeues_example :
    handle_existing_cluster cluster broken none bom [] empty_cluster ≡ (requeue, empty_cluster)
failed_config_requeues_example =
    failed_config_requeues cluster broken none bom [] [] app [] [] [] empty_cluster empty_cluster
      empty_cluster empty_cluster (other_error "error copying appconfig to new deployitem") refl
      no_orphans no_config_before cannot_copy

abbrev lost_bom : ClusterBom
lost_bom = record bom { status = not_existing_status bom 7 }

same_status : lost_bom.status ≡ not_existing_status lost_bom 7
unfolding not_existing_status
same_status = refl

not_existing_status_is_stable_example :
    adjust_cluster_bom_status_for_not_existing_target_cluster cluster none lost_bom empty_cluster
    ≡ (none, empty_cluster)
not_existing_status_is_stable_example =
    not_existing_status_is_stable cluster none lost_bom 7 empty_cluster same_status
