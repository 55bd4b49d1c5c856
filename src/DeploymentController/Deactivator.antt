-- ===== src/DeploymentController/Deactivator.antt =====
-- pkg/controllersdi/deployment_deactivator.go
use potter_controller.Prelude.{
  Bool, Option, String, [], false, if◌then◌else◌, is_some, none, not, some, true, ◌&&◌,
}
use potter_controller.Api.{ApiError, DeployItem, ObjectMeta, Result, err, ok}
use potter_controller.Deploy.Client.{Client}
use potter_controller.Util.Objects.{add_annotation, has_annotation, remove_annotation}

abbrev pub annotation_action_ignore_key : String
annotation_action_ignore_key = "potter.gardener.cloud/action-ignore"

abbrev pub deactivate_value : String
deactivate_value = "deactivate"

abbrev pub reactivate_value : String
reactivate_value = "reactivate"

abbrev pub annotation_status_ignore_key : String
annotation_status_ignore_key = "potter.gardener.cloud/status-ignore"

abbrev pub ignore : String
ignore = "ignore"

abbrev pub asks_deactivate : ObjectMeta → Bool
asks_deactivate m = has_annotation m annotation_action_ignore_key deactivate_value

abbrev pub asks_reactivate : ObjectMeta → Bool
asks_reactivate m = has_annotation m annotation_action_ignore_key reactivate_value

abbrev pub is_ignored : ObjectMeta → Bool
is_ignored m = has_annotation m annotation_status_ignore_key ignore

unfoldable pub deactivated_meta : ObjectMeta → ObjectMeta
unfolding remove_annotation add_annotation
deactivated_meta m =
    add_annotation (remove_annotation m annotation_action_ignore_key) annotation_status_ignore_key
      ignore

unfoldable pub reactivated_meta : ObjectMeta → ObjectMeta
unfolding remove_annotation
reactivated_meta m =
    remove_annotation (remove_annotation m annotation_action_ignore_key)
      annotation_status_ignore_key

-- stopReconcile, or an error
abbrev pub stopped : Option ApiError → Result Bool
stopped none = ok true
stopped (some e) = err e

module _ {W : Type 0} (c : Client W) where
  -- With the item, whose metadata is changed in place before the update.
  unfoldable pub handle_deactivation_or_reactivation : DeployItem → W → Result Bool × DeployItem × W
  unfolding has_annotation deactivated_meta reactivated_meta
  handle_deactivation_or_reactivation item w =
      let off = record item { meta = deactivated_meta item.meta } in
      let on = record item { meta = reactivated_meta item.meta } in
      let (e, w1) = c.update_item off w in
      let (e', w1') = c.update_item on w in
      if asks_deactivate item.meta
      then (stopped e, off, w1)
      else if asks_reactivate item.meta
      then (stopped e', on, w1')
      else if is_ignored item.meta
      then (ok true, item, w)
      else (ok false, item, w)

  unfoldable pub delete_if_required : DeployItem → W → Option ApiError × W
  unfolding has_annotation
  delete_if_required item w =
      if is_some item.meta.deletion_timestamp
        && is_ignored item.meta
        && not (asks_deactivate item.meta)
        && not (asks_reactivate item.meta)
      then c.update_item (record item { meta = record item.meta { finalizers = [] } }) w
      else (none, w)
