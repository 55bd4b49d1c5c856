-- ===== src/Examples/Deactivation.antt =====
-- A clusterbom that is deactivated, and reactivated, with its deploy item.
use potter_controller.Prelude.{String, [], false, lookup, map, none, refl, true, ◌++◌, ◌∷◌, ◌≡◌}
use potter_controller.Api.{ClusterBom, DeployItem, ok}
use potter_controller.ClusterBomController.Confirmed.{handled}
use potter_controller.ClusterBomController.Convergence.{
  NotErr, deactivation_converges, reactivation_converges,
}
use potter_controller.ClusterBomController.Deactivator.{
  BomClient, deactivate_item, for_items, handle_bom_deactivation_or_reactivation, reactivate_item,
}
use potter_controller.DeploymentController.Deactivator.{
  annotation_action_ignore_key, annotation_status_ignore_key, asks_deactivate, asks_reactivate,
  deactivate_value, ignore, reactivate_value,
}
use potter_controller.Examples.Data.{bom, item, meta}
use potter_controller.Examples.Items.{Calls, client}
use potter_controller.Util.Objects.{has_annotation}

abbrev bom_client : BomClient Calls
bom_client = record {
  update_item = λ i w. (none, w ++ "update item" ∷ []);
  delete_item = λ i w. (none, w ++ "delete item" ∷ []);
  update_bom = λ b w. (none, w ++ "update clusterbom" ∷ []);
}

abbrev asking : String → ClusterBom
asking action = record bom {
  meta = record meta { annotations = (annotation_action_ignore_key, action) ∷ [] };
}

asks_off : asks_deactivate (asking deactivate_value).meta ≡ true
unfolding has_annotation lookup
asks_off = refl

asks_on : asks_reactivate (asking reactivate_value).meta ≡ true
unfolding has_annotation lookup
asks_on = refl

first_off : NotErr (for_items (deactivate_item bom_client) (item ∷ []) []).0
unfolding for_items deactivate_item lookup
first_off = tt

-- The item is ignored before.
abbrev ignored : DeployItem
ignored = record item {
  meta = record meta { annotations = (annotation_status_ignore_key, ignore) ∷ [] };
}

first_on : NotErr (for_items (reactivate_item bom_client) (ignored ∷ []) []).0
unfolding for_items reactivate_item lookup
first_on = tt

deactivation_converges_example :
    let items' =
      map
        (handled bom_client client [])
        (for_items (deactivate_item bom_client) (item ∷ []) []).1 in
    handle_bom_deactivation_or_reactivation bom_client (asking deactivate_value) items' []
    ≡ (ok (record { stop = true; progressing = false }), items', "update clusterbom" ∷ [])
deactivation_converges_example =
    deactivation_converges bom_client client (asking deactivate_value) (item ∷ []) [] [] [] asks_off
      first_off refl

reactivation_converges_example :
    let items' =
      map
        (handled bom_client client [])
        (for_items (reactivate_item bom_client) (ignored ∷ []) []).1 in
    handle_bom_deactivation_or_reactivation bom_client (asking reactivate_value) items' []
    ≡ (ok (record { stop = true; progressing = false }), items', "update clusterbom" ∷ [])
reactivation_converges_example =
    reactivation_converges bom_client client (asking reactivate_value) (ignored ∷ []) [] [] []
      asks_on first_on refl
