-- ===== src/ClusterBomController/Deactivator.antt =====
-- pkg/controllersdi/clusterbom_deactivator.go
use potter_controller.Prelude.{
  Bool, List, Option, String, [], false, if◌then◌else◌, is_some, none, not, some, true, ◌&&◌, ◌∷◌,
}
use potter_controller.Api.{ApiError, ClusterBom, DeployItem, ObjectMeta, Result, err, ok}
use potter_controller.DeploymentController.Deactivator.{
  annotation_action_ignore_key, asks_deactivate, asks_reactivate, deactivate_value,
  deactivated_meta, is_ignored, reactivate_value, reactivated_meta,
}
use potter_controller.Util.Objects.{add_annotation, has_annotation}

-- The calls of the Kubernetes client; `W` is the world outside of the process.
pub record BomClient (W : Type 0) : Type 0 where
  pub update_item : DeployItem → W → Option ApiError × W
  pub delete_item : DeployItem → W → Option ApiError × W
  pub update_bom : ClusterBom → W → Option ApiError × W

-- The tests of an item in the two loops.
abbrev pub is_off : ObjectMeta → Bool
is_off m = is_ignored m && not (asks_deactivate m) && not (asks_reactivate m)

abbrev pub is_on : ObjectMeta → Bool
is_on m = not (is_ignored m) && not (asks_deactivate m) && not (asks_reactivate m)

unfoldable pub asked : String → DeployItem → DeployItem
unfolding add_annotation
asked action item = record item {
  meta = add_annotation item.meta annotation_action_ignore_key action;
}

-- An item and whether the action is confirmed by it, or the error of its update.
abbrev pub Round : Type 0 → Type 0
Round W = DeployItem → W → Result Bool × DeployItem × W

-- The rest of the loop after one round: its result, and that of the loop over the other items.
abbrev pub continue :
    {W : Type 0}
    → List DeployItem
    → Result Bool × DeployItem × W
    → Result Bool × List DeployItem × W
    → Result Bool × List DeployItem × W
continue rest (err e, item, w) _ = (err e, item ∷ rest, w)
continue rest (ok b, item, _) (err e, rest', w) = (err e, item ∷ rest', w)
continue rest (ok b, item, _) (ok b', rest', w) = (ok (b && b'), item ∷ rest', w)

-- The loop over the items, which ends at the first error. The items are changed in place.
unfoldable pub for_items :
    {W : Type 0} → Round W → List DeployItem → W → Result Bool × List DeployItem × W
for_items round [] w = (ok true, [], w)
for_items round (item ∷ rest) w =
    continue rest (round item w) (for_items round rest (round item w).2)

-- `stopReconcile` and `actionProgressing`
pub record Verdict : Type 0 where
  pub stop : Bool
  pub progressing : Bool

module _ {W : Type 0} (c : BomClient W) where
  -- The update of an item that is asked for an action is not a confirmation.
  abbrev pub ask : String → Round W
  ask action item w =
      let (e, w1) = c.update_item (asked action item) w in
      (elim e [ none ↦ ok false | some x ↦ err x ], asked action item, w1)

  unfoldable pub deactivate_item : Round W
  unfolding has_annotation asked
  deactivate_item item w =
      let sent = ask deactivate_value item w in
      if is_off item.meta
      then (ok true, item, w)
      else if asks_deactivate item.meta
      then (ok false, item, w)
      else sent

  unfoldable pub reactivate_item : Round W
  unfolding has_annotation asked
  reactivate_item item w =
      let sent = ask reactivate_value item w in
      if is_on item.meta
      then (ok true, item, w)
      else if asks_reactivate item.meta
      then (ok false, item, w)
      else sent

  -- After the loop: the clusterbom is marked where every item has confirmed.
  unfoldable pub finish :
      (ObjectMeta → ObjectMeta)
      → ClusterBom
      → Result Bool × List DeployItem × W
      → Result Verdict × List DeployItem × W
  finish mark bom (r, items, w) =
      let (e, w1) = c.update_bom (record bom { meta = mark bom.meta }) w in
      elim r [
        | err x ↦ (err x, items, w)
        | ok true ↦ (
          elim e [ none ↦ ok (record { stop = true; progressing = false }) | some x ↦ err x ],
          items,
          w1,
        )
        | ok false ↦ (ok (record { stop = false; progressing = true }), items, w)
      ]

  unfoldable pub handle_bom_deactivation_or_reactivation :
      ClusterBom → List DeployItem → W → Result Verdict × List DeployItem × W
  unfolding has_annotation for_items deactivate_item reactivate_item finish deactivated_meta
      reactivated_meta
  handle_bom_deactivation_or_reactivation bom items w =
      let off = finish deactivated_meta bom (for_items deactivate_item items w) in
      let on = finish reactivated_meta bom (for_items reactivate_item items w) in
      if asks_deactivate bom.meta
      then off
      else if asks_reactivate bom.meta
      then on
      else (ok (record { stop = is_ignored bom.meta; progressing = false }), items, w)

  -- The loop of `deleteIfRequired`: it ends at the first error.
  unfoldable pub delete_items : List DeployItem → W → Option ApiError × W
  delete_items [] w = (none, w)
  delete_items (item ∷ rest) w =
      let free = record item { meta = record item.meta { finalizers = [] } } in
      let (e, w1) = c.update_item free w in
      let (e', w2) = c.delete_item free w1 in
      let deleted = delete_items rest w2 in
      elim e [ some x ↦ (some x, w1) | none ↦ elim e' [ some x ↦ (some x, w2) | none ↦ deleted ] ]

  unfoldable pub delete_bom_if_required : ClusterBom → List DeployItem → W → Option ApiError × W
  unfolding has_annotation delete_items
  delete_bom_if_required bom items w =
      let (e, w1) = delete_items items w in
      let freed = c.update_bom (record bom { meta = record bom.meta { finalizers = [] } }) w1 in
      if is_some bom.meta.deletion_timestamp && is_off bom.meta
      then elim e [ some x ↦ (some x, w1) | none ↦ freed ]
      else (none, w)
