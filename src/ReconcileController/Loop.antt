-- ===== src/ReconcileController/Loop.antt =====
-- `reconcileAll` with the loop over the clusterboms, and a round of `Reconcile`, which never ends.
-- `none` is a panic.
use potter_controller.Prelude.{
  Bool, List, Option, [], false, if◌then◌else◌, is_some, ltb, none, not, some, true, ◌*◌, ◌+◌, ◌-◌,
  ◌>>=◌, ◌∷◌,
}
use potter_controller.Api.{ClusterBom, Duration, err, minute, ok, second}
use potter_controller.Deploy.DeployData.{annotation_key_reconcile, annotation_value_reconcile}
use potter_controller.ReconcileController.Calls.{ReconcileClient, ReconcileController}
use potter_controller.ReconcileController.Cleanup.{auto_delete_clusterless_bom, cleanup_all}
use potter_controller.ReconcileController.Lock.{
  block_map, read_last_start_time, unblock, upsert_config_map,
}
use potter_controller.Util.Keys.{get_key}
use potter_controller.Util.Objects.{add_annotation}

module _ {W : Type 0} (c : ReconcileClient W) (r : ReconcileController) where
  unfoldable pub mark_for_reconcile : ClusterBom → W → W
  unfolding add_annotation
  mark_for_reconcile bom w =
      (c.update_bom
        (record bom {
          meta = add_annotation bom.meta annotation_key_reconcile annotation_value_reconcile;
        })
        w).1

  -- The loop ends where the lock is lost.
  unfoldable pub handle_boms : List ClusterBom → W → Option W
  unfolding auto_delete_clusterless_bom mark_for_reconcile block_map
  handle_boms [] w = some w
  handle_boms (bom ∷ rest) w =
      let w1 = auto_delete_clusterless_bom c r (get_key bom.meta) w in
      let w2 = c.sleep (10 * second) (mark_for_reconcile bom w1) in
      let next : W → Option W = λ v. handle_boms rest v in
      elim (block_map c r (5 * minute) w2) [
        | none ↦ none
        | some (ok true, w3) ↦ next w3
        | some (_, w3) ↦ some w3
      ]

  unfoldable pub handle_all_cluster_boms : W → Option W
  unfolding handle_boms
  handle_all_cluster_boms w =
      let (boms, w1) = c.list_boms w in elim boms [ err _ ↦ some w1 | ok xs ↦ handle_boms xs w1 ]

  -- Once the lock is held; `unblock` is deferred.
  unfoldable pub reconcile_locked : Duration → W → Option (Bool × W)
  unfolding handle_all_cluster_boms cleanup_all upsert_config_map unblock
  reconcile_locked interval w = do
    let (start_time, w1) = c.now w
    w2 ← handle_all_cluster_boms w1
    let (finish_time, w3) = c.now (cleanup_all c r interval w2)
    (e, w4) ← upsert_config_map c r start_time finish_time w3
    some (not (is_some e), unblock c r w4)

  unfoldable pub reconcile_all : Duration → W → Option (Bool × W)
  unfolding block_map reconcile_locked
  reconcile_all interval w = elim (block_map c r (5 * minute) w) [
    | none ↦ none
    | some (ok true, w1) ↦ reconcile_locked interval w1
    | some (_, w1) ↦ some (false, w1)
  ]

  -- The body of the endless loop.
  unfoldable pub reconcile_round : Duration → Duration → W → Option W
  unfolding read_last_start_time reconcile_all
  reconcile_round reconcile_interval interval w = do
    (last, w1) ← read_last_start_time c r w
    elim last [
      | err _ ↦ some (c.sleep (10 * second) w1)
      | ok t ↦
          let next = t + reconcile_interval in
          let (now, w2) = c.now w1 in
          let slept : Bool × W → W =
            λ (worked, w3). (if worked then w3 else c.sleep (5 * minute) w3) in
          let work : Option W = (do s ← reconcile_all interval w2; some (slept s)) in
          if ltb now next then some (c.sleep (next - now) w2) else work
    ]
