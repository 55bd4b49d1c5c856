-- ===== src/StateController/Cleaner.antt =====
-- The client of the state controller, and the clean-up of clusterboms without applications.
use potter_controller.Prelude.{
  Bool, List, Option, [], false, if◌then◌else◌, is_empty, ltb, none, some, true, ℕ, ◌*◌, ◌+◌, ◌-◌,
  ◌/◌, ◌∷◌,
}
use potter_controller.Api.{
  ApiError, ClusterBom, ClusterBomStatus, DeployItem, NamespacedName, Result, Time,
  cluster_bom_ready, condition_true, err, minute, not_found, ok, second, state_ok,
}
use potter_controller.ClusterBomController.BomStatus.{
  adjust_cluster_bom_status_for_not_existing_target_cluster, not_existing_condition,
  update_cluster_bom_status,
}
use potter_controller.ClusterBomController.Calls.{BomControllerClient}
use potter_controller.ClusterBomController.Handlers.{bom_labels, get_secret_key_from_cluster_bom}
use potter_controller.Sync.BlockObject.{BlockObject, SyncClient, block, release}
use potter_controller.Util.Keys.{get_key}

pub record StateClient (W : Type 0) : Type 0 where
  pub bom_client : BomControllerClient W
  pub open bom_client use *
  pub sync_client : SyncClient W
  pub get_item : NamespacedName → W → Result DeployItem × W
  pub list_boms : W → Result (List ClusterBom) × W

pub record ClusterBomCleaner : Type 0 where
  pub last_check : ℕ
  pub succeeded : Bool

-- `time.Time.Unix` of a time after 1970
abbrev pub unix : Time → ℕ
unix t = t / second - 62135596800

unfoldable pub empty_status : ClusterBom → Time → ClusterBomStatus
empty_status bom now = record {
  application_states = [];
  overall_state = state_ok;
  overall_time = now;
  description = "";
  conditions =
      not_existing_condition cluster_bom_ready condition_true now "EmptyClusterBom"
        "Empty ClusterBom"
      ∷ [];
  observed_generation = bom.meta.generation;
  overall_num_of_deployments = 0;
  overall_num_of_ready_deployments = 0;
  overall_progress = 100;
}

module _ {W : Type 0} (c : StateClient W) where
  unfoldable pub exists_secret : NamespacedName → W → Result Bool × W
  exists_secret key w =
      let (r, w1) = c.get_secret key w in
      (elim r [ ok _ ↦ ok true | err not_found ↦ ok false | err e ↦ err e ], w1)

module _ {W : Type 0} (c : StateClient W) (b : BlockObject) (av : Option NamespacedName) where
  unfoldable pub adjust_cluster_bom_status_for_empty_cluster_bom :
      ClusterBom → W → Option ApiError × W
  unfolding empty_status update_cluster_bom_status
  adjust_cluster_bom_status_for_empty_cluster_bom bom w =
      let (now, w1) = c.now w in
      update_cluster_bom_status c.bom_client av bom (empty_status bom now) w1

  -- Once the lock is held.
  unfoldable pub cleanup_locked : ClusterBom → W → Option ApiError × W
  unfolding exists_secret adjust_cluster_bom_status_for_empty_cluster_bom
      adjust_cluster_bom_status_for_not_existing_target_cluster get_secret_key_from_cluster_bom
  cleanup_locked bom w =
      let (r, w1) = exists_secret c (get_secret_key_from_cluster_bom bom) w in
      elim r [
        | err e ↦ (some e, w1)
        | ok true ↦ adjust_cluster_bom_status_for_empty_cluster_bom bom w1
        | ok false ↦
            adjust_cluster_bom_status_for_not_existing_target_cluster c.bom_client av bom w1
      ]

  -- A clusterbom that is locked by another process is skipped.
  unfoldable pub cleanup_empty_cluster_bom : ClusterBom → W → Option ApiError × W
  unfolding block cleanup_locked release
  cleanup_empty_cluster_bom bom w =
      let (blocked, w1) = block c.sync_client b (get_key bom.meta) (5 * minute) false w in
      let (e, w2) = cleanup_locked bom w1 in
      elim blocked.error [
        | some x ↦ (some x, w1)
        | none ↦
            if blocked.granted
            then (e, release c.sync_client b (get_key bom.meta) false w2)
            else (none, w1)
      ]

  -- The body of the loop, for one clusterbom.
  unfoldable pub check_empty_cluster_bom : ClusterBom → W → Option ApiError × W
  unfolding cleanup_empty_cluster_bom
  check_empty_cluster_bom bom w =
      let (r, w1) = c.list_items bom.meta.namespace (bom_labels bom.meta.name) w in
      let cleaned = cleanup_empty_cluster_bom bom w1 in
      if is_empty bom.spec.application_configs
      then elim r [
        | err e ↦ (some e, w1)
        | ok items ↦ if is_empty items then cleaned else (none, w1)
      ]
      else (none, w)

  unfoldable pub check_each_cluster_bom : List ClusterBom → W → Option ApiError × W
  unfolding check_empty_cluster_bom
  check_each_cluster_bom [] w = (none, w)
  check_each_cluster_bom (bom ∷ rest) w =
      let (e, w1) = check_empty_cluster_bom bom w in
      let others = check_each_cluster_bom rest w1 in
      elim e [ some x ↦ (some x, w1) | none ↦ others ]

  unfoldable pub check_empty_cluster_boms : W → Option ApiError × W
  unfolding check_each_cluster_bom
  check_empty_cluster_boms w =
      let (r, w1) = c.list_boms w in
      elim r [ err e ↦ (some e, w1) | ok boms ↦ check_each_cluster_bom boms w1 ]

  -- It is done once, and tried again an hour after a failure.
  unfoldable pub cleanup_status_of_empty_cluster_boms :
      ClusterBomCleaner → W → ClusterBomCleaner × W
  unfolding check_empty_cluster_boms
  cleanup_status_of_empty_cluster_boms cleaner w =
      let (now, w1) = c.now w in
      let (e, w2) = check_empty_cluster_boms w1 in
      let (later_time, w3) = c.now w2 in
      if cleaner.succeeded
      then (cleaner, w)
      else if ltb (cleaner.last_check + 3600) (unix now)
      then elim e [
        | some _ ↦ (record { last_check = unix later_time; succeeded = false }, w3)
        | none ↦ (record cleaner { succeeded = true }, w2)
      ]
      else (cleaner, w1)
