-- ===== src/ClusterBomController/BomStatus.antt =====
-- pkg/controllersdi/controller_util.go: whether the status of a clusterbom has changed, and its update.
-- The old status was read from the API server and the new one is computed: they share no memory, so that
-- two pointers in them are the same only where both are nil.
use potter_controller.Prelude.{
  Bool, List, Option, String, [], eqb, false, if◌then◌else◌, is_some, length, none, not, some, true,
  ◌&&◌, ◌==◌, ◌||◌, ◌∷◌,
}
use potter_controller.Api.{
  ApiError, ApplicationState, ClusterBom, ClusterBomCondition, ClusterBomStatus, ConditionStatus,
  DetailedState, LastOperation, NamespacedName, Operation, Reachability, Readiness, Time,
  cluster_bom_ready, cluster_reachable, condition_false, condition_unknown, operation_install,
  operation_remove, other_operation, state_pending, state_text,
}
use potter_controller.ClusterBomController.Calls.{BomControllerClient}
use potter_controller.ClusterBomController.Items.{is_av_check_bom}
use potter_controller.ControllerUtil.{same_bool}
use potter_controller.Util.Condition.{
  is_equal_cluster_bom_condition_list, is_equal_hdc_condition_list, succeeds,
}

abbrev pub operation_text : Operation → String
operation_text operation_install = "install"
operation_text operation_remove = "remove"
operation_text (other_operation s) = s

abbrev pub both_nil {ℓ} : {A : Type ℓ} → Option A → Option A → Bool
both_nil a b = not (is_some a) && not (is_some b)

-- Two pointers that are nil both, or of which neither is and the objects are the same.
abbrev pub same_object {ℓ} : {A : Type ℓ} → (A → A → Bool) → Option A → Option A → Bool
same_object same none none = true
same_object same (some a) (some b) = same a b
same_object same _ _ = false

-- `==` on structs compares the pointer to the history.
unfoldable pub same_last_operation : LastOperation → LastOperation → Bool
same_last_operation a b =
    operation_text a.operation == operation_text b.operation
    && eqb a.success_generation b.success_generation
    && (state_text a.state == state_text b.state)
    && eqb a.number_of_tries b.number_of_tries
    && eqb a.time b.time
    && (a.description == b.description)
    && both_nil a.error_history b.error_history

abbrev pub same_reachability : Reachability → Reachability → Bool
same_reachability a b = same_bool a.reachable b.reachable && eqb a.time b.time

abbrev pub same_readiness : Readiness → Readiness → Bool
same_readiness a b = state_text a.state == state_text b.state && eqb a.time b.time

unfoldable pub is_equal_detail_state : DetailedState → DetailedState → Bool
unfolding same_last_operation is_equal_hdc_condition_list
is_equal_detail_state old new =
    same_last_operation old.last_operation new.last_operation
    && eqb old.current_operation.time new.current_operation.time
    && same_object same_reachability old.reachability new.reachability
    && same_object same_readiness old.readiness new.readiness
    && same_object (λ a b. a == b) old.type_specific_status new.type_specific_status
    && is_equal_hdc_condition_list 0 old.hdc_conditions 1 new.hdc_conditions
    && eqb old.generation new.generation
    && same_object eqb old.deletion_timestamp new.deletion_timestamp

-- The inner loop: `found`, or `none` for the early `return false`.
unfoldable pub match_detail_state : ApplicationState → List ApplicationState → Bool → Option Bool
unfolding is_equal_detail_state
match_detail_state old [] found = some found
match_detail_state old (new ∷ rest) found =
    let same = match_detail_state old rest true in
    let other = match_detail_state old rest found in
    if old.id == new.id
    then if is_equal_detail_state old.detailed_state new.detailed_state then same else none
    else other

unfoldable pub all_detail_states : List ApplicationState → List ApplicationState → Bool
unfolding match_detail_state
all_detail_states [] new = true
all_detail_states (a ∷ rest) new =
    succeeds (match_detail_state a new false) && all_detail_states rest new

unfoldable pub is_equal_detail_states : List ApplicationState → List ApplicationState → Bool
unfolding all_detail_states
is_equal_detail_states old new =
    if eqb (length old) (length new) then all_detail_states old new else false

unfoldable pub has_cluster_bom_status_changed : ClusterBomStatus → ClusterBomStatus → Bool
unfolding is_equal_detail_states is_equal_cluster_bom_condition_list
has_cluster_bom_status_changed old new =
    not (eqb old.observed_generation new.observed_generation)
    || not (state_text old.overall_state == state_text new.overall_state)
    || not (old.description == new.description)
    || not (is_equal_detail_states old.application_states new.application_states)
    || not (is_equal_cluster_bom_condition_list old.conditions new.conditions)

abbrev pub not_existing_condition :
    String → ConditionStatus → Time → String → String → ClusterBomCondition
not_existing_condition type status now reason message = record {
  type = type;
  status = status;
  last_update_time = now;
  last_transition_time = now;
  reason = reason;
  message = message;
}

unfoldable pub not_existing_status : ClusterBom → Time → ClusterBomStatus
not_existing_status bom now = record {
  application_states = [];
  overall_state = state_pending;
  overall_time = now;
  description = "shoot cluster does not exist";
  conditions =
      not_existing_condition cluster_bom_ready condition_unknown now "TargetClusterDoesNotExist"
        "Target cluster does not exist"
      ∷ not_existing_condition cluster_reachable condition_false now "ReasonClusterDoesNotExist"
          "Cluster does not exist"
      ∷ [];
  observed_generation = bom.meta.generation;
  overall_num_of_deployments = 0;
  overall_num_of_ready_deployments = 0;
  overall_progress = 0;
}

module _ {W : Type 0} (c : BomControllerClient W) (av : Option NamespacedName) where
  -- A concurrent modification is no error for the clusterbom of the availability check.
  unfoldable pub update_cluster_bom_status : ClusterBom → ClusterBomStatus → W → Option ApiError × W
  unfolding has_cluster_bom_status_changed is_av_check_bom
  update_cluster_bom_status bom status w =
      let (e, w1) = c.update_bom_status (record bom { status = status }) w in
      if not (has_cluster_bom_status_changed bom.status status) then (none, w) else elim e [
        | none ↦ (none, w1)
        | some x ↦
            if c.is_concurrent_modification x && is_av_check_bom av bom
            then (none, w1)
            else (some x, w1)
      ]

  unfoldable pub adjust_cluster_bom_status_for_not_existing_target_cluster :
      ClusterBom → W → Option ApiError × W
  unfolding not_existing_status update_cluster_bom_status
  adjust_cluster_bom_status_for_not_existing_target_cluster bom w =
      let (now, w1) = c.now w in update_cluster_bom_status bom (not_existing_status bom now) w1
