-- ===== src/Kapp/Handlers.antt =====
-- The operations of the kapp deployer on a deploy item, `computeExports` and `computeReadinessAndExport`.
use potter_controller.Prelude.{
  Bool, Map, Option, String, [], false, if◌then◌else◌, insert, is_empty, none, some, true, ℕ, ◌%◌,
  ◌+◌, ◌==◌, ◌∷◌,
}
use potter_controller.Api.{
  Raw, Result, Time, condition_unknown, err, hub_deployment_ready, ok, state_failed, state_ok,
  state_text,
}
use potter_controller.Deploy.DeployData.{
  DeployData, get_secret_key, is_delete_operation, set_status, set_status_for_reachable_cluster,
  set_status_for_unreachable_cluster,
}
use potter_controller.Deploy.ItemCondition.{is_condition_true}
use potter_controller.Deploy.Requirements.{field_error, field_panic, field_value, get_resource_data}
use potter_controller.Deploy.Target.{
  DeployError, Kubeconfig, cluster_unreachable, get_target_client, new_dynamic_target_client,
  not_reached, plain_error, reached,
}
use potter_controller.Kapp.Operations.{process_kapp_item}
use potter_controller.Kapp.Readiness.{
  Attempt, InternalExportEntry, KappSystem, compute_readiness, finished, panicked,
  replace_ready_condition, set_phase,
}

-- By whether the item is deleted.
abbrev pub success_description : Bool → String
success_description removes = if removes then "remove successful" else "install successful"

unfoldable pub retries : ℕ → ℕ
retries n = (n + 1) % 4294967296

module _ {W O V : Type 0} (k : KappSystem W O V) (interval : ℕ)
    (replace_secret_names : Map String → Raw → Result Raw) (error_text : DeployError → String) where
  -- The loop over the entries, whose order is that of the iteration; `finished none` is an error.
  unfoldable pub collect_exports :
      Kubeconfig → Map InternalExportEntry → Map Raw → W → Attempt (Option (Map Raw)) × W
  unfolding get_resource_data
  collect_exports config [] new w = (finished (some new), w)
  collect_exports config ((key, e) ∷ es) new w =
      let (r, w1) =
        get_resource_data k.path k.target config e.api_version e.resource e.namespace e.name
          e.field_path w in
      elim r [
        | field_value v ↦ collect_exports config es (insert key (k.export_text v) new) w1
        | field_error ↦ (finished none, w1)
        | field_panic ↦ (panicked, w1)
      ]

  abbrev pub keep_exports : DeployData → Attempt (Option (Map Raw)) → Attempt (Option DeployData)
  keep_exports d panicked = panicked
  keep_exports d (finished none) = finished none
  keep_exports d (finished (some [])) = finished (some d)
  keep_exports d (finished (some (x ∷ xs))) = finished (some (record d { export_values = x ∷ xs }))

  unfoldable pub compute_exports : DeployData → W → Attempt (Option DeployData) × W
  unfolding new_dynamic_target_client get_secret_key collect_exports
  compute_exports d w =
      elim (k.unmarshal_data d.configuration.deployment_config.type_specific_data) [
        | err _ ↦ (finished none, w)
        | ok data_read ↦
            if is_empty data_read.internal_export
            then (finished (some d), w)
            else (let (r, w1) = new_dynamic_target_client k.target (get_secret_key d) w in
                elim r [
                  | not_reached _ ↦ (finished none, w1)
                  | reached config ↦
                      let (found, w2) = collect_exports config data_read.internal_export [] w1 in
                      (keep_exports d found, w2)
                ])
      ]

  abbrev pub without_exports : Time → DeployData → DeployData
  without_exports now d = set_phase k.phase_progressing (
      replace_ready_condition condition_unknown now "CouldNotGetExport" "Could not get export data"
        d)

  abbrev pub after_exports : Time → DeployData → Attempt (Option DeployData) → Attempt DeployData
  after_exports now d panicked = panicked
  after_exports now d (finished none) = finished (without_exports now d)
  after_exports now d (finished (some d1)) = finished d1

  unfoldable pub compute_readiness_and_export : DeployData → Time → W → Attempt DeployData × W
  unfolding compute_readiness compute_exports is_condition_true
  compute_readiness_and_export d now w =
      let (r, w1) = compute_readiness k d now w in
      elim r [
        | panicked ↦ (panicked, w1)
        | finished d1 ↦
            let (x, w2) = compute_exports d1 w1 in
            if is_condition_true hub_deployment_ready d1.item.status.conditions
            then (after_exports now d1 x, w2)
            else (finished d1, w1)
      ]

  -- The clock is read twice where the item has no last operation yet.
  unfoldable pub mark_reachability : Bool → DeployData → W → DeployData × W
  unfolding set_status_for_unreachable_cluster set_status_for_reachable_cluster
  mark_reachability reachable d w =
      let (first, w1) = k.client.now w in
      let (current, w2) = k.client.now w1 in
      let mark : Time → Time → DeployData = λ a b.
        if reachable
        then set_status_for_reachable_cluster a b d
        else set_status_for_unreachable_cluster a b d in
      if state_text d.provider_status.last_operation.state == ""
      then (mark first current, w2)
      else (mark first first, w1)

  -- The status after `processItem`, with the number of tries that a failure leaves.
  unfoldable pub record_result : Option DeployError → ℕ → Time → DeployData → W → DeployData × W
  unfolding mark_reachability set_status is_delete_operation
  record_result none tries now d w =
      (set_status state_ok (success_description (is_delete_operation d)) 1 now d, w)
  record_result (some (cluster_unreachable e)) tries now d w = mark_reachability false d w
  record_result (some (plain_error e)) tries now d w =
      (set_status state_failed (error_text (plain_error e)) tries now d, w)

  -- The body that a new, a repeated and a periodic operation share: `tries` is what a failure counts. A
  -- periodic one reads the clock again before the readiness is computed.
  unfoldable pub run_operation : Bool → ℕ → DeployData → W → Attempt DeployData × W
  unfolding process_kapp_item record_result compute_readiness_and_export
  run_operation reads_again tries d w =
      let (r, w1) = process_kapp_item k interval replace_secret_names d w in
      let (now, w2) = k.client.now w1 in
      elim r [
        | panicked ↦ (panicked, w1)
        | finished e ↦
            let (d1, w3) = record_result e tries now d w2 in
            let (later, w4) = k.client.now w3 in
            if reads_again
            then compute_readiness_and_export d1 later w4
            else compute_readiness_and_export d1 now w3
      ]

  unfoldable pub process_new_operation : DeployData → W → Attempt DeployData × W
  unfolding run_operation
  process_new_operation d w = run_operation false 1 d w

  unfoldable pub reconcile_operation : DeployData → W → Attempt DeployData × W
  unfolding run_operation
  reconcile_operation d w = run_operation true 1 d w

  unfoldable pub retry_failed_operation : DeployData → W → Attempt DeployData × W
  unfolding run_operation retries
  retry_failed_operation d w =
      run_operation false (retries d.provider_status.last_operation.number_of_tries) d w

  unfoldable pub process_pending_operation : DeployData → W → Attempt DeployData × W
  unfolding get_target_client get_secret_key mark_reachability compute_readiness_and_export
  process_pending_operation d w =
      let (r, w1) = get_target_client k.target (get_secret_key d) w in
      let reachable : Bool = elim r [ not_reached _ ↦ false | reached _ ↦ true ] in
      let (d1, w2) = mark_reachability reachable d w1 in
      let (now, w3) = k.client.now w2 in compute_readiness_and_export d1 now w3
