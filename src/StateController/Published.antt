-- ===== src/StateController/Published.antt =====
-- The status that the state controller publishes agrees with itself.
use potter_controller.Prelude.{
  >>=-eq-some, List, Option, String, [], ap, arith, length, refl, some, some_inj, sym, ℕ, ◌+◌, ◌↔◌,
  ◌∙◌, ◌∷◌, ◌≡◌,
}
use potter_controller.Api.{
  ClusterBom, ClusterBomCondition, ClusterBomStatus, ConditionStatus, DeployItem, Json,
  NamespacedName, Time, condition_true,
}
use potter_controller.StateController.Cleaner.{StateClient}
use potter_controller.StateController.Progress.{progress_bounds}
use potter_controller.StateController.Reachable.{
  compute_cluster_reachable_condition, latest_reachability, no_info,
}
use potter_controller.StateController.Ready.{compute_cluster_bom_ready_condition, ready_status}
use potter_controller.StateController.Ready.Verdict.{
  config_ids, orphan_ids, total-one, weight, weight-computed,
}
use potter_controller.StateController.Reconcile.{compute_cluster_bom_conditions, compute_status}
use potter_controller.StateController.States.{compute_application_states}
use potter_controller.StateController.Statistics.{
  Statistics, get_overall_num_of_deployments, get_overall_num_of_ready_deployments,
  get_overall_progress, status_of,
}
use potter_controller.Sync.BlockObject.{BlockObject}

status_true_iff :
    (s : Statistics)
    → (status_of s ≡ condition_true)
      ↔ (get_overall_num_of_ready_deployments s ≡ get_overall_num_of_deployments s)
unfolding get_overall_num_of_ready_deployments get_overall_num_of_deployments
status_true_iff s = by_lists s.failed_apps s.pending_apps
  where
    by_lists :
        (failed pending : List String)
        → (status_of (record s { failed_apps = failed; pending_apps = pending }) ≡ condition_true)
          ↔ (length s.successful_apps ≡ length failed + length pending + length s.successful_apps)
    by_lists [] [] = (λ _. omega arith, λ _. refl)
    by_lists [] (p ∷ ps) = (λ h. cc, λ h. absurd (omega (arith, h)))
    by_lists (f ∷ fs) ps = (λ h. cc, λ h. absurd (omega (arith, h)))

ready_iff_full :
    (st : Statistics) (status : ConditionStatus) (progress : ℕ)
    → status ≡ status_of st
    → progress ≡ get_overall_progress st
    → (status ≡ condition_true) ↔ (progress ≡ 100)
ready_iff_full st status progress e p =
    let (_, full) = progress_bounds st in
    let all = status_true_iff st in
    (λ h. p ∙ full.1 (all.0 (sym e ∙ h)), λ h. e ∙ all.1 (full.0 (sym p ∙ h)))

number_of : (s : Statistics) → get_overall_num_of_deployments s ≡ weight (λ _. 1) s
unfolding get_overall_num_of_deployments
number_of s =
    omega (arith, total-one s.failed_apps, total-one s.pending_apps, total-one s.successful_apps)

reachable-type :
    (json : Json) (now : Time) (items : List DeployItem) (bom : ClusterBom)
    (r : ClusterBomCondition)
    → compute_cluster_reachable_condition json now items bom ≡ some r
    → r.type ≡ "ClusterReachable"
unfolding compute_cluster_reachable_condition
reachable-type json now items bom r h =
    let (l, e, same) = >>=-eq-some (latest_reachability json items no_info) _ h in
    sym (ap (λ (c : ClusterBomCondition). c.type) (some_inj same))

-- What a computed status says: of its two conditions, the one of type Ready comes first, and has the
-- status True exactly when its progress is 100; and it counts the application configs and the deploy
-- items without one.
abbrev pub IsConsistent : List DeployItem → ClusterBom → ClusterBomStatus → Type 0
IsConsistent items bom s =
    (ready reachable : ClusterBomCondition) × (s.conditions ≡ ready ∷ reachable ∷ [])
    × (ready.type ≡ "Ready")
    × (reachable.type ≡ "ClusterReachable")
    × ((ready.status ≡ condition_true) ↔ (s.overall_progress ≡ 100))
    × (s.overall_num_of_deployments
        ≡ length (config_ids bom.spec.application_configs)
          + length (orphan_ids bom.spec.application_configs items))

module _ {W : Type 0} (c : StateClient W) (b : BlockObject) (av : Option NamespacedName)
    (json : Json) where
  -- In a status that is computed without an error, there are two conditions: the one of type Ready comes
  -- first and has the status True exactly when the progress is 100, the other is of type
  -- ClusterReachable; and the number of deployments is that of the application configs and of the deploy
  -- items without one.
  pub published_status_agrees :
      (items : List DeployItem) (bom : ClusterBom) (w : W) (s : ClusterBomStatus)
      → (compute_status c b av json items bom w).0 ≡ some s
      → IsConsistent items bom s
  unfolding compute_status compute_cluster_bom_conditions
  published_status_agrees items bom w s h =
      let ((conditions, stat), e, h1) =
        >>=-eq-some (compute_cluster_bom_conditions c b av json items bom w).0 _ h in
      let (states, e1, h2) =
        >>=-eq-some
          (compute_application_states json
            (c.now (compute_cluster_bom_conditions c b av json items bom w).1).0 items)
          _ h1 in
      let ((ready, counted_apps), e2, h3) =
        >>=-eq-some (compute_cluster_bom_ready_condition json (c.now w).0 items bom) _ e in
      let (reachable, e3, h4) =
        >>=-eq-some (compute_cluster_reachable_condition json (c.now (c.now w).1).0 items bom) _
          h3 in
      let (ready_type, ready_status, number) =
        weight-computed (λ _. 1) json (c.now w).0 items bom ready counted_apps e2 in
      let same = some_inj h2 in
      let pair = some_inj h4 in
      let counts : counted_apps ≡ stat =
        ap (λ (p : List ClusterBomCondition × Statistics). p.1) pair in
      (
        ready,
        reachable,
        sym (ap (λ (t : ClusterBomStatus). t.conditions) same)
            ∙ sym (ap (λ (p : List ClusterBomCondition × Statistics). p.0) pair),
        ready_type,
        reachable-type json (c.now (c.now w).1).0 items bom reachable e3,
        ready_iff_full counted_apps ready.status s.overall_progress ready_status (
            sym (ap (λ (t : ClusterBomStatus). t.overall_progress) same)
            ∙ ap get_overall_progress (sym counts)),
        omega (
          arith,
          ap (λ (t : ClusterBomStatus). t.overall_num_of_deployments) same,
          ap get_overall_num_of_deployments counts,
          number_of counted_apps,
          number,
          total-one (config_ids bom.spec.application_configs),
          total-one (orphan_ids bom.spec.application_configs items),
        ),
      )
