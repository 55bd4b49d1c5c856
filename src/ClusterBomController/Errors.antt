-- ===== src/ClusterBomController/Errors.antt =====
-- How the clusterbom controller ends at an error of a call, and when it writes a status.
use potter_controller.Prelude.{List, Option, [], ap, arith, none, some, ◌++◌, ◌∙◌, ◌∷◌, ◌≡◌}
use potter_controller.Api.{
  ApiError, ApplicationConfig, ClusterBom, DeployItem, Json, NamespacedName, Time,
}
use potter_controller.ClusterBomController.BomStatus.{
  adjust_cluster_bom_status_for_not_existing_target_cluster, all_detail_states,
  has_cluster_bom_status_changed, is_equal_detail_states, not_existing_status,
  update_cluster_bom_status,
}
use potter_controller.ClusterBomController.Calls.{BomControllerClient}
use potter_controller.ClusterBomController.Handlers.{handle_existing_cluster}
use potter_controller.ClusterBomController.Items.{
  delete_orphaned_deploy_items, handle_app_config, handle_app_configs,
}
use potter_controller.DeploymentController.StatusUpdate.{requeue}
use potter_controller.Util.Condition.{
  all_cluster_bom_conditions, is_equal_cluster_bom_condition, is_equal_cluster_bom_condition_list,
  match_cluster_bom_condition,
}

module _ {W : Type 0} (c : BomControllerClient W) (av : Option NamespacedName) where
  -- The status for a target cluster that does not exist is written once: where it stands for the
  -- generation of the clusterbom, a later round reads the clock only.
  pub not_existing_status_is_stable :
      (bom : ClusterBom) (t : Time) (w : W)
      → bom.status ≡ not_existing_status bom t
      → adjust_cluster_bom_status_for_not_existing_target_cluster c av bom w ≡ (none, (c.now w).1)
  unfolding adjust_cluster_bom_status_for_not_existing_target_cluster update_cluster_bom_status
      not_existing_status has_cluster_bom_status_changed is_equal_detail_states all_detail_states
      is_equal_cluster_bom_condition_list all_cluster_bom_conditions match_cluster_bom_condition
      is_equal_cluster_bom_condition
  not_existing_status_is_stable bom t w h = rw h (ground arith)

module _ {W : Type 0} (c : BomControllerClient W) (json : Json) (av : Option NamespacedName) where
  abbrev stop_pass :
      Option ApiError × List DeployItem × W
      → Option ApiError × List DeployItem × W
      → Option ApiError × List DeployItem × W
  stop_pass r rest = elim r.0 [ some e ↦ (some e, r.1, r.2) | none ↦ rest ]

  stop_pass-rest :
      (r p q : Option ApiError × List DeployItem × W) {items : List DeployItem} {w : W}
      {t : Option ApiError × List DeployItem × W}
      → stop_pass r p ≡ (none, items, w)
      → (p ≡ (none, items, w) → q ≡ t)
      → stop_pass r q ≡ t
  stop_pass-rest (none, items1, w1) p q h k = k h
  stop_pass-rest (some e, items1, w1) p q h k = cc

  first_failed_config :
      (bom : ClusterBom) (xs ys : List ApplicationConfig) (app : ApplicationConfig)
      (items items1 items2 : List DeployItem) (w w1 w2 : W) (e : ApiError)
      → handle_app_configs c json av bom xs items w ≡ (none, items1, w1)
      → handle_app_config c json av bom app items1 w1 ≡ (some e, items2, w2)
      → handle_app_configs c json av bom (xs ++ app ∷ ys) items w ≡ (some e, items2, w2)
  unfolding handle_app_configs
  first_failed_config bom [] ys app items items1 items2 w w1 w2 e h f =
      let here : items ≡ items1 = cc in
      let now : w ≡ w1 = cc in
      let failed : handle_app_config c json av bom app items w ≡ (some e, items2, w2) =
        rw (here, now) f in
      ap
        (λ (r : Option ApiError × List DeployItem × W).
          stop_pass r (handle_app_configs c json av bom ys r.1 r.2))
        failed
  first_failed_config bom (x ∷ xs) ys app items items1 items2 w w1 w2 e h f =
      let r = handle_app_config c json av bom x items w in
      stop_pass-rest r (handle_app_configs c json av bom xs r.1 r.2)
        (handle_app_configs c json av bom (xs ++ app ∷ ys) r.1 r.2) h
        (λ h'. first_failed_config bom xs ys app r.1 items1 items2 r.2 w1 w2 e h' f)

  -- Where the deletion of the orphaned deploy items and the application configs before one succeed, and
  -- this one ends with an error, the clusterbom is requeued in the world after that error: the later
  -- configs and the reconcile annotation are not handled.
  pub failed_config_requeues :
      (bom : ClusterBom) (xs ys : List ApplicationConfig) (app : ApplicationConfig)
      (items items1 items2 : List DeployItem) (w w0 w1 w2 : W) (e : ApiError)
      → bom.spec.application_configs ≡ xs ++ app ∷ ys
      → delete_orphaned_deploy_items c bom.spec.application_configs items w ≡ (none, w0)
      → handle_app_configs c json av bom xs items w0 ≡ (none, items1, w1)
      → handle_app_config c json av bom app items1 w1 ≡ (some e, items2, w2)
      → handle_existing_cluster c json av bom items w ≡ (requeue, w2)
  unfolding handle_existing_cluster
  failed_config_requeues bom xs ys app items items1 items2 w w0 w1 w2 e split o b failed =
      let apps = bom.spec.application_configs in
      let pass : handle_app_configs c json av bom apps items
            (delete_orphaned_deploy_items c apps items w).1
          ≡ (some e, items2, w2) =
        ap (handle_app_configs c json av bom apps items) (ap (λ (r : Option ApiError × W). r.1) o)
        ∙ ap (λ xs'. handle_app_configs c json av bom xs' items w0) split
        ∙ first_failed_config bom xs ys app items items1 items2 w0 w1 w2 e b failed in
      rw (ap (λ (r : Option ApiError × W). r.0) o, handle_existing_cluster)
        (rw (ap (λ (r : Option ApiError × List DeployItem × W). r.0) pass)
          (ap (λ (r : Option ApiError × List DeployItem × W). (requeue, r.2)) pass))
