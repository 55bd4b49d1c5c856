-- ===== src/Kapp/ClusterLaws.antt =====
-- `processItem` writes Apps for the target cluster of the deploy item only.
use potter_controller.Prelude.{
  Map, Option, String, arith, eq_iff, if_lem, lookup, none, refl, some, ℕ, ◌==◌, ◌||◌, ◌≡◌,
}
use potter_controller.Api.{
  ApiError, NamespacedName, Raw, Result, conflict, err, not_found, ok, other_error,
}
use potter_controller.Deploy.Client.{Secret}
use potter_controller.Deploy.DeployData.{DeployData, get_secret_key}
use potter_controller.Deploy.Target.{
  DeployError, Kubeconfig, TargetResult, cluster_unreachable, get_target_client, get_target_config,
  not_reached, plain_error, reached,
}
use potter_controller.Kapp.App.{App, AppSpec}
use potter_controller.Kapp.Cleanup.{install_or_update, new_app}
use potter_controller.Kapp.Operations.{
  as_plain, check_spec, complete_spec, create_state_namespace, deploy_spec, ensure_namespace,
  get_deploy_item_key, install_item, kubeconfig_secret_key,
}
use potter_controller.Kapp.Readiness.{
  AppSpecData, Attempt, KappSpecificData, KappSystem, finished, panicked,
}

-- The cluster of an App is the one of the secret, and its key is that of a kubeconfig.
abbrev pub TargetsSecret : String → AppSpec → Type 0
TargetsSecret secret s =
    (s.cluster.kubeconfig_name ≡ secret) × (s.cluster.kubeconfig_key ≡ kubeconfig_secret_key)

check_spec_lem :
    (secret : String) (s : AppSpec) → check_spec secret s ≡ none → TargetsSecret secret s
unfolding check_spec
check_spec_lem secret s h = ground (
  arith,
  h,
  eq_iff s.cluster.kubeconfig_name secret,
  eq_iff s.cluster.kubeconfig_key kubeconfig_secret_key,
)

module _ {W O V : Type 0} (k : KappSystem W O V) (interval : ℕ)
    (replace_secret_names : Map String → Raw → Result Raw) (d : DeployData) (P : W → Type 0)
    (get_app_keeps : (key : NamespacedName) (w : W) → P w → P (k.client.get_app key w).1)
    (get_secret_keeps : (key : NamespacedName) (w : W) → P w → P (k.target.get_secret key w).1)
    (new_client_keeps : (c : Kubeconfig) (w : W) → P w → P (k.target.new_client c w).1)
    (get_namespace_keeps : (c : Kubeconfig) (n : String) (w : W)
      → P w
      → P (k.target.get_namespace c n w).1)
    (create_namespace_keeps : (c : Kubeconfig) (n : String) (w : W)
      → P w
      → P (k.target.create_namespace c n w).1)
    (create_app_keeps : (a : App) (w : W)
      → TargetsSecret d.configuration.local_secret_ref a.spec
      → P w
      → P (k.client.create_app a w).1)
    (update_app_keeps : (a : App) (w : W)
      → TargetsSecret d.configuration.local_secret_ref a.spec
      → P w
      → P (k.client.update_app a w).1) where
  get_target_client_lem :
      (key : NamespacedName) (w : W) → P w → P (get_target_client k.target key w).1
  unfolding get_target_client get_target_config
  get_target_client_lem key w h =
      secret_step (k.target.get_secret key w).0 (k.target.get_secret key w).1
        (get_secret_keeps key w h)
    where
      made_step :
          (c : Kubeconfig) (o : Option ApiError) (w2 : W)
          → P w2
          → let r : TargetResult Kubeconfig × W = elim o [
            | some e ↦ (not_reached (cluster_unreachable e), w2)
            | none ↦ (reached c, w2)
          ] in
            P r.1
      made_step c (some e) w2 h2 = h2
      made_step c none w2 h2 = h2

      config_step :
          (c : Kubeconfig) (o : Option ApiError) (w1 : W)
          → P w1
          → let r : TargetResult Kubeconfig × W = elim o [
            | some e ↦ (not_reached (plain_error e), w1)
            | none ↦ elim (k.target.new_client c w1).0 [
              | some e ↦ (not_reached (cluster_unreachable e), (k.target.new_client c w1).1)
              | none ↦ (reached c, (k.target.new_client c w1).1)
            ]
          ] in
            P r.1
      config_step c (some e) w1 h1 = h1
      config_step c none w1 h1 =
          made_step c (k.target.new_client c w1).0 (k.target.new_client c w1).1
            (new_client_keeps c w1 h1)

      secret_step :
          (r : Result Secret) (w1 : W)
          → P w1
          → let read : TargetResult Kubeconfig × W = elim r [
            | err e ↦ (not_reached (plain_error e), w1)
            | ok secret ↦ (reached (lookup "kubeconfig" secret.content), w1)
          ] in
            let x : TargetResult Kubeconfig × W = elim read.0 [
              | not_reached e ↦ (not_reached e, read.1)
              | reached c ↦ elim (k.target.rest_config c) [
                | some e ↦ (not_reached (plain_error e), read.1)
                | none ↦ elim (k.target.new_client c read.1).0 [
                  | some e ↦ (not_reached (cluster_unreachable e), (k.target.new_client c read.1).1)
                  | none ↦ (reached c, (k.target.new_client c read.1).1)
                ]
              ]
            ] in
            P x.1
      secret_step (err e) w1 h1 = h1
      secret_step (ok secret) w1 h1 =
          config_step (lookup "kubeconfig" secret.content)
            (k.target.rest_config (lookup "kubeconfig" secret.content)) w1 h1

  ensure_namespace_lem :
      (c : Kubeconfig) (n : String) (w : W)
      → P w
      → P (ensure_namespace k interval replace_secret_names c n w).1
  unfolding ensure_namespace
  ensure_namespace_lem c n w h =
      if_lem (λ (r : Option DeployError × W). P r.1) (n == "" || (n == "default")) (λ _. h)
        (λ _.
          go (k.target.get_namespace c n w).0 (k.target.get_namespace c n w).1
            (get_namespace_keeps c n w h))
    where
      go :
          (r : Option ApiError) (w1 : W)
          → P w1
          → let made : Option ApiError × W = k.target.create_namespace c n w1 in
            let x : Option DeployError × W = elim r [
              | none ↦ (none, w1)
              | some not_found ↦ (as_plain made.0, made.1)
              | some e ↦ (some (plain_error e), w1)
            ] in
            P x.1
      go none w1 h1 = h1
      go (some not_found) w1 h1 = create_namespace_keeps c n w1 h1
      go (some conflict) w1 h1 = h1
      go (some (other_error s)) w1 h1 = h1

  install_or_update_lem :
      (key : NamespacedName) (s : AppSpec) (w : W)
      → TargetsSecret d.configuration.local_secret_ref s
      → P w
      → P (install_or_update k.client key s w).1
  unfolding install_or_update
  install_or_update_lem key s w t h =
      go (k.client.get_app key w).0 (k.client.get_app key w).1 (get_app_keeps key w h)
    where
      go :
          (r : Result App) (w1 : W)
          → P w1
          → let x : Option ApiError × W = elim r [
            | ok app ↦ k.client.update_app (record app { spec = s }) w1
            | err not_found ↦ k.client.create_app (new_app k.client key s) w1
            | err e ↦ (some e, w1)
          ] in
            P x.1
      go (ok app) w1 h1 = update_app_keeps (record app { spec = s }) w1 t h1
      go (err not_found) w1 h1 = create_app_keeps (new_app k.client key s) w1 t h1
      go (err conflict) w1 h1 = h1
      go (err (other_error m)) w1 h1 = h1

  create_state_namespace_lem :
      (s : AppSpec) (w : W)
      → P w
      → P (create_state_namespace k interval replace_secret_names d s w).1
  unfolding create_state_namespace
  create_state_namespace_lem s w h =
      go (get_target_client k.target (get_secret_key d) w).0
        (get_target_client k.target (get_secret_key d) w).1
        (get_target_client_lem (get_secret_key d) w h)
    where
      go :
          (r : TargetResult Kubeconfig) (w1 : W)
          → P w1
          → let x : Option DeployError × W = elim r [
            | not_reached e ↦ (some e, w1)
            | reached c ↦ ensure_namespace k interval replace_secret_names c s.cluster.namespace w1
          ] in
            P x.1
      go (not_reached e) w1 h1 = h1
      go (reached c) w1 h1 = ensure_namespace_lem c s.cluster.namespace w1 h1

  deploy_spec_lem :
      (s : AppSpec) (w : W) → P w → P (deploy_spec k interval replace_secret_names d s w).1
  unfolding deploy_spec
  deploy_spec_lem s w h = checked (check_spec d.configuration.local_secret_ref s) refl
    where
      made : Option DeployError × W
      made = create_state_namespace k interval replace_secret_names d s w

      there :
          (o : Option DeployError) (w1 : W)
          → TargetsSecret d.configuration.local_secret_ref s
          → P w1
          → let r : Option ApiError × W = install_or_update k.client (get_deploy_item_key d) s w1 in
            let x : Option DeployError × W = elim o [
              | some e ↦ (some e, w1)
              | none ↦ (as_plain r.0, r.1)
            ] in
            P x.1
      there (some e) w1 t h1 = h1
      there none w1 t h1 = install_or_update_lem (get_deploy_item_key d) s w1 t h1

      checked :
          (o : Option ApiError)
          → check_spec d.configuration.local_secret_ref s ≡ o
          → let r : Option ApiError × W =
              install_or_update k.client (get_deploy_item_key d) s made.1 in
            let x : Option DeployError × W = elim o [
              | some e ↦ (some (plain_error e), w)
              | none ↦ elim made.0 [ some e ↦ (some e, made.1) | none ↦ (as_plain r.0, r.1) ]
            ] in
            P x.1
      checked (some e) eq = h
      checked none eq =
          there made.0 made.1 (check_spec_lem d.configuration.local_secret_ref s eq)
            (create_state_namespace_lem s w h)

  -- Whatever holds in the world, and is kept by reading, by the creation of a namespace in the target
  -- cluster, and by writing an App whose cluster is the one of the item's own secret, holds after the
  -- installation of a deploy item: no other App is written, whatever cluster the data names.
  pub install_keeps_clusters :
      (w : W) → P w → P (install_item k interval replace_secret_names d w).1
  unfolding install_item
  install_keeps_clusters w h = with_data (
      replace_secret_names d.configuration.deployment_config.named_internal_secret_names
        d.configuration.deployment_config.type_specific_data)
    where
      completed : AppSpecData → AppSpec
      completed = complete_spec d.configuration.local_secret_ref interval

      with_spec :
          (o : Option AppSpecData)
          → let x : Attempt (Option DeployError) × W = elim o [
            | none ↦ (panicked, w)
            | some s ↦ (
              finished (deploy_spec k interval replace_secret_names d (completed s) w).0,
              (deploy_spec k interval replace_secret_names d (completed s) w).1,
            )
          ] in
            P x.1
      with_spec none = h
      with_spec (some s) = deploy_spec_lem (completed s) w h

      with_decoded :
          (r : Result KappSpecificData)
          → let x : Attempt (Option DeployError) × W = elim r [
            | err e ↦ (finished (some (plain_error e)), w)
            | ok data_read ↦ elim data_read.app_spec [
              | none ↦ (panicked, w)
              | some s ↦ (
                finished (deploy_spec k interval replace_secret_names d (completed s) w).0,
                (deploy_spec k interval replace_secret_names d (completed s) w).1,
              )
            ]
          ] in
            P x.1
      with_decoded (err e) = h
      with_decoded (ok data_read) = with_spec data_read.app_spec

      with_data :
          (r : Result Raw)
          → let x : Attempt (Option DeployError) × W = elim r [
            | err e ↦ (finished (some (plain_error e)), w)
            | ok raw ↦ elim (k.unmarshal_data raw) [
              | err e ↦ (finished (some (plain_error e)), w)
              | ok data_read ↦ elim data_read.app_spec [
                | none ↦ (panicked, w)
                | some s ↦ (
                  finished (deploy_spec k interval replace_secret_names d (completed s) w).0,
                  (deploy_spec k interval replace_secret_names d (completed s) w).1,
                )
              ]
            ]
          ] in
            P x.1
      with_data (err e) = h
      with_data (ok raw) = with_decoded (k.unmarshal_data raw)
