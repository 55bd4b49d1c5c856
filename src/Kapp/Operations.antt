-- ===== src/Kapp/Operations.antt =====
-- `processItem` of the kapp deployer, with the exports and the operations on a deploy item.
use potter_controller.Prelude.{
  Map, Option, String, if◌then◌else◌, none, not, some, true, ℕ, ◌%◌, ◌*◌, ◌==◌, ◌||◌,
}
use potter_controller.Api.{
  ApiError, NamespacedName, Raw, Result, err, minute, not_found, ok, other_error,
}
use potter_controller.Deploy.DeployData.{DeployData, get_secret_key, is_delete_operation}
use potter_controller.Deploy.Target.{
  DeployError, Kubeconfig, get_target_client, not_reached, plain_error, reached,
}
use potter_controller.Kapp.App.{AppSpec}
use potter_controller.Kapp.Cleanup.{cleanup_app, install_or_update}
use potter_controller.Kapp.Readiness.{AppSpecData, Attempt, KappSystem, finished, panicked}

abbrev pub kubeconfig_secret_key : String
kubeconfig_secret_key = "kubeconfig"

abbrev pub or_default : String → String → String
or_default default text = if text == "" then default else text

-- A cluster or a reference that is missing is filled in.
unfoldable pub complete_spec : String → ℕ → AppSpecData → AppSpec
complete_spec local_secret_ref interval s = record {
  paused = s.paused;
  cluster = record {
    namespace = or_default "default" (elim s.cluster [ none ↦ "" | some c ↦ c.namespace ]);
    kubeconfig_name = or_default local_secret_ref (elim s.cluster [
      | none ↦ ""
      | some c ↦ elim c.kubeconfig_secret_ref [ none ↦ "" | some r ↦ r.name ]
    ]);
    kubeconfig_key = or_default kubeconfig_secret_key (elim s.cluster [
      | none ↦ ""
      | some c ↦ elim c.kubeconfig_secret_ref [ none ↦ "" | some r ↦ r.key ]
    ]);
  };
  sync_period = elim s.sync_period [
    | none ↦ some ((interval * minute) % 18446744073709551616)
    | some p ↦ some p
  ];
  rest = s.rest;
}

unfoldable pub check_spec : String → AppSpec → Option ApiError
check_spec local_secret_ref s =
    if not (s.cluster.kubeconfig_name == local_secret_ref)
    then some (other_error "target cluster of kapp app differs from localSecretRef")
    else if not (s.cluster.kubeconfig_key == kubeconfig_secret_key)
    then some (other_error "the value of field cluster.kubeconfigSecretRef.key must be kubeconfig")
    else none

unfoldable pub get_deploy_item_key : DeployData → NamespacedName
get_deploy_item_key d = record { namespace = d.item.meta.namespace; name = d.item.meta.name }

abbrev pub as_plain : Option ApiError → Option DeployError
as_plain none = none
as_plain (some e) = some (plain_error e)

-- `replace_secret_names` is that method with the mapping of secret names, `none` for an error.
module _ {W O V : Type 0} (k : KappSystem W O V) (interval : ℕ)
    (replace_secret_names : Map String → Raw → Result Raw) where
  -- Once the client of the target cluster is there.
  unfoldable pub ensure_namespace : Kubeconfig → String → W → Option DeployError × W
  ensure_namespace config namespace w =
      let (r, w1) = k.target.get_namespace config namespace w in
      let (made, w2) = k.target.create_namespace config namespace w1 in
      if namespace == "" || (namespace == "default") then (none, w) else elim r [
        | none ↦ (none, w1)
        | some not_found ↦ (as_plain made, w2)
        | some e ↦ (some (plain_error e), w1)
      ]

  unfoldable pub create_state_namespace : DeployData → AppSpec → W → Option DeployError × W
  unfolding get_target_client get_secret_key ensure_namespace
  create_state_namespace d s w =
      let (r, w1) = get_target_client k.target (get_secret_key d) w in
      elim r [
        | not_reached e ↦ (some e, w1)
        | reached config ↦ ensure_namespace config s.cluster.namespace w1
      ]

  -- From the completed spec on.
  unfoldable pub deploy_spec : DeployData → AppSpec → W → Option DeployError × W
  unfolding check_spec create_state_namespace install_or_update get_deploy_item_key
  deploy_spec d s w = elim (check_spec d.configuration.local_secret_ref s) [
    | some e ↦ (some (plain_error e), w)
    | none ↦
        let (e, w1) = create_state_namespace d s w in
        elim e [
          | some x ↦ (some x, w1)
          | none ↦
              let (result, w2) = install_or_update k.client (get_deploy_item_key d) s w1 in
              (as_plain result, w2)
        ]
  ]

  unfoldable pub install_item : DeployData → W → Attempt (Option DeployError) × W
  unfolding complete_spec deploy_spec
  install_item d w =
      let config = d.configuration.deployment_config in
      elim (replace_secret_names config.named_internal_secret_names config.type_specific_data) [
        | err e ↦ (finished (some (plain_error e)), w)
        | ok raw ↦ elim (k.unmarshal_data raw) [
          | err e ↦ (finished (some (plain_error e)), w)
          | ok data_read ↦ elim data_read.app_spec [
            | none ↦ (panicked, w)
            | some s ↦
                let (e, w1) =
                  deploy_spec d (complete_spec d.configuration.local_secret_ref interval s) w in
                (finished e, w1)
          ]
        ]
      ]

  unfoldable pub process_kapp_item : DeployData → W → Attempt (Option DeployError) × W
  unfolding cleanup_app install_item get_deploy_item_key is_delete_operation
  process_kapp_item d w =
      let (e, w1) = cleanup_app k.client (get_deploy_item_key d) true w in
      if is_delete_operation d then (finished (as_plain e), w1) else install_item d w
