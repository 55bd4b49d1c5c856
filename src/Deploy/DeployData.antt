-- ===== src/Deploy/DeployData.antt =====
-- `DeployData` of pkg/deployutil/deploydata.go: a deploy item with its decoded configuration and status.
use potter_controller.Prelude.{
  Bool, Map, Option, String, [], eqb, false, if◌then◌else◌, none, not, some, true, ℕ, ◌&&◌, ◌==◌,
  ◌>>=◌, ◌||◌,
}
use potter_controller.Api.{
  DeployItem, DeployItemStatus, HubDeployItemConfiguration, HubDeployItemProviderStatus, Json,
  NamespacedName, Raw, State, Time, hub_deployment_ready, operation_install, operation_remove,
  state_text,
}
use potter_controller.Deploy.ErrorHistory.{compute_error_history}
use potter_controller.Deploy.WorseState.{is_failed, is_finally_failed, is_ok}
use potter_controller.StateController.States.{
  create_initial_last_operation, is_deleted, is_install, is_remove, read_provider_status,
}
use potter_controller.Util.Condition.{
  get_deploy_item_condition, get_deploy_item_condition_status, is_true,
}
use potter_controller.Util.Objects.{has_annotation}

-- The export values are an any-typed map, whose values are not looked at.
pub record DeployData : Type 0 where
  pub item : DeployItem
  pub configuration : HubDeployItemConfiguration
  pub provider_status : HubDeployItemProviderStatus
  pub export_values : Map Raw

unfoldable pub new_deploy_data : Json → DeployItem → Option DeployData
unfolding read_provider_status
new_deploy_data json item = do
  configuration ← json.unmarshal_configuration item.configuration
  provider_status ← read_provider_status json item
  some (record {
    item = item;
    configuration = configuration;
    provider_status = provider_status;
    export_values = [];
  })

unfoldable pub get_status : Json → DeployData → Option DeployItemStatus
get_status json d = do
  raw ← json.marshal_status d.provider_status
  some (record d.item.status { provider_status = some raw })

unfoldable pub is_delete_operation : DeployData → Bool
is_delete_operation d = is_deleted d.item.meta

unfoldable pub get_secret_key : DeployData → NamespacedName
get_secret_key d = record {
  namespace = d.item.meta.namespace;
  name = d.configuration.local_secret_ref;
}

unfoldable pub is_new_operation : DeployData → Bool
is_new_operation d =
    if is_deleted d.item.meta
    then not (is_remove d.provider_status.last_operation.operation)
    else not (eqb d.item.status.observed_generation d.item.meta.generation)

unfoldable pub is_finally_failed_data : DeployData → Bool
is_finally_failed_data d = elim d.provider_status.readiness [
  | none ↦ false
  | some r ↦ is_finally_failed r.state
]

unfoldable pub is_last_deploy_failed : DeployData → Bool
is_last_deploy_failed d = is_failed d.provider_status.last_operation.state

unfoldable pub is_install_but_not_ready : DeployData → Bool
unfolding get_deploy_item_condition get_deploy_item_condition_status
is_install_but_not_ready d =
    is_install d.provider_status.last_operation.operation
    && (elim d.provider_status.readiness [ none ↦ true | some r ↦ not (is_ok r.state) ]
        || not (
            is_true (
              get_deploy_item_condition_status
                (get_deploy_item_condition d.item hub_deployment_ready))))

abbrev pub annotation_key_reconcile : String
annotation_key_reconcile = "hub.k8s.sap.com/reconcile"

abbrev pub annotation_value_reconcile : String
annotation_value_reconcile = "reconcile"

unfoldable pub is_reconcile : DeployData → Bool
unfolding has_annotation
is_reconcile d =
    not d.configuration.deployment_config.no_reconcile
    && not (is_deleted d.item.meta)
    && has_annotation d.item.meta annotation_key_reconcile annotation_value_reconcile

-- A last operation that is set has a state that is not empty.
unfoldable pub init_last_operation : Time → DeployData → DeployData
unfolding create_initial_last_operation
init_last_operation now d =
    if state_text d.provider_status.last_operation.state == ""
    then record d {
      provider_status = record d.provider_status {
        last_operation = create_initial_last_operation now;
      };
    }
    else d

unfoldable pub set_reachability : Bool → Time → DeployData → DeployData
set_reachability reachable now d = record d {
  provider_status = record d.provider_status {
    reachability = some (record { reachable = reachable; time = now });
  };
}

unfoldable pub set_status_for_unreachable_cluster : Time → Time → DeployData → DeployData
unfolding init_last_operation set_reachability
set_status_for_unreachable_cluster now current d =
    set_reachability false current (init_last_operation now d)

unfoldable pub set_status_for_reachable_cluster : Time → Time → DeployData → DeployData
unfolding init_last_operation set_reachability
set_status_for_reachable_cluster now current d =
    set_reachability true current (init_last_operation now d)

-- `SetStatus`; the kind and version of the document are fixed texts.
unfoldable pub set_status : State → String → ℕ → Time → DeployData → DeployData
unfolding compute_error_history
set_status state description tries now d = record d {
  item = record d.item {
    status = record d.item.status { observed_generation = d.item.meta.generation };
  };
  provider_status = record {
    last_operation = record {
      operation = if is_deleted d.item.meta then operation_remove else operation_install;
      success_generation =
          if is_ok state
          then d.item.meta.generation
          else d.provider_status.last_operation.success_generation;
      state = state;
      number_of_tries = tries;
      time = now;
      description = description;
      error_history =
          compute_error_history d.provider_status.last_operation.error_history state description
            tries now;
    };
    reachability = some (record { reachable = true; time = now });
    readiness = none;
    type_specific_status = none;
  };
}
