-- ===== src/Examples/Data.antt =====
-- A clusterbom with one application, its deploy item, and the documents that the item carries.
use potter_controller.Prelude.{Map, String, [], false, if◌then◌else◌, none, some, true, ◌==◌, ◌∷◌}
use potter_controller.Api.{
  ApplicationConfig, ClusterBom, Condition, DeployItem, DeploymentConfig,
  HubDeployItemConfiguration, HubDeployItemProviderStatus, Json, LastOperation, ObjectMeta,
  ReadyRequirements, condition_true, label_application_config_id, operation_install, state_ok,
}

abbrev pub app_labels : Map String
app_labels = (label_application_config_id, "app") ∷ []

abbrev pub meta : ObjectMeta
meta = record {
  name = "bom-app";
  namespace = "garden";
  generation = 1;
  creation_timestamp = 1;
  deletion_timestamp = none;
  labels = app_labels;
  annotations = [];
  finalizers = "other" ∷ [];
}

abbrev pub no_requirements : ReadyRequirements
no_requirements = record { jobs = none; resources = none }

abbrev pub deployment_config : DeploymentConfig
deployment_config = record {
  id = "app";
  type_specific_data = "{}";
  values = none;
  internal_secret_name = "";
  named_internal_secret_names = [];
  no_reconcile = false;
  ready_requirements = no_requirements;
}

abbrev pub config : HubDeployItemConfiguration
config = record { local_secret_ref = "target"; deployment_config = deployment_config }

abbrev pub app : ApplicationConfig
app = record {
  id = "app";
  config_type = "helm";
  type_specific_data = "{}";
  values = none;
  secret_values = none;
  named_secret_values = [];
  no_reconcile = false;
  ready_requirements = no_requirements;
  export_parameters = [];
  import_parameters = [];
  internal_import_parameters = [];
}

abbrev pub installed : LastOperation
installed = record {
  operation = operation_install;
  success_generation = 1;
  state = state_ok;
  number_of_tries = 0;
  time = 5;
  description = "installed";
  error_history = none;
}

abbrev pub provider_status : HubDeployItemProviderStatus
provider_status = record {
  last_operation = installed;
  reachability = some (record { reachable = true; time = 7 });
  readiness = some (record { state = state_ok; time = 7 });
  type_specific_status = none;
}

abbrev pub json : Json
json = record {
  unmarshal_status = λ raw. if raw == "ok" then some provider_status else none;
  unmarshal_configuration = λ raw. some config;
  marshal_status = λ s. some "ok";
  marshal_configuration = λ c. some "config";
  canonical = λ raw. raw;
}

abbrev pub ready : Condition
ready = record {
  type = "Ready";
  status = condition_true;
  last_update_time = 7;
  last_transition_time = 7;
  reason = "";
  message = "";
}

abbrev pub item : DeployItem
item = record {
  meta = meta;
  type = "helm";
  configuration = "config";
  status = record {
    phase = "";
    observed_generation = 1;
    conditions = ready ∷ [];
    provider_status = some "ok";
    export_reference = none;
  };
}

abbrev pub bom : ClusterBom
bom = record {
  meta = meta;
  spec = record { secret_ref = "target"; application_configs = app ∷ []; auto_delete = none };
  status = record {
    application_states = [];
    overall_state = state_ok;
    overall_time = 0;
    description = "";
    conditions = [];
    observed_generation = 1;
    overall_num_of_deployments = 1;
    overall_num_of_ready_deployments = 1;
    overall_progress = 100;
  };
}
