-- ===== src/Api/Item.antt =====
-- api/v1/hubdeployitemconfiguration.go, and what the code uses of the landscaper's DeployItem.
use potter_controller.Prelude.{Bool, List, Map, Option, String, ℕ}
use potter_controller.Api.Bom.{ReadyRequirements}
use potter_controller.Api.Meta.{NamespacedName, ObjectMeta, Raw}
use potter_controller.Api.Status.{Condition, HubDeployItemProviderStatus}

-- api/v1/const.go
abbrev pub label_cluster_bom_name : String
label_cluster_bom_name = "hub.kubernetes.sap.com/bom-name"

abbrev pub label_application_config_id : String
label_application_config_id = "hub.kubernetes.sap.com/application-config-id"

abbrev pub label_config_type : String
label_config_type = "hub.kubernetes.sap.com/configType"

pub record DeploymentConfig : Type 0 where
  pub id : String
  pub type_specific_data : Raw
  pub values : Option Raw
  pub internal_secret_name : String
  pub named_internal_secret_names : Map String
  pub no_reconcile : Bool
  pub ready_requirements : ReadyRequirements

pub record HubDeployItemConfiguration : Type 0 where
  pub local_secret_ref : String
  pub deployment_config : DeploymentConfig

pub record DeployItemStatus : Type 0 where
  pub phase : String
  pub observed_generation : ℕ
  pub conditions : List Condition
  pub provider_status : Option Raw
  pub export_reference : Option NamespacedName

pub record DeployItem : Type 0 where
  pub meta : ObjectMeta
  pub type : String
  pub configuration : Raw
  pub status : DeployItemStatus

-- encoding/json on the documents that a deploy item carries; `none` is an error.
pub record Json : Type 0 where
  pub unmarshal_status : Raw → Option HubDeployItemProviderStatus
  pub unmarshal_configuration : Raw → Option HubDeployItemConfiguration
  pub marshal_status : HubDeployItemProviderStatus → Option Raw
  pub marshal_configuration : HubDeployItemConfiguration → Option Raw
  -- the bytes of json.Marshal after json.Unmarshal into an interface{}, errors ignored
  pub canonical : Raw → Raw
