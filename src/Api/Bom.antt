-- ===== src/Api/Bom.antt =====
-- api/v1/clusterbom_types.go and the application configs of api/v1/types.go.
use potter_controller.Prelude.{Bool, List, Map, Option, String, [], none, some, ℕ}
use potter_controller.Api.Meta.{ObjectMeta, Raw, Time}
use potter_controller.Api.Status.{
  Condition, ConditionStatus, LastOperation, Reachability, Readiness, State,
}

-- A slice that the code compares with reflect.DeepEqual: nil is `none`, which differs from an empty one.
abbrev pub Slice : Type 0 → Type 0
Slice A = Option (List A)

abbrev pub elements : {A : Type 0} → Slice A → List A
elements none = []
elements (some xs) = xs

pub record Job : Type 0 where
  pub name : String
  pub namespace : String

pub record Resource : Type 0 where
  pub name : String
  pub namespace : String
  pub api_version : String
  pub resource : String
  pub field_path : String
  pub success_values : Slice Raw

pub record ReadyRequirements : Type 0 where
  pub jobs : Slice Job
  pub resources : Slice Resource

pub record SecretValues : Type 0 where
  pub internal_secret_name : String
  pub operation : String

pub record NamedSecretValues : Type 0 where
  pub internal_secret_name : String
  pub operation : String

pub record ImportParameter : Type 0 where
  pub name : String
  pub cluster_bom_name : String
  pub app_id : String
  pub export_param_name : String

pub record ApplicationConfig : Type 0 where
  pub id : String
  pub config_type : String
  pub type_specific_data : Raw
  pub values : Option Raw
  pub secret_values : Option SecretValues
  pub named_secret_values : Map NamedSecretValues
  pub no_reconcile : Bool
  pub ready_requirements : ReadyRequirements
  pub export_parameters : Map Raw
  pub import_parameters : List ImportParameter
  pub internal_import_parameters : Map Raw

pub record CurrentOperation : Type 0 where
  pub time : Time

pub record DetailedState : Type 0 where
  pub generation : ℕ
  pub observed_generation : ℕ
  pub phase : String
  pub deletion_timestamp : Option Time
  pub current_operation : CurrentOperation
  pub last_operation : LastOperation
  pub reachability : Option Reachability
  pub readiness : Option Readiness
  pub hdc_conditions : List Condition
  pub type_specific_status : Option Raw

pub record ApplicationState : Type 0 where
  pub id : String
  pub state : State
  pub detailed_state : DetailedState

pub record ClusterBomCondition : Type 0 where
  pub type : String
  pub status : ConditionStatus
  pub last_update_time : Time
  pub last_transition_time : Time
  pub reason : String
  pub message : String

abbrev pub cluster_bom_ready : String
cluster_bom_ready = "Ready"

abbrev pub cluster_reachable : String
cluster_reachable = "ClusterReachable"

pub record AutoDelete : Type 0 where
  pub cluster_bom_age : ℕ

pub record ClusterBomSpec : Type 0 where
  pub secret_ref : String
  pub application_configs : List ApplicationConfig
  pub auto_delete : Option AutoDelete

pub record ClusterBomStatus : Type 0 where
  pub application_states : List ApplicationState
  pub overall_state : State
  pub overall_time : Time
  pub description : String
  pub conditions : List ClusterBomCondition
  pub observed_generation : ℕ
  pub overall_num_of_deployments : ℕ
  pub overall_num_of_ready_deployments : ℕ
  pub overall_progress : ℕ

pub record ClusterBom : Type 0 where
  pub meta : ObjectMeta
  pub spec : ClusterBomSpec
  pub status : ClusterBomStatus
