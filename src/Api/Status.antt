-- ===== src/Api/Status.antt =====
-- The states and conditions of api/v1/types.go, api/v1/hubdeploymentconditions.go and
-- pkg/util/const.go. A Go string with named values is a data type: its values, and any other text.
use potter_controller.Prelude.{Bool, List, Option, String, ℕ}
use potter_controller.Api.Meta.{Raw, Time}

-- StateOk, StatePending, ... of pkg/util/const.go
pub data State : Type 0 where
  state_ok state_pending state_failed state_unknown state_not_relevant state_finally_failed : State
  other_state : String → State

abbrev pub state_text : State → String
state_text state_ok = "ok"
state_text state_pending = "pending"
state_text state_failed = "failed"
state_text state_unknown = "unknown"
state_text state_not_relevant = "notRelevant"
state_text state_finally_failed = "finallyFailed"
state_text (other_state s) = s

-- corev1.ConditionStatus, and the landscaper's type of the same texts
pub data ConditionStatus : Type 0 where
  condition_true condition_false condition_unknown : ConditionStatus
  other_status : String → ConditionStatus

abbrev pub status_text : ConditionStatus → String
status_text condition_true = "True"
status_text condition_false = "False"
status_text condition_unknown = "Unknown"
status_text (other_status s) = s

-- OperationInstall, OperationRemove of pkg/util/const.go
pub data Operation : Type 0 where
  operation_install operation_remove : Operation
  other_operation : String → Operation

pub record ErrorEntry : Type 0 where
  pub description : String
  pub time : Time

-- The error history is a pointer in Go; its entries are the list, nil is `none`.
pub record LastOperation : Type 0 where
  pub operation : Operation
  pub success_generation : ℕ
  pub state : State
  pub number_of_tries : ℕ  -- an int32 by its bit pattern
  pub time : Time
  pub description : String
  pub error_history : Option (List ErrorEntry)

pub record Reachability : Type 0 where
  pub reachable : Bool
  pub time : Time

pub record Readiness : Type 0 where
  pub state : State
  pub time : Time

-- The landscaper's Condition and hubv1.HubDeploymentCondition have the same fields.
pub record Condition : Type 0 where
  pub type : String
  pub status : ConditionStatus
  pub last_update_time : Time
  pub last_transition_time : Time
  pub reason : String
  pub message : String

abbrev pub hub_deployment_ready : String
hub_deployment_ready = "Ready"

pub record HubDeployItemProviderStatus : Type 0 where
  pub last_operation : LastOperation
  pub reachability : Option Reachability
  pub readiness : Option Readiness
  pub type_specific_status : Option Raw
