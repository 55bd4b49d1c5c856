-- ===== src/StateController/States.antt =====
-- `computeState`, `computeApplicationStates` and `computeOverallState`.
use potter_controller.Prelude.{
  Bool, List, Option, String, [], eqb, false, if◌then◌else◌, lookup, none, not, some, true, ◌==◌,
  ◌>>=◌, ◌∷◌,
}
use potter_controller.Api.{
  ApplicationState, DeployItem, HubDeployItemProviderStatus, Json, LastOperation, ObjectMeta,
  Operation, State, Time, label_application_config_id, operation_install, operation_remove,
  state_failed, state_ok, state_pending, state_text, state_unknown,
}
use potter_controller.Deploy.WorseState.{is_finally_failed, is_ok, worse_state}
use potter_controller.Util.Condition.{map_to_hdc_condition}

-- LastOperation{}, the zero value
abbrev pub no_last_operation : LastOperation
no_last_operation = record {
  operation = Operation.other_operation "";
  success_generation = 0;
  state = State.other_state "";
  number_of_tries = 0;
  time = 0;
  description = "";
  error_history = none;
}

-- HubDeployItemProviderStatus{}, the zero value
abbrev pub no_provider_status : HubDeployItemProviderStatus
no_provider_status = record {
  last_operation = no_last_operation;
  reachability = none;
  readiness = none;
  type_specific_status = none;
}

-- CreateInitialLastOperation of pkg/util/util.go
unfoldable pub create_initial_last_operation : Time → LastOperation
create_initial_last_operation now = record {
  operation = operation_install;
  success_generation = 0;
  state = state_ok;
  number_of_tries = 0;
  time = now;
  description = "no last operation";
  error_history = none;
}

-- A nil or empty raw status leaves the zero value; else the result of json.Unmarshal.
unfoldable pub read_provider_status : Json → DeployItem → Option HubDeployItemProviderStatus
read_provider_status json item = elim item.status.provider_status [
  | none ↦ some no_provider_status
  | some raw ↦ if raw == "" then some no_provider_status else json.unmarshal_status raw
]

abbrev pub is_remove : Operation → Bool
is_remove operation_remove = true
is_remove _ = false

abbrev pub is_install : Operation → Bool
is_install operation_install = true
is_install _ = false

-- !DeletionTimestamp.IsZero(): the pointer is not nil, and the time is not the zero time.
abbrev pub is_deleted : ObjectMeta → Bool
is_deleted meta = elim meta.deletion_timestamp [ none ↦ false | some t ↦ not (eqb t 0) ]

-- The branches of `computeState` once the provider status is read.
unfoldable pub state_of : DeployItem → HubDeployItemProviderStatus → State
state_of item s =
    if is_deleted item.meta
    then (if not (is_remove s.last_operation.operation)
        then state_pending
        else if is_ok s.last_operation.state
        then state_ok
        else state_failed)
    else if not (eqb item.meta.generation item.status.observed_generation)
    then state_pending
    else if eqb item.meta.generation s.last_operation.success_generation
    then elim s.readiness [
      | none ↦ state_unknown
      | some r ↦ if is_finally_failed r.state then state_failed else r.state
    ]
    else state_failed

-- `none` is the error of json.Unmarshal.
unfoldable pub compute_state : Json → DeployItem → Option State
unfolding read_provider_status state_of
compute_state json item = do s ← read_provider_status json item; some (state_of item s)

-- GetAppConfigIDFromDeployItem of pkg/util/keys.go: a missing label reads as the empty text.
unfoldable pub get_app_config_id_from_deploy_item : DeployItem → String
get_app_config_id_from_deploy_item item =
    elim (lookup label_application_config_id item.meta.labels) [ none ↦ "" | some id ↦ id ]

abbrev or_initial : Time → HubDeployItemProviderStatus → HubDeployItemProviderStatus
or_initial now s =
    if state_text s.last_operation.state == ""
    then record s { last_operation = create_initial_last_operation now }
    else s

-- One round of the loop of `computeApplicationStates`.
unfoldable pub application_state : Json → Time → DeployItem → Option ApplicationState
unfolding create_initial_last_operation
application_state json now item = do
  read ← read_provider_status json item
  state ← compute_state json item
  let s = or_initial now read
  some (record {
    id = get_app_config_id_from_deploy_item item;
    state = state;
    detailed_state = record {
      current_operation = record { time = now };
      last_operation = s.last_operation;
      reachability = s.reachability;
      readiness = s.readiness;
      hdc_conditions = map_to_hdc_condition item.status.conditions;
      type_specific_status = s.type_specific_status;
      generation = item.meta.generation;
      observed_generation = item.status.observed_generation;
      phase = item.status.phase;
      deletion_timestamp = item.meta.deletion_timestamp;
    };
  })

-- An error of one item stops the loop and discards the states computed before.
unfoldable pub compute_application_states :
    Json → Time → List DeployItem → Option (List ApplicationState)
unfolding application_state
compute_application_states json now [] = some []
compute_application_states json now (item ∷ rest) = do
  s ← application_state json now item
  states ← compute_application_states json now rest
  some (s ∷ states)

-- The loop of `computeOverallState`.
unfoldable pub worsen : State → List ApplicationState → State
worsen overall [] = overall
worsen overall (s ∷ rest) = worsen (worse_state overall s.state) rest

unfoldable pub compute_overall_state : List ApplicationState → State
unfolding worsen
compute_overall_state states = worsen state_ok states
