-- ===== src/Kapp/Readiness.antt =====
-- `computeReadinessAndExport` of the kapp deployer: what the App says of an application, as the Ready
-- condition and the phase of its deploy item.
use Prim.Native.String.{◌++◌}
use potter_controller.Prelude.{
  Bool, Map, Option, String, eqb, false, if◌then◌else◌, none, not, some,
}
use potter_controller.Api.{
  ConditionStatus, Duration, Raw, Result, State, Time, condition_false, condition_true,
  condition_unknown, elements, err, hub_deployment_ready, ok, operation_install, operation_remove,
  state_failed, state_not_relevant, state_ok, state_pending, state_text, state_unknown,
}
use potter_controller.Deploy.DeployData.{DeployData, get_secret_key, is_delete_operation}
use potter_controller.Deploy.ItemCondition.{replace_deploy_item_condition}
use potter_controller.Deploy.Requirements.{JsonPath, compute_readiness_for_resources}
use potter_controller.Deploy.Target.{TargetSystem, new_dynamic_target_client, not_reached, reached}
use potter_controller.Deploy.WorseState.{is_finally_failed, is_ok}
use potter_controller.Kapp.App.{App, AppStatus, has_app_condition}
use potter_controller.Kapp.Pause.{KappClient}

-- What a call returns, or that it ends the process, by a nil pointer or an index out of range.
pub data Attempt (A : Type 0) : Type 0 where
  finished : A → Attempt A
  panicked : Attempt A

pub record InternalExportEntry : Type 0 where
  pub name : String
  pub namespace : String
  pub api_version : String
  pub resource : String
  pub field_path : String

-- `none` stands for a pointer that is nil.
pub record SecretReference : Type 0 where
  pub name : String
  pub key : String

pub record ClusterData : Type 0 where
  pub namespace : String
  pub kubeconfig_secret_ref : Option SecretReference

pub record AppSpecData : Type 0 where
  pub paused : Bool
  pub cluster : Option ClusterData
  pub sync_period : Option Duration
  pub rest : Raw

pub record KappSpecificData : Type 0 where
  pub app_spec : Option AppSpecData
  pub internal_export : Map InternalExportEntry

-- The phases are constants of the landscaper, `json` is encoding/json on the kapp data and the status of
-- an App, `export_text` the value as it is kept among the export values.
pub record KappSystem (W O V : Type 0) : Type 0 where
  pub client : KappClient W
  pub target : TargetSystem W O
  pub path : JsonPath O V
  pub phase_progressing : String
  pub phase_succeeded : String
  pub phase_failed : String
  pub phase_deleting : String
  pub unmarshal_data : Raw → Result KappSpecificData
  pub marshal_app_status : AppStatus → Option Raw
  pub export_text : V → Raw

unfoldable pub set_readiness : DeployData → State → Time → DeployData
set_readiness d s now = record d {
  provider_status = record d.provider_status {
    readiness = some (record { state = s; time = now });
  };
}

unfoldable pub replace_ready_condition :
    ConditionStatus → Time → String → String → DeployData → DeployData
unfolding replace_deploy_item_condition
replace_ready_condition status now reason message d = record d {
  item = record d.item {
    status = record d.item.status {
      conditions =
          replace_deploy_item_condition hub_deployment_ready status now reason message
            d.item.status.conditions;
    };
  };
}

unfoldable pub set_phase : String → DeployData → DeployData
set_phase phase d = record d {
  item = record d.item { status = record d.item.status { phase = phase } };
}

abbrev pub is_unreachable : DeployData → Bool
is_unreachable d = elim d.provider_status.reachability [ none ↦ false | some r ↦ not r.reachable ]

abbrev pub readiness_state : DeployData → State
readiness_state d = elim d.provider_status.readiness [ none ↦ state_unknown | some r ↦ r.state ]

module _ {W O V : Type 0} (k : KappSystem W O V) where
  unfoldable pub set_type_specific_status : Option App → DeployData → DeployData
  set_type_specific_status none d = record d {
    provider_status = record d.provider_status { type_specific_status = none };
  }
  set_type_specific_status (some app) d = elim (k.marshal_app_status app.status) [
    | none ↦ d
    | some raw ↦ record d {
      provider_status = record d.provider_status { type_specific_status = some raw };
    }
  ]

  -- The readiness that the conditions of an App stand for.
  unfoldable pub app_readiness : App → DeployData → W → State × W
  unfolding has_app_condition new_dynamic_target_client compute_readiness_for_resources
      get_secret_key
  app_readiness app d w =
      if has_app_condition app "ReconcileSucceeded"
      then (let (r, w1) = new_dynamic_target_client k.target (get_secret_key d) w in
          elim r [
            | not_reached e ↦ (state_unknown, w1)
            | reached config ↦
                compute_readiness_for_resources k.path k.target config
                  (elements d.configuration.deployment_config.ready_requirements.resources) state_ok
                  w1
          ])
      else if has_app_condition app "ReconcileFailed"
      then (state_failed, w)
      else if has_app_condition app "Reconciling"
      then (state_pending, w)
      else (state_unknown, w)

  -- The switch on the last operation: the App that was read, and the data with the readiness.
  unfoldable pub observe_app : DeployData → Time → W → (Option App × DeployData) × W
  unfolding set_readiness set_type_specific_status app_readiness
  observe_app d now w =
      let (r, w1) =
        k.client.get_app (record { namespace = d.item.meta.namespace; name = d.item.meta.name })
          w in
      let seen : Option App = elim r [ ok app ↦ some app | err _ ↦ none ] in
      elim d.provider_status.last_operation.operation [
        | operation_install ↦ elim r [
          | err _ ↦ ((none, set_type_specific_status none (set_readiness d state_unknown now)), w1)
          | ok app ↦
              let (s, w2) = app_readiness app d w1 in
              ((some app, set_type_specific_status (some app) (set_readiness d s now)), w2)
        ]
        | operation_remove ↦
            ((seen, set_type_specific_status seen (set_readiness d state_not_relevant now)), w1)
        | _ ↦ ((none, set_type_specific_status none (set_readiness d state_unknown now)), w)
      ]

  -- The Ready condition and the phase of an item that was installed in its current generation. Where the
  -- readiness is ok the App was read.
  unfoldable pub set_installed : Option App → State → Time → DeployData → Attempt DeployData
  unfolding replace_ready_condition set_phase
  set_installed app s now d =
      if is_ok s
      then elim app [
        | none ↦ panicked
        | some a ↦ finished (
            if eqb a.meta.generation a.status.observed_generation
            then set_phase k.phase_succeeded
                (replace_ready_condition condition_true now "Running" "Running" d)
            else set_phase k.phase_progressing (
                replace_ready_condition condition_unknown now "NotCurrentGeneration"
                  "Not latest version running" d))
      ]
      else if is_finally_failed s
      then finished (
          set_phase k.phase_failed
            (replace_ready_condition condition_false now "FinallyFailed" "Finally Failed" d))
      else finished (
          set_phase k.phase_progressing (
            replace_ready_condition condition_unknown now "NotRunning"
              ("Readiness is " ++ state_text s) d))

  unfoldable pub set_removed : Time → DeployData → DeployData
  unfolding replace_ready_condition set_phase
  set_removed now d = elim d.provider_status.last_operation.operation [
    | operation_install ↦
        set_phase k.phase_progressing
          (replace_ready_condition condition_unknown now "RemovePending" "Remove pending" d)
    | operation_remove ↦
        if is_ok d.provider_status.last_operation.state
        then set_phase k.phase_succeeded
            (replace_ready_condition condition_true now "Removed" "Removed" d)
        else set_phase k.phase_deleting (
            replace_ready_condition condition_unknown now "RemovePending"
              "Last try to remove is pending" d)
    | _ ↦ d
  ]

  -- The second part of `computeReadiness`, with the readiness state of the first one.
  unfoldable pub set_ready_condition : Option App → State → Time → DeployData → Attempt DeployData
  unfolding replace_ready_condition set_phase set_installed set_removed is_delete_operation
  set_ready_condition app s now d =
      if is_unreachable d
      then finished (
          replace_ready_condition condition_unknown now "ClusterUnreachable"
            "Cluster is unreachable" d)
      else if eqb d.item.status.observed_generation 0
      then finished (
          set_phase k.phase_progressing (
            replace_ready_condition condition_unknown now "InitialState"
              "No deployment executed until now" d))
      else if not (is_delete_operation d)
      then (if not (eqb d.item.meta.generation d.provider_status.last_operation.success_generation)
          then finished (
              set_phase k.phase_progressing (
                replace_ready_condition condition_unknown now "UpgradePending" "Upgrade pending" d))
          else set_installed app s now d)
      else finished (set_removed now d)

  unfoldable pub compute_readiness : DeployData → Time → W → Attempt DeployData × W
  unfolding observe_app set_ready_condition
  compute_readiness d now w =
      let ((app, d1), w1) = observe_app d now w in
      (set_ready_condition app (readiness_state d1) now d1, w1)
