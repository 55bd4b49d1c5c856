-- ===== src/Deploy/Readiness.antt =====
-- Readiness of the workloads in a target cluster: `isResourceReady`, `readFromTargetCluster` and the
-- loops over objects and jobs of `ComputeReadiness`, in pkg/deployutil.
use potter_controller.Prelude.{
  Bool, List, Option, String, [], eqb, false, if◌then◌else◌, none, not, some, ℕ, ◌&&◌, ◌==◌, ◌||◌,
  ◌∷◌,
}
use potter_controller.Api.{
  ConditionStatus, Job, NamespacedName, Result, State, err, ok, other_error, state_finally_failed,
  state_ok, state_pending, state_unknown,
}
use potter_controller.Deploy.WorseState.{worse_state}
use potter_controller.Util.Condition.{is_true}

pub record BasicKubernetesObject : Type 0 where
  pub api_version : String
  pub kind : String
  pub key : NamespacedName

pub record JobCondition : Type 0 where
  pub type : String
  pub status : ConditionStatus

-- The workloads of all API versions, with the fields that are compared. Numbers are int32 and int64 by
-- their bit patterns.
pub data Workload : Type 0 where
  daemon_set : (number_ready current_number_scheduled : ℕ) → Workload
  deployment :
      (generation observed_generation : ℕ) (spec_replicas : Option ℕ)
      (updated_replicas replicas available_replicas : ℕ)
      → Workload
  stateful_set : (ready_replicas replicas : ℕ) → Workload
  job : List JobCondition → Workload

unfoldable pub compare_numbers : ℕ → ℕ → Bool
compare_numbers a b = not (eqb a 0) && eqb a b

unfoldable pub check_if_up_to_date : ℕ → ℕ → Option ℕ → ℕ → ℕ → ℕ → Bool
check_if_up_to_date generation observed spec updated_replicas replicas available =
    let wanted : ℕ = elim spec [ none ↦ 1 | some n ↦ n ] in
    eqb generation observed
    && eqb wanted updated_replicas
    && eqb wanted replicas
    && eqb wanted available

unfoldable pub is_resource_ready : Workload → Bool
unfolding compare_numbers check_if_up_to_date
is_resource_ready (daemon_set a b) = compare_numbers a b
is_resource_ready (deployment g o s u r a) = check_if_up_to_date g o s u r a
is_resource_ready (stateful_set a b) = compare_numbers a b
is_resource_ready (job cs) = false

-- The kinds and API versions that are read at all.
unfoldable pub is_known : BasicKubernetesObject → Bool
is_known o =
    if o.kind == "DaemonSet"
    then o.api_version == "apps/v1"
      || (o.api_version == "extensions/v1beta1")
      || (o.api_version == "apps/v1beta2")
    else if o.kind == "Deployment"
    then o.api_version == "apps/v1"
      || (o.api_version == "apps/v1beta1")
      || (o.api_version == "apps/v1beta2")
      || (o.api_version == "extensions/v1beta1")
    else if o.kind == "StatefulSet"
    then o.api_version == "apps/v1beta1"
      || (o.api_version == "apps/v1beta2")
      || (o.api_version == "apps/v1")
    else o.kind == "Job" && (o.api_version == "batch/v1")

-- The state of a job by its first condition that is decisive.
unfoldable pub job_state : List JobCondition → State
job_state [] = state_pending
job_state (c ∷ cs) =
    if c.type == "Complete" && is_true c.status
    then state_ok
    else if c.type == "Failed" && is_true c.status
    then state_finally_failed
    else job_state cs

-- An object without a namespace is looked up in the given one.
unfoldable pub in_namespace : String → BasicKubernetesObject → BasicKubernetesObject
in_namespace namespace o =
    if o.key.namespace == "" then record o { key = record o.key { namespace = namespace } } else o

unfoldable pub adapt_object : Result Workload → State → State
unfolding worse_state is_resource_ready
adapt_object (err e) s = worse_state s state_unknown
adapt_object (ok x) s = if is_resource_ready x then s else worse_state s state_pending

unfoldable pub adapt_job : Result Workload → State → State
unfolding worse_state job_state
adapt_job (ok (job cs)) s = worse_state s (job_state cs)
adapt_job _ s = worse_state s state_unknown

-- `get` is the client of the target cluster.
module _ {W : Type 0} (get : BasicKubernetesObject → W → Result Workload × W) where
  unfoldable pub read_from_target_cluster : BasicKubernetesObject → W → Result Workload × W
  unfolding is_known
  read_from_target_cluster o w =
      let r = get o w in if is_known o then r else (err (other_error "unknown kind or version"), w)

  unfoldable pub object_readiness : String → State → List BasicKubernetesObject → W → State × W
  unfolding read_from_target_cluster in_namespace adapt_object
  object_readiness namespace s [] w = (s, w)
  object_readiness namespace s (o ∷ os) w =
      let (r, w1) = read_from_target_cluster (in_namespace namespace o) w in
      object_readiness namespace (adapt_object r s) os w1

  unfoldable pub job_readiness : State → List Job → W → State × W
  unfolding read_from_target_cluster adapt_job
  job_readiness s [] w = (s, w)
  job_readiness s (j ∷ js) w =
      let (r, w1) =
        read_from_target_cluster
          (record {
            api_version = "batch/v1";
            kind = "Job";
            key = record { namespace = j.namespace; name = j.name };
          })
          w in
      job_readiness (adapt_job r s) js w1
