-- ===== src/StateController/Reachable.antt =====
-- `computeClusterReachableCondition`.
pub mod Reports
use potter_controller.Prelude.{
  Bool, List, Option, String, [], false, if◌then◌else◌, ltb, none, not, some, true, ◌>>=◌, ◌∷◌,
}
use potter_controller.Api.{
  ClusterBom, ClusterBomCondition, ConditionStatus, DeployItem, Json, Reachability, Time,
  cluster_reachable, condition_false, condition_true, condition_unknown,
}
use potter_controller.StateController.States.{read_provider_status}
use potter_controller.Util.Condition.{get_cluster_bom_condition, transition_time}

-- `latestDate`, `isReachable` and `someInfoFound`.
pub record Latest : Type 0 where
  pub date : Time
  pub reachable : Bool
  pub found : Bool

abbrev pub no_info : Latest
no_info = record { date = 0; reachable = true; found = false }

unfoldable pub see_reachability : Option Reachability → Latest → Latest
see_reachability none l = l
see_reachability (some r) l =
    if ltb l.date r.time then record { date = r.time; reachable = r.reachable; found = true } else l

-- The loop over the deploy items; `none` is the error of json.Unmarshal.
unfoldable pub latest_reachability : Json → List DeployItem → Latest → Option Latest
unfolding see_reachability
latest_reachability json [] l = some l
latest_reachability json (item ∷ rest) l = do
  s ← read_provider_status json item
  latest_reachability json rest (see_reachability s.reachability l)

abbrev pub reason_cluster_reachability_unknown : String
reason_cluster_reachability_unknown = "ReasonClusterReachabilityUnknown"

abbrev pub reason_cluster_reachable : String
reason_cluster_reachable = "ReasonClusterReachable"

abbrev pub reason_cluster_not_reachable : String
reason_cluster_not_reachable = "ReasonClusterNotReachable"

-- Status, reason and message.
unfoldable pub reachable_verdict : Latest → ConditionStatus × String × String
reachable_verdict l =
    if not l.found
    then (
      condition_unknown, reason_cluster_reachability_unknown, "No info about cluster reachability",
    )
    else if l.reachable
    then (condition_true, reason_cluster_reachable, "Cluster reachable")
    else (condition_false, reason_cluster_not_reachable, "Cluster not reachable")

unfoldable pub reachable_condition : Time → ClusterBom → Latest → ClusterBomCondition
unfolding reachable_verdict transition_time
reachable_condition now bom l =
    let (status, reason, message) = reachable_verdict l in
    record {
      type = cluster_reachable;
      status = status;
      reason = reason;
      message = message;
      last_update_time = now;
      last_transition_time =
          transition_time now (get_cluster_bom_condition bom cluster_reachable) status;
    }

unfoldable pub compute_cluster_reachable_condition :
    Json → Time → List DeployItem → ClusterBom → Option ClusterBomCondition
unfolding latest_reachability reachable_condition
compute_cluster_reachable_condition json now items bom = do
  l ← latest_reachability json items no_info
  some (reachable_condition now bom l)
