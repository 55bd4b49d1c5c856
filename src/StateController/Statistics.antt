-- ===== src/StateController/Statistics.antt =====
-- pkg/controllersdi/statistics.go
use Prim.Native.String.{◌++◌ as text_append}
use potter_controller.Prelude.{
  List, String, [], eqb, if◌then◌else◌, is_empty, length, not, ℕ, ◌&&◌, ◌*◌, ◌++◌, ◌+◌, ◌/◌, ◌∷◌,
}
use potter_controller.Api.{ConditionStatus, condition_false, condition_true, condition_unknown}

pub record Statistics : Type 0 where
  pub successful_apps : List String
  pub pending_apps : List String
  pub failed_apps : List String

abbrev pub no_apps : Statistics
no_apps = record { successful_apps = []; pending_apps = []; failed_apps = [] }

unfoldable pub add_successful_app : String → Statistics → Statistics
add_successful_app id s = record s { successful_apps = s.successful_apps ++ id ∷ [] }

unfoldable pub add_pending_app : String → Statistics → Statistics
add_pending_app id s = record s { pending_apps = s.pending_apps ++ id ∷ [] }

unfoldable pub add_failed_app : String → Statistics → Statistics
add_failed_app id s = record s { failed_apps = s.failed_apps ++ id ∷ [] }

unfoldable pub get_overall_num_of_deployments : Statistics → ℕ
get_overall_num_of_deployments s =
    length s.failed_apps + length s.pending_apps + length s.successful_apps

unfoldable pub get_overall_num_of_ready_deployments : Statistics → ℕ
get_overall_num_of_ready_deployments s = length s.successful_apps

unfoldable pub get_overall_progress : Statistics → ℕ
unfolding get_overall_num_of_deployments get_overall_num_of_ready_deployments
get_overall_progress s =
    let all = get_overall_num_of_deployments s in
    if eqb all 0 then 100 else get_overall_num_of_ready_deployments s * 100 / all

-- strings.Join(ids, ", ")
pub join : List String → String
join [] = ""
join (s ∷ []) = s
join (s ∷ t ∷ rest) = text_append s (text_append ", " (join (t ∷ rest)))

unfoldable pub get_pending_message : Statistics → String
unfolding join
get_pending_message s = text_append "Pending applications: " (join s.pending_apps)

unfoldable pub get_failed_message : Statistics → String
unfolding join
get_failed_message s = text_append "Failed applications: " (join s.failed_apps)

abbrev pub reason_failed_and_pending_apps : String
reason_failed_and_pending_apps = "FailedAndPendingApps"

abbrev pub reason_failed_apps : String
reason_failed_apps = "FailedApps"

abbrev pub reason_pending_apps : String
reason_pending_apps = "PendingApps"

abbrev pub reason_all_apps_ready : String
reason_all_apps_ready = "AllAppsReady"

unfoldable pub get_reason_and_message_for_ready_condition : Statistics → String × String
unfolding get_pending_message get_failed_message
get_reason_and_message_for_ready_condition s =
    if not (is_empty s.failed_apps) && not (is_empty s.pending_apps)
    then (
      reason_failed_and_pending_apps,
      text_append (get_failed_message s) (text_append " " (get_pending_message s)),
    )
    else if not (is_empty s.failed_apps)
    then (reason_failed_apps, get_failed_message s)
    else if not (is_empty s.pending_apps)
    then (reason_pending_apps, get_pending_message s)
    else (reason_all_apps_ready, "All applications are ready. ")

-- The ready status that the three lists call for.
abbrev pub status_of : Statistics → ConditionStatus
status_of s =
    if not (is_empty s.failed_apps)
    then condition_false
    else if not (is_empty s.pending_apps)
    then condition_unknown
    else condition_true
