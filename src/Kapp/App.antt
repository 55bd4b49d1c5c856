-- ===== src/Kapp/App.antt =====
-- The kapp App, with the fields that the code reads, its conditions (pkg/util/condition.go), and the status
-- of its pause (pkg/kapp/pause_status.go).
use potter_controller.Prelude.{
  Bool, List, Option, String, any, eqb, false, find_first, if◌then◌else◌, none, not, some, ℕ, ◌&&◌,
  ◌==◌, ◌>>=◌, ◌||◌,
}
use potter_controller.Api.{
  ConditionStatus, Duration, ObjectMeta, Raw, Time, condition_false, condition_true,
  condition_unknown,
}
use potter_controller.ControllerUtil.{same_bool}
use potter_controller.Util.Condition.{is_false}
use potter_controller.Util.Objects.{add_annotation, get_annotation}

pub record AppCondition : Type 0 where
  pub type : String
  pub status : ConditionStatus

-- An exit code is an int, by its bit pattern; `none` where the step has no status.
pub record AppStatus : Type 0 where
  pub observed_generation : ℕ
  pub conditions : List AppCondition
  pub deploy_exit_code : Option ℕ
  pub fetch_exit_code : Option ℕ
  pub inspect_exit_code : Option ℕ
  pub template_exit_code : Option ℕ

pub record AppCluster : Type 0 where
  pub namespace : String
  pub kubeconfig_name : String
  pub kubeconfig_key : String

-- `rest` stands for the parts of the spec that are only copied.
pub record AppSpec : Type 0 where
  pub paused : Bool
  pub cluster : AppCluster
  pub sync_period : Option Duration
  pub rest : Raw

pub record App : Type 0 where
  pub meta : ObjectMeta
  pub spec : AppSpec
  pub status : AppStatus

unfoldable pub get_app_condition : App → String → Option AppCondition
get_app_condition app type = find_first (λ c. c.type == type) app.status.conditions

unfoldable pub get_app_condition_status : App → String → ConditionStatus
unfolding get_app_condition
get_app_condition_status app type = elim (get_app_condition app type) [
  | none ↦ condition_unknown
  | some c ↦ elim c.status [
    | condition_true ↦ condition_true
    | condition_false ↦ condition_false
    | _ ↦ condition_unknown
  ]
]

abbrev pub has_failed : Option ℕ → Bool
has_failed none = false
has_failed (some code) = not (eqb code 0)

unfoldable pub has_problem : App → Bool
unfolding get_app_condition_status
has_problem app =
    has_failed app.status.deploy_exit_code
    || has_failed app.status.fetch_exit_code
    || has_failed app.status.inspect_exit_code
    || has_failed app.status.template_exit_code
    || is_false (get_app_condition_status app "DeleteFailed")
    || is_false (get_app_condition_status app "ReconcileFailed")

unfoldable pub has_app_condition : App → String → Bool
has_app_condition app type = any (λ (c : AppCondition). c.type == type) app.status.conditions

pub record PauseStatus : Type 0 where
  pub paused : Bool
  pub paused_since : Time
  pub problem : Bool
  pub problem_since : Time

abbrev pub no_pause : PauseStatus
no_pause = record { paused = false; paused_since = 0; problem = false; problem_since = 0 }

-- time.Parse and time.Format with RFC 3339, and strconv.ParseBool
pub record PauseText : Type 0 where
  pub parse_time : String → Option Time
  pub format_time : Time → String
  pub parse_bool : String → Option Bool

abbrev pub paused_since_key : String
paused_since_key = "potter.gardener.cloud/kapp-paused-since"

abbrev pub problem_key : String
problem_key = "potter.gardener.cloud/kapp-problem"

abbrev pub problem_since_key : String
problem_since_key = "potter.gardener.cloud/kapp-problem-since"

-- A value that is missing is the initial one.
abbrev pub read_value {ℓ} : {A : Type ℓ} → (String → Option A) → A → Option String → Option A
read_value parse initial none = some initial
read_value parse initial (some text) = parse text

unfoldable pub get_old_or_initial_pause_status : PauseText → App → Option PauseStatus
unfolding get_annotation
get_old_or_initial_pause_status text app = do
  since ← read_value text.parse_time 0 (get_annotation app.meta paused_since_key)
  problem ← read_value text.parse_bool false (get_annotation app.meta problem_key)
  problem_since ← read_value text.parse_time 0 (get_annotation app.meta problem_since_key)
  some (record {
    paused = app.spec.paused;
    paused_since = since;
    problem = problem;
    problem_since = problem_since;
  })

unfoldable pub set_pause_status : PauseText → App → PauseStatus → App
unfolding add_annotation
set_pause_status text app s = record app {
  spec = record app.spec { paused = s.paused };
  meta =
      add_annotation
        (add_annotation (add_annotation app.meta paused_since_key (text.format_time s.paused_since))
          problem_key (if s.problem then "true" else "false"))
        problem_since_key (text.format_time s.problem_since);
}

abbrev pub same_pause : PauseStatus → PauseStatus → Bool
same_pause a b =
    same_bool a.paused b.paused
    && eqb a.paused_since b.paused_since
    && same_bool a.problem b.problem
    && eqb a.problem_since b.problem_since
