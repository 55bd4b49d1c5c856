-- ===== src/Examples/Apps.antt =====
-- A kapp App with a problem, its pause, deletion and readiness, and a tree with a secret name.
use potter_controller.Prelude.{
  List, Map, String, [], any, arith, eq_iff, false, if◌then◌else◌, lookup, ltb, map, none, not,
  refl, some, suc, true, ℕ, ◌*◌, ◌==◌, ◌∷◌, ◌≡◌,
}
use potter_controller.Api.{NamespacedName, Raw, Result, condition_true, err, minute, not_found, ok}
use potter_controller.Deploy.DeployData.{DeployData}
use potter_controller.Deploy.Target.{TargetSystem}
use potter_controller.Examples.Data.{meta}
use potter_controller.Examples.Items.{deploy_data}
use potter_controller.Kapp.App.{App, PauseStatus}
use potter_controller.Kapp.Cleanup.{cleanup_app}
use potter_controller.Kapp.CleanupLaws.{cleanup_means_gone}
use potter_controller.Kapp.ClusterLaws.{TargetsSecret, install_keeps_clusters}
use potter_controller.Kapp.Operations.{install_item}
use potter_controller.Kapp.Pause.{KappClient, next_pause_status}
use potter_controller.Kapp.PauseLaws.{Justified, next_pause_status-Justified}
use potter_controller.Kapp.Readiness.{Attempt, KappSystem, compute_readiness, finished, panicked}
use potter_controller.Kapp.ReadinessLaws.{compute_readiness_finishes}
use potter_controller.Kapp.Replacer.{
  Tree, json_map, json_string, mapped, no_fields, replace_tree, tree_field,
}
use potter_controller.Kapp.ReplacerLaws.{referenced_names, replaces_secret_names, without_names}

abbrev failing : App
failing = record {
  meta = meta;
  spec = record {
    paused = false;
    cluster = record {
      namespace = "default";
      kubeconfig_name = "target";
      kubeconfig_key = "kubeconfig";
    };
    sync_period = none;
    rest = "{}";
  };
  status = record {
    observed_generation = 1;
    conditions = record { type = "ReconcileSucceeded"; status = condition_true } ∷ [];
    deploy_exit_code = some 1;
    fetch_exit_code = none;
    inspect_exit_code = none;
    template_exit_code = none;
  };
}

-- The world counts the calls; the app is gone after three of them.
abbrev kapp_client : KappClient ℕ
kapp_client = record {
  get_app = λ key w. (if ltb w 4 then ok failing else err not_found, suc w);
  create_app = λ a w. (none, suc w);
  update_app = λ a w. (none, suc w);
  delete_app = λ a w. (none, suc w);
  now = λ w. (20 * minute, w);
  sleep = λ d w. w;
  text = record {
    parse_time = λ s. none;
    format_time = λ t. "";
    parse_bool = λ s. if s == "true" then some true else some false;
  };
}

abbrev known_problem : PauseStatus
known_problem = record { paused = false; paused_since = 0; problem = true; problem_since = minute }

abbrev paused_now : PauseStatus
paused_now = record {
  paused = true;
  paused_since = 20 * minute;
  problem = true;
  problem_since = minute;
}

is_paused : (next_pause_status kapp_client failing known_problem 0).0 ≡ some paused_now
unfolding next_pause_status
is_paused = refl

next_pause_status-Justified_example :
    Justified failing known_problem
      (20 * minute)
      (next_pause_status kapp_client failing known_problem 0).0
next_pause_status-Justified_example =
    next_pause_status-Justified kapp_client failing known_problem 0

abbrev app_key : NamespacedName
app_key = record { namespace = "garden"; name = "bom-app" }

is_cleaned_up : (cleanup_app kapp_client app_key true 0).0 ≡ none
unfolding cleanup_app
is_cleaned_up = refl

cleanup_means_gone_example :
    (v : ℕ) × (kapp_client.get_app app_key v
      ≡ (err not_found, (cleanup_app kapp_client app_key true 0).1))
cleanup_means_gone_example = cleanup_means_gone kapp_client app_key true 0 is_cleaned_up

abbrev target_of : (W : Type 0) → TargetSystem W String
target_of W = record {
  get_secret =
      λ key w. (ok (record { key = key; labels = []; content = ("kubeconfig", "config") ∷ [] }), w);
  rest_config = λ config. none;
  new_client = λ config w. (none, w);
  new_dynamic_client = λ config. none;
  get_namespace = λ config name w. (none, w);
  create_namespace = λ config name w. (none, w);
  get_object = λ config gvr namespace name w. (ok name, w);
}

abbrev system_of : {W : Type 0} → KappClient W → KappSystem W String String
system_of {W} c = record {
  client = c;
  target = target_of W;
  path = record {
    parse_object = λ raw. some (("value", raw) ∷ []);
    find_results = λ o path. some ((o ∷ []) ∷ []);
    deep_equal = λ v u. v == u;
  };
  phase_progressing = "Progressing";
  phase_succeeded = "Succeeded";
  phase_failed = "Failed";
  phase_deleting = "Deleting";
  unmarshal_data = λ raw. ok (record {
    app_spec = some (record { paused = false; cluster = none; sync_period = none; rest = raw });
    internal_export = [];
  });
  marshal_app_status = λ s. some "{}";
  export_text = λ v. v;
}

abbrev kapp_system : KappSystem ℕ String String
kapp_system = system_of kapp_client

compute_readiness_finishes_example :
    (d : DeployData) × ((compute_readiness kapp_system deploy_data 9 0).0 ≡ finished d)
compute_readiness_finishes_example = compute_readiness_finishes kapp_system deploy_data 9 0

-- The app is running in its current generation.
abbrev running_phase : Attempt DeployData → String
running_phase panicked = ""
running_phase (finished d) = d.item.status.phase

is_running : running_phase (compute_readiness kapp_system deploy_data 9 0).0 ≡ "Succeeded"
unfolding compute_readiness
is_running = refl

abbrev with_reference : Tree
with_reference = json_map (
    tree_field "secretRef" (json_map (tree_field "name" (json_string "logical") no_fields))
      (tree_field "name" (json_string "logical") no_fields))

abbrev names : Map String
names = ("logical", "internal") ∷ []

is_replaced :
    replace_tree names with_reference ""
    ≡ json_map (
        tree_field "secretRef"
          (json_map (tree_field "name" (json_string "internal") no_fields))
          (tree_field "name" (json_string "logical") no_fields))
unfolding replace_tree lookup
is_replaced = refl

replaces_secret_names_example :
    (referenced_names (replace_tree names with_reference "") ""
      ≡ map (mapped names) (referenced_names with_reference ""))
    × (without_names (replace_tree names with_reference "") "" ≡ without_names with_reference "")
replaces_secret_names_example = replaces_secret_names names with_reference

-- The world is the list of the clusters of the Apps that were written.
abbrev recorder : KappClient (List String)
recorder = record {
  get_app = λ key w. (err not_found, w);
  create_app = λ a w. (none, a.spec.cluster.kubeconfig_name ∷ w);
  update_app = λ a w. (none, a.spec.cluster.kubeconfig_name ∷ w);
  delete_app = λ a w. (none, w);
  now = λ w. (20 * minute, w);
  sleep = λ d w. w;
  text = kapp_client.text;
}

abbrev same_data : Map String → Raw → Result Raw
same_data mapping raw = ok raw

abbrev OnlyTarget : List String → Type 0
OnlyTarget w = any (λ name. not (name == "target")) w ≡ false

is_created : (install_item (system_of recorder) 10 same_data deploy_data []).1 ≡ "target" ∷ []
unfolding install_item
is_created = refl

write_keeps :
    (a : App) (w : List String)
    → TargetsSecret "target" a.spec
    → OnlyTarget w
    → OnlyTarget (a.spec.cluster.kubeconfig_name ∷ w)
write_keeps a w (name, key) h =
    ground (arith, h, name, eq_iff a.spec.cluster.kubeconfig_name "target")

install_keeps_clusters_example :
    OnlyTarget (install_item (system_of recorder) 10 same_data deploy_data ("target" ∷ [])).1
install_keeps_clusters_example =
    install_keeps_clusters (system_of recorder) 10 same_data deploy_data OnlyTarget (λ key w h. h)
      (λ key w h. h) (λ c w h. h) (λ c n w h. h) (λ c n w h. h) write_keeps write_keeps
      ("target" ∷ []) refl
