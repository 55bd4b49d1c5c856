-- ===== src/Examples/Boms.antt =====
-- The clusterbom controller on a small cluster.
use potter_controller.Prelude.{
  List, Map, Option, String, [], false, insert, lookup, none, refl, some, ◌*◌, ◌∷◌, ◌≡◌,
}
use potter_controller.Api.{ApiError, ApplicationConfig, DeployItem, ReadyRequirements, hour, ok}
use potter_controller.ClusterBomController.Calls.{BomControllerClient, SecretObject}
use potter_controller.ClusterBomController.CopyLaws.{normal_requirements}
use potter_controller.ClusterBomController.Items.{copied_meta, handle_app_configs}
use potter_controller.ClusterBomController.Settled.{Settled, Spec, spec_of}
use potter_controller.ControllerUtil.{same_ready_requirements}
use potter_controller.Examples.Data.{app, bom, json, meta}
use potter_controller.StateController.States.{get_app_config_id_from_deploy_item}

-- The deploy items of the clusterbom, the names of the secrets and the kinds of the calls so far.
pub record Cluster : Type 0 where
  pub specs : Map Spec
  pub removed_secrets : List String
  pub log : List String

abbrev pub empty_cluster : Cluster
empty_cluster = record { specs = []; removed_secrets = []; log = [] }

abbrev pub noted : String → Cluster → Cluster
noted what w = record w { log = what ∷ w.log }

abbrev put_spec : DeployItem → Cluster → Option ApiError × Cluster
put_spec x w =
    (none, record w { specs = insert (get_app_config_id_from_deploy_item x) (spec_of x) w.specs })

abbrev pub secret_named : String → SecretObject
secret_named name = record { meta = record meta { name = name }; content = [] }

abbrev pub cluster : BomControllerClient Cluster
cluster = record {
  calls = record {
    update_item = put_spec;
    delete_item = λ x w. (none, noted "delete-item" w);
    update_bom = λ b w. (none, noted "update-bom" w);
  };
  list_items = λ ns labels w. (ok [], w);
  list_secrets = λ ns labels w. (ok [], w);
  get_bom = λ key w. (ok bom, w);
  get_secret = λ key w. (ok (secret_named key.name), w);
  create_item = put_spec;
  update_bom_status = λ b w. (none, noted "update-status" w);
  update_secret = λ s w. (none, w);
  delete_secret = λ s w. (none, record w { removed_secrets = s.meta.name ∷ w.removed_secrets });
  get_uncached_secret = λ key w. (ok (secret_named key.name), w);
  pod_namespace = "garden";
  cached_deletion_key = λ w. some "key";
  cache_deletion_key = λ k w. w;
  sha256 = λ raw. raw;
  is_concurrent_modification = λ e. false;
  now = λ w. (10 * hour, w);
  sleep = λ d w. w;
}

abbrev pub copied : DeployItem → DeployItem
copied old = record old {
  meta = copied_meta app bom old.meta;
  type = "helm";
  configuration = "config";
}

abbrev spec_at : Cluster → String → Option Spec
spec_at w id = lookup id w.specs

abbrev pub one_app : List ApplicationConfig
one_app = app ∷ []

abbrev after_pass : Option ApiError × List DeployItem × Cluster
after_pass = handle_app_configs cluster json none bom one_app [] empty_cluster

-- An empty list of jobs is not in normal form: the stored item never equals the config.
abbrev empty_jobs : ReadyRequirements
empty_jobs = record { jobs = some []; resources = none }

empty_jobs_differ : same_ready_requirements empty_jobs (normal_requirements json empty_jobs) ≡ false
unfolding same_ready_requirements
empty_jobs_differ = refl
