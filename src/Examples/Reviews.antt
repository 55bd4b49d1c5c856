-- ===== src/Examples/Reviews.antt =====
-- The admission of a clusterbom and of a secret.
use potter_controller.Prelude.{
  All, [], delete, false, insert, lookup, none, refl, some, true, ◌==◌, ◌∷◌, ◌≡◌,
}
use potter_controller.Admission.Calls.{ReviewClient, ReviewConfig}
use potter_controller.Admission.Checks.{
  check_application_config, check_application_config_ids, check_application_configs,
  check_cluster_bom, check_config_type, check_conflict_with_existing_deploy_item, check_each_config,
  check_ids, check_landscaper_managed, check_name, check_resource_ready_requirements,
  check_secret_ref, check_type_specific_data, old_appl_configs,
}
use potter_controller.Admission.Laws.{admitted_ids_distinct, marked_secret_may_be_deleted}
use potter_controller.Admission.Secrets.{review_delete}
use potter_controller.Admission.Verdict.{decoded, undecoded}
use potter_controller.Api.{ApplicationConfig, ClusterBom, ok}
use potter_controller.ClusterBomController.Calls.{
  SecretObject, compute_secret_deletion_token, get_secret_deletion_key, with_deletion_token,
}
use potter_controller.ClusterBomController.Settled.{DistinctIds}
use potter_controller.Examples.Boms.{Cluster, cluster, empty_cluster, secret_named}
use potter_controller.Examples.Data.{app, bom}
use potter_controller.Util.Objects.{get_annotation, has_annotation}

abbrev reviewed_bom : ClusterBom
reviewed_bom = record bom {
  spec = record bom.spec {
    application_configs =
        record app { config_type = "raw" } ∷ record app { id = "app2"; config_type = "raw" } ∷ [];
  };
}

abbrev marked : SecretObject
marked = record (secret_named "s") { content = ("deletionToken", "keys") ∷ [] }

abbrev review_client : ReviewClient Cluster
review_client = record {
  bom_client = cluster;
  list_uncached = λ ns labels w. (ok [], w);
  error_text = λ e. "";
  unmarshal_bom = λ raw. decoded reviewed_bom;
  unmarshal_secret = λ raw. decoded marked;
  unmarshal_helm = λ raw. undecoded "";
  unmarshal_kapp = λ raw. decoded none;
  matches = λ pattern s. true;
  parse_json_path = λ s. none;
  itoa = λ n. "";
  unmarshal_success_value = λ raw. decoded true;
}

abbrev review_config : ReviewConfig
review_config = record { config_types = "raw" ∷ []; landscaper_enabled = false }

accepted : (check_cluster_bom review_client review_config none reviewed_bom empty_cluster).0 ≡ none
unfolding check_cluster_bom check_name check_secret_ref check_landscaper_managed has_annotation
    get_annotation check_application_configs check_application_config_ids check_ids
    check_each_config check_application_config check_config_type check_type_specific_data
    check_conflict_with_existing_deploy_item check_resource_ready_requirements old_appl_configs
    lookup
accepted = refl

admitted_ids_distinct_example :
    DistinctIds reviewed_bom.spec.application_configs
    × All (λ (a : ApplicationConfig). (a.id == "") ≡ false) reviewed_bom.spec.application_configs
admitted_ids_distinct_example =
    admitted_ids_distinct review_client review_config none reviewed_bom empty_cluster accepted

key_read : get_secret_deletion_key cluster true empty_cluster ≡ (ok (some "key"), empty_cluster)
unfolding get_secret_deletion_key
key_read = refl

token_written :
    with_deletion_token cluster (secret_named "s") true empty_cluster ≡ (ok marked, empty_cluster)
unfolding with_deletion_token get_secret_deletion_key compute_secret_deletion_token insert delete
token_written = refl

marked_secret_may_be_deleted_example : (review_delete review_client "raw" empty_cluster).0 ≡ none
marked_secret_may_be_deleted_example =
    marked_secret_may_be_deleted review_client (secret_named "s") marked "raw" (some "key") true
      empty_cluster empty_cluster empty_cluster empty_cluster key_read token_written refl key_read
