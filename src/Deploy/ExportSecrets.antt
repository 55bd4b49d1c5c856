-- ===== src/Deploy/ExportSecrets.antt =====
-- `SecretHandler` of pkg/deployutil/secretHandler.go.
use potter_controller.Prelude.{
  Bool, List, Map, Option, String, [], false, if◌then◌else◌, none, some, ◌==◌, ◌∷◌,
}
use potter_controller.Api.{
  ApiError, DeployItem, NamespacedName, Raw, Result, err, label_application_config_id,
  label_cluster_bom_name, ok, other_error,
}
use potter_controller.Deploy.Client.{Client, Secret}
use potter_controller.Deploy.DeployData.{DeployData}
use potter_controller.StateController.States.{get_app_config_id_from_deploy_item}
use potter_controller.Util.Keys.{
  create_secret_name, get_cluster_bom_key_from_deploy_item,
  get_cluster_bom_key_from_deploy_item_key, get_key,
}

abbrev pub label_purpose : String
label_purpose = "hub.k8s.sap.com/purpose"

abbrev pub purpose_di_export_data : String
purpose_di_export_data = "di-export-data"

abbrev pub export_labels : String → String → Map String
export_labels bom app =
    (label_cluster_bom_name, bom)
    ∷ (label_application_config_id, app)
    ∷ (label_purpose, purpose_di_export_data)
    ∷ []

module _ {W : Type 0} (c : Client W) where
  -- `none` is the panic on a deploy item's name without a separator.
  unfoldable pub create_export_secret_for_di : DeployData → Raw → W → Option (Result String × W)
  unfolding get_cluster_bom_key_from_deploy_item_key create_secret_name
  create_export_secret_for_di d bytes w =
      elim (get_cluster_bom_key_from_deploy_item_key (get_key d.item.meta)) [
        | none ↦ none
        | some bom ↦
            let app = d.configuration.deployment_config.id in
            let (uuid, w1) = c.new_uuid w in
            let name = create_secret_name uuid bom.name app in
            let (e, w2) =
              c.create_secret
                (record {
                  key = record { namespace = d.item.meta.namespace; name = name };
                  labels = export_labels bom.name app;
                  content = (c.data_object_secret_data_key, bytes) ∷ [];
                })
                w1 in
            some
              (elim e [ none ↦ ok name | some _ ↦ err (other_error "Error creating secret") ], w2)
      ]

  -- The loop: it ends at the first error.
  unfoldable pub delete_unreferenced : Option NamespacedName → List Secret → W → Option ApiError × W
  delete_unreferenced referenced [] w = (none, w)
  delete_unreferenced referenced (s ∷ ss) w =
      let is_referenced : Bool = elim referenced [ none ↦ false | some k ↦ k.name == s.key.name ] in
      let skipped = delete_unreferenced referenced ss w in
      let (e, w1) = c.delete_secret s w in
      let deleted = delete_unreferenced referenced ss w1 in
      if is_referenced then skipped else elim e [ none ↦ deleted | some x ↦ (some x, w1) ]

  unfoldable pub remove_unreferenced_export_secrets :
      DeployItem → Option NamespacedName → W → Option ApiError × W
  unfolding delete_unreferenced get_cluster_bom_key_from_deploy_item
      get_app_config_id_from_deploy_item
  remove_unreferenced_export_secrets item referenced w =
      let bom = get_cluster_bom_key_from_deploy_item item in
      let (r, w1) =
        c.list_secrets item.meta.namespace
          (export_labels bom.name (get_app_config_id_from_deploy_item item)) w in
      elim r [ err e ↦ (some e, w1) | ok secrets ↦ delete_unreferenced referenced secrets w1 ]
