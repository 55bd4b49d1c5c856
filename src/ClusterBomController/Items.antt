-- ===== src/ClusterBomController/Items.antt =====
-- The deploy items of a clusterbom: how they are made from its application configs, created, updated
-- and deleted (clusterbom_controller.go and controller_util.go).
use potter_controller.Prelude.{
  Bool, List, Map, Option, String, [], false, if◌then◌else◌, insert, none, some, true, ◌&&◌, ◌==◌,
  ◌>>=◌, ◌∷◌,
}
use potter_controller.Api.{
  ApiError, ApplicationConfig, ClusterBom, DeployItem, HubDeployItemConfiguration, Json,
  NamedSecretValues, NamespacedName, ObjectMeta, label_application_config_id,
  label_cluster_bom_name, label_config_type, other_error,
}
use potter_controller.ClusterBomController.Calls.{BomControllerClient}
use potter_controller.ControllerUtil.{
  find_app_deployment_config_in_list, find_deploy_item_in_list, is_equal_config,
}
use potter_controller.StateController.States.{get_app_config_id_from_deploy_item, is_deleted}
use potter_controller.Util.Keys.{create_deploy_item_name}

-- The loop over `appconfig.NamedSecretValues`.
unfoldable pub secret_names : Map NamedSecretValues → Map String
unfolding insert
secret_names [] = []
secret_names ((k, v) ∷ rest) = insert k v.internal_secret_name (secret_names rest)

unfoldable pub configuration_of : ApplicationConfig → ClusterBom → HubDeployItemConfiguration
unfolding secret_names
configuration_of app bom = record {
  local_secret_ref = bom.spec.secret_ref;
  deployment_config = record {
    id = app.id;
    type_specific_data = app.type_specific_data;
    values = app.values;
    internal_secret_name = elim app.secret_values [ none ↦ "" | some v ↦ v.internal_secret_name ];
    named_internal_secret_names = secret_names app.named_secret_values;
    no_reconcile = app.no_reconcile;
    ready_requirements = app.ready_requirements;
  };
}

abbrev pub copied_meta : ApplicationConfig → ClusterBom → ObjectMeta → ObjectMeta
copied_meta app bom meta = record meta {
  name = create_deploy_item_name bom.meta.name app.id;
  namespace = bom.meta.namespace;
  labels =
      (label_config_type, app.config_type)
      ∷ (label_application_config_id, app.id)
      ∷ (label_cluster_bom_name, bom.meta.name)
      ∷ [];
}

-- `none` is the error of json.Marshal.
unfoldable pub copy_app_config_to_deploy_item :
    Json → ApplicationConfig → DeployItem → ClusterBom → Option DeployItem
unfolding create_deploy_item_name configuration_of
copy_app_config_to_deploy_item json app item bom = do
  raw ← json.marshal_configuration (configuration_of app bom)
  some (record item {
    meta = copied_meta app bom item.meta;
    type = app.config_type;
    configuration = raw;
  })

-- `&landscaper.DeployItem{}`
abbrev pub empty_item : DeployItem
empty_item = record {
  meta = record {
    name = "";
    namespace = "";
    generation = 0;
    creation_timestamp = 0;
    deletion_timestamp = none;
    labels = [];
    annotations = [];
    finalizers = [];
  };
  type = "";
  configuration = "";
  status = record {
    phase = "";
    observed_generation = 0;
    conditions = [];
    provider_status = none;
    export_reference = none;
  };
}

-- A write through the pointer that `findDeployItemInList` returned.
unfoldable pub write_item : List DeployItem → String → DeployItem → List DeployItem
unfolding get_app_config_id_from_deploy_item
write_item [] id new = []
write_item (item ∷ rest) id new =
    let others = write_item rest id new in
    if id == get_app_config_id_from_deploy_item item then new ∷ rest else item ∷ others

-- `AVCheckConfig`, which may be nil, names the clusterbom of the availability check.
unfoldable pub is_av_check_bom : Option NamespacedName → ClusterBom → Bool
is_av_check_bom none bom = false
is_av_check_bom (some key) bom = bom.meta.name == key.name && (bom.meta.namespace == key.namespace)

module _ {W : Type 0} (c : BomControllerClient W) where
  unfoldable pub delete_deploy_item : DeployItem → W → Option ApiError × W
  delete_deploy_item item w = if is_deleted item.meta then (none, w) else c.delete_item item w

  unfoldable pub delete_deploy_items : List DeployItem → W → Option ApiError × W
  unfolding delete_deploy_item
  delete_deploy_items [] w = (none, w)
  delete_deploy_items (item ∷ rest) w =
      let (e, w1) = delete_deploy_item item w in
      let others = delete_deploy_items rest w1 in elim e [ some x ↦ (some x, w1) | none ↦ others ]

  unfoldable pub delete_orphaned_deploy_items :
      List ApplicationConfig → List DeployItem → W → Option ApiError × W
  unfolding delete_deploy_item find_app_deployment_config_in_list get_app_config_id_from_deploy_item
  delete_orphaned_deploy_items apps [] w = (none, w)
  delete_orphaned_deploy_items apps (item ∷ rest) w =
      let (e, w1) = delete_deploy_item item w in
      let skipped = delete_orphaned_deploy_items apps rest w in
      let others = delete_orphaned_deploy_items apps rest w1 in
      elim (find_app_deployment_config_in_list apps (get_app_config_id_from_deploy_item item)) [
        | some _ ↦ skipped
        | none ↦ elim e [ some x ↦ (some x, w1) | none ↦ others ]
      ]

module _ {W : Type 0} (c : BomControllerClient W) (json : Json) (av : Option NamespacedName) where
  -- A concurrent modification is no error for the clusterbom of the availability check.
  unfoldable pub update_deploy_item : DeployItem → ClusterBom → W → Option ApiError × W
  unfolding is_av_check_bom
  update_deploy_item item bom w =
      let (e, w1) = c.update_item item w in
      elim e [
        | none ↦ (none, w1)
        | some x ↦
            if c.is_concurrent_modification x && is_av_check_bom av bom
            then (none, w1)
            else (some x, w1)
      ]

  -- The body of the loop, with the list of items that it changes in place. A created item is not
  -- added to the list.
  unfoldable pub handle_app_config :
      ClusterBom → ApplicationConfig → List DeployItem → W → Option ApiError × List DeployItem × W
  unfolding find_deploy_item_in_list copy_app_config_to_deploy_item update_deploy_item write_item
      is_equal_config
  handle_app_config bom app items w = elim (find_deploy_item_in_list items app.id) [
    | none ↦ elim (copy_app_config_to_deploy_item json app empty_item bom) [
      | none ↦ (some (other_error "error copying appconfig to new deployitem"), items, w)
      | some item ↦ let (e, w1) = c.create_item item w in (e, items, w1)
    ]
    | some old ↦ elim (is_equal_config json app old) [
      | none ↦ (some (other_error "error comparing appconfig with deploy item"), items, w)
      | some true ↦ (none, items, w)
      | some false ↦ elim (copy_app_config_to_deploy_item json app old bom) [
        | none ↦ (some (other_error "error copying appconfig to deployitem"), items, w)
        | some item ↦
            let (e, w1) = update_deploy_item item bom w in (e, write_item items app.id item, w1)
      ]
    ]
  ]

  unfoldable pub handle_app_configs :
      ClusterBom
      → List ApplicationConfig
      → List DeployItem
      → W
      → Option ApiError × List DeployItem × W
  unfolding handle_app_config
  handle_app_configs bom [] items w = (none, items, w)
  handle_app_configs bom (app ∷ rest) items w =
      let (e, items1, w1) = handle_app_config bom app items w in
      let others = handle_app_configs bom rest items1 w1 in
      elim e [ some x ↦ (some x, items1, w1) | none ↦ others ]
