-- ===== src/ControllerUtil.antt =====
-- pkg/controllersdi/controller_util.go: searching and comparing application configs.
use potter_controller.Prelude.{
  Bool, List, Map, Option, String, [], eqb, false, find_first, if◌then◌else◌, is_empty, length,
  lookup, none, not, some, true, ◌&&◌, ◌==◌, ◌>>=◌, ◌∷◌,
}
use potter_controller.Api.{
  ApplicationConfig, DeployItem, HubDeployItemConfiguration, Job, Json, NamedSecretValues, Raw,
  ReadyRequirements, Resource, SecretValues, Slice,
}
use potter_controller.StateController.States.{get_app_config_id_from_deploy_item}

unfoldable pub find_deploy_item_in_list : List DeployItem → String → Option DeployItem
unfolding get_app_config_id_from_deploy_item
find_deploy_item_in_list items id =
    find_first (λ item. id == get_app_config_id_from_deploy_item item) items

unfoldable pub find_app_deployment_config_in_list :
    List ApplicationConfig → String → Option ApplicationConfig
find_app_deployment_config_in_list configs id = find_first (λ config. config.id == id) configs

-- The value at a key of a map of texts, "" if it is missing.
abbrev pub text_at : String → Map String → String
text_at k m = elim (lookup k m) [ none ↦ "" | some v ↦ v ]

-- `for k, v := range values`
unfoldable pub all_named_secrets : Map NamedSecretValues → Map String → Bool
all_named_secrets [] names = true
all_named_secrets ((k, v) ∷ rest) names =
    v.internal_secret_name == text_at k names && all_named_secrets rest names

unfoldable pub is_equal_named_secret_values : Map NamedSecretValues → Map String → Bool
unfolding all_named_secrets
is_equal_named_secret_values values names =
    if is_empty values && is_empty names
    then true
    else if not (eqb (length values) (length names))
    then false
    else all_named_secrets values names

unfoldable pub is_equal_secret_values : Option SecretValues → String → Bool
is_equal_secret_values none name = name == ""
is_equal_secret_values (some values) name = values.internal_secret_name == name

unfoldable pub is_equal_raw_json : Json → Option Raw → Option Raw → Bool
is_equal_raw_json json none none = true
is_equal_raw_json json none (some b) = false
is_equal_raw_json json (some a) none = false
is_equal_raw_json json (some a) (some b) = json.canonical a == json.canonical b

-- reflect.DeepEqual on the ready requirements: a nil slice is equal to a nil slice only.
abbrev pub same_slice : {A : Type 0} → (List A → List A → Bool) → Slice A → Slice A → Bool
same_slice same none none = true
same_slice same none (some b) = false
same_slice same (some a) none = false
same_slice same (some a) (some b) = same a b

unfoldable pub same_jobs : List Job → List Job → Bool
same_jobs [] [] = true
same_jobs [] (b ∷ bs) = false
same_jobs (a ∷ as') [] = false
same_jobs (a ∷ as') (b ∷ bs) = a.name == b.name && (a.namespace == b.namespace) && same_jobs as' bs

unfoldable pub same_texts : List String → List String → Bool
same_texts [] [] = true
same_texts [] (b ∷ bs) = false
same_texts (a ∷ as') [] = false
same_texts (a ∷ as') (b ∷ bs) = a == b && same_texts as' bs

unfoldable pub same_resources : List Resource → List Resource → Bool
unfolding same_texts
same_resources [] [] = true
same_resources [] (b ∷ bs) = false
same_resources (a ∷ as') [] = false
same_resources (a ∷ as') (b ∷ bs) =
    a.name == b.name
    && (a.namespace == b.namespace)
    && (a.api_version == b.api_version)
    && (a.resource == b.resource)
    && (a.field_path == b.field_path)
    && same_slice same_texts a.success_values b.success_values
    && same_resources as' bs

unfoldable pub same_ready_requirements : ReadyRequirements → ReadyRequirements → Bool
unfolding same_jobs same_resources
same_ready_requirements a b =
    same_slice same_jobs a.jobs b.jobs && same_slice same_resources a.resources b.resources

abbrev pub same_bool : Bool → Bool → Bool
same_bool true b = b
same_bool false b = not b

-- The conjunction of `isEqualConfig` once the configuration is read.
unfoldable pub equals_config : Json → ApplicationConfig → String → HubDeployItemConfiguration → Bool
unfolding is_equal_named_secret_values is_equal_secret_values is_equal_raw_json
equals_config json app type config =
    let d = config.deployment_config in
    app.id == d.id
    && (app.config_type == type)
    && same_bool app.no_reconcile d.no_reconcile
    && same_ready_requirements app.ready_requirements d.ready_requirements
    && is_equal_raw_json json app.values d.values
    && is_equal_raw_json json (some app.type_specific_data) (some d.type_specific_data)
    && is_equal_secret_values app.secret_values d.internal_secret_name
    && is_equal_named_secret_values app.named_secret_values d.named_internal_secret_names

-- `none` is the error; the code then returns false beside it.
unfoldable pub is_equal_config : Json → ApplicationConfig → DeployItem → Option Bool
unfolding equals_config
is_equal_config json app item = do
  config ← json.unmarshal_configuration item.configuration
  some (equals_config json app item.type config)
