-- ===== src/Admission/Checks.antt =====
-- The checks of pkg/admission/clusterbom_reviewer.go.
use Prim.Native.Char.{Char, code}
use Prim.Native.String.{◌++◌}
use potter_controller.Prelude.{
  Bool, List, Map, Option, String, [], any, eqb, false, if◌then◌else◌, insert, is_empty, leb,
  lookup, ltb, none, not, some, suc, ℕ, ◌&&◌, ◌==◌, ◌||◌, ◌∷◌,
}
use potter_controller.Admission.Calls.{ReviewClient, ReviewConfig}
use potter_controller.Admission.Helm.{check_helm_specific_data}
use potter_controller.Admission.Kapp.{review_kapp_data}
use potter_controller.Admission.Verdict.{
  Denial, decoded, deny_if, is_spiff_template, undecoded, ◌then_check◌,
}
use potter_controller.Api.{
  ApplicationConfig, ClusterBom, Raw, Resource, elements, err, label_application_config_id,
  label_cluster_bom_name, ok,
}
use potter_controller.Util.Objects.{has_annotation}
use potter_controller.Util.Text.{all_chars, contains_text, text_length}

-- Where the review is of an update, the old clusterbom stands beside the new one.
abbrev pub OldBom : Type 0
OldBom = Option ClusterBom

abbrev pub name_message : String
name_message =
    "The name of a clusterbom must consist of lower case alphanumeric characters or '-' or '.', must start and end with an alphanumeric character, and must not be longer than 63 characters (e.g. 'testclusterbom.01')."

-- `[0-9a-z\.\-]`
abbrev pub is_name_char : Char → Bool
is_name_char c =
    leb 48 (code c) && leb (code c) 57
    || leb 97 (code c) && leb (code c) 122
    || eqb (code c) 45
    || eqb (code c) 46

-- The pattern is `^[0-9a-z\.\-]+$`; a text that is not empty matches where all its characters do. The
-- length is that of the name's bytes, and a name of this pattern has one for each character.
unfoldable pub check_name : ClusterBom → Denial
check_name bom =
    let name = bom.meta.name in
    deny_if (ltb 63 (text_length name) || ltb (text_length name) 1) name_message (
      deny_if (not (all_chars is_name_char name)) name_message (
        deny_if (contains_text "--" name)
          "rejected clusterbom, because its name contains more than one consecutive minus sign"
          none))

unfoldable pub check_secret_ref : OldBom → ClusterBom → Denial
check_secret_ref old bom = deny_if (bom.spec.secret_ref == "") "spec.secretRef is empty" (
    deny_if (elim old [ none ↦ false | some o ↦ not (bom.spec.secret_ref == o.spec.secret_ref) ])
      "spec.secretRef must not be changed"
      (deny_if (is_spiff_template bom.spec.secret_ref) "spec.secretRef cannot be templated" none))

abbrev pub is_landscaper_managed : ClusterBom → Bool
is_landscaper_managed bom =
    has_annotation bom.meta "potter.gardener.cloud/landscaper-managed" "true"

abbrev pub has_export_or_import_parameters : List ApplicationConfig → Bool
has_export_or_import_parameters apps =
    any
      (λ (app : ApplicationConfig).
        not (is_empty app.export_parameters)
        || not (is_empty app.import_parameters)
        || not (is_empty app.internal_import_parameters))
      apps

unfoldable pub check_landscaper_managed : ReviewConfig → OldBom → ClusterBom → Denial
unfolding has_annotation
check_landscaper_managed config old bom =
    let managed = is_landscaper_managed bom in
    deny_if (managed && not config.landscaper_enabled)
      "landscaper managed clusterboms are not supported"
      (deny_if
        (elim old [
          | none ↦ false
          | some o ↦
              managed && not (is_landscaper_managed o)
              || not managed && is_landscaper_managed o && config.landscaper_enabled
        ])
        "a switch between landscaper managed and not landscaper managed is forbidden"
        (deny_if (not managed && has_export_or_import_parameters bom.spec.application_configs)
          "export/import is only supported for landscaper managed clusterboms, i.e. clusterboms with annotation potter.gardener.cloud/landscaper-managed: true"
          none))

-- The loop, with the ids before an application.
unfoldable pub check_ids : List String → List ApplicationConfig → Denial
check_ids ids [] = none
check_ids ids (app ∷ rest) = deny_if (app.id == "") "spec.applicationConfigs.id is empty" (
    deny_if (is_spiff_template app.id) "spec.applicationConfigs.id" (
      deny_if (any (λ id. id == app.id) ids) ("applConfig.ID is a duplicate " ++ app.id)
        (check_ids (app.id ∷ ids) rest)))

unfoldable pub check_application_config_ids : ClusterBom → Denial
unfolding check_ids
check_application_config_ids bom = check_ids [] bom.spec.application_configs

unfoldable pub check_config_type :
    ReviewConfig → ApplicationConfig → Option ApplicationConfig → Denial
check_config_type config app old =
    deny_if (app.config_type == "") "spec.applicationConfigs.configType is empty" (
      deny_if (not (any (λ type. type == app.config_type) config.config_types))
        ("spec.applicationConfigs.configType " ++ (app.config_type ++ " is not supported"))
        (deny_if (elim old [ none ↦ false | some o ↦ not (app.config_type == o.config_type) ])
          "spec.applicationConfigs.configType must not be updated" none))

-- The loop that fills `oldApplConfigs`.
unfoldable pub add_old_configs :
    Map ApplicationConfig → List ApplicationConfig → Map ApplicationConfig
unfolding insert
add_old_configs m [] = m
add_old_configs m (app ∷ rest) = add_old_configs (insert app.id app m) rest

unfoldable pub old_appl_configs : OldBom → Map ApplicationConfig
unfolding add_old_configs
old_appl_configs none = []
old_appl_configs (some old) = add_old_configs [] old.spec.application_configs

module _ {W : Type 0} (c : ReviewClient W) where
  -- Data that are missing are the empty text.
  unfoldable pub check_type_specific_data :
      ClusterBom → ApplicationConfig → Option ApplicationConfig → Denial
  unfolding check_helm_specific_data review_kapp_data
  check_type_specific_data bom app old =
      let old_data : Option Raw = elim old [ none ↦ none | some o ↦ some o.type_specific_data ] in
      deny_if (app.type_specific_data == "") "spec.applicationConfigs.typeSpecificData is empty" (
        if app.config_type == "helm"
        then check_helm_specific_data c.unmarshal_helm c.matches app.type_specific_data old_data
        else if app.config_type == "kapp"
        then review_kapp_data c.unmarshal_kapp app.type_specific_data bom.spec.secret_ref
        else none)

  unfoldable pub check_conflict_with_existing_deploy_item :
      ClusterBom → ApplicationConfig → Option ApplicationConfig → W → Denial × W
  check_conflict_with_existing_deploy_item bom app old w =
      let (r, w1) =
        c.list_uncached bom.meta.namespace
          ((label_cluster_bom_name, bom.meta.name) ∷ (label_application_config_id, app.id) ∷ [])
          w in
      elim old [
        | some _ ↦ (none, w)
        | none ↦ elim r [
          | err e ↦ (
            some (
                "cannot find out whether there still exists a deployitem for a new applicationConfig: "
                ++ c.error_text e),
            w1,
          )
          | ok items ↦ (
            deny_if (not (is_empty items))
                "there still exists a deployitem for a new applicationConfig" none,
            w1,
          )
        ]
      ]

  -- `ParseSuccessValues`: the error of the first value that cannot be parsed.
  unfoldable pub parse_success_values : ℕ → List Raw → Denial
  parse_success_values i [] = none
  parse_success_values i (raw ∷ rest) = elim (c.unmarshal_success_value raw) [
    | undecoded e ↦ some ("cannot unmarshal object at index " ++ (c.itoa i ++ (": " ++ e)))
    | decoded has_value ↦
        deny_if (not has_value)
          ("object at index " ++ (c.itoa i ++ " does not contain the value key"))
          (parse_success_values (suc i) rest)
  ]

  -- `prefix` names the application and the index of the resource.
  unfoldable pub check_resource : String → Resource → Denial
  unfolding parse_success_values
  check_resource prefix r = deny_if (r.name == "") (prefix ++ "name is empty") (
      deny_if (r.namespace == "") (prefix ++ "namespace is empty") (
        deny_if (r.api_version == "") (prefix ++ "apiVersion is empty") (
          deny_if (r.resource == "") (prefix ++ "resource is empty") (
            deny_if (r.field_path == "") (prefix ++ "fieldPath is empty")
              (elim (c.parse_json_path r.field_path) [
                | some e ↦ some (prefix ++ ("fieldPath cannot be parsed: " ++ e))
                | none ↦ elim (parse_success_values 0 (elements r.success_values)) [
                  | some e ↦ some (prefix ++ ("successValues cannot be parsed: " ++ e))
                  | none ↦
                      deny_if (is_empty (elements r.success_values))
                        (prefix ++ "successValues is empty") none
                ]
              ])))))

  unfoldable pub check_resource_ready_requirements : String → ℕ → List Resource → Denial
  unfolding check_resource
  check_resource_ready_requirements id i [] = none
  check_resource_ready_requirements id i (r ∷ rest) =
      check_resource (id ++ (".readyRequirements.resources[" ++ (c.itoa i ++ "]."))) r
      then_check check_resource_ready_requirements id (suc i) rest

  -- The body of the loop over the application configs.
  unfoldable pub check_application_config :
      ReviewConfig → OldBom → ClusterBom → ApplicationConfig → W → Denial × W
  unfolding check_config_type check_type_specific_data check_conflict_with_existing_deploy_item
      check_resource_ready_requirements old_appl_configs lookup
  check_application_config config old bom app w =
      let old_app = lookup app.id (old_appl_configs old) in
      let first =
        check_config_type config app old_app then_check check_type_specific_data bom app old_app in
      let (d, w1) = check_conflict_with_existing_deploy_item bom app old_app w in
      let last =
        d
        then_check check_resource_ready_requirements app.id 0
            (elements app.ready_requirements.resources) in
      elim first [ some message ↦ (some message, w) | none ↦ (last, w1) ]

  unfoldable pub check_each_config :
      ReviewConfig → OldBom → ClusterBom → List ApplicationConfig → W → Denial × W
  unfolding check_application_config
  check_each_config config old bom [] w = (none, w)
  check_each_config config old bom (app ∷ rest) w =
      let (d, w1) = check_application_config config old bom app w in
      let others = check_each_config config old bom rest w1 in
      elim d [ some message ↦ (some message, w1) | none ↦ others ]

  unfoldable pub check_application_configs : ReviewConfig → OldBom → ClusterBom → W → Denial × W
  unfolding check_application_config_ids check_each_config
  check_application_configs config old bom w =
      let others = check_each_config config old bom bom.spec.application_configs w in
      elim (check_application_config_ids bom) [ some message ↦ (some message, w) | none ↦ others ]

  -- The checks of `review`, between the decoding of the request and the mutation.
  unfoldable pub check_cluster_bom : ReviewConfig → OldBom → ClusterBom → W → Denial × W
  unfolding check_name check_secret_ref check_landscaper_managed check_application_configs
  check_cluster_bom config old bom w =
      let first =
        check_name bom
        then_check check_secret_ref old bom
        then_check check_landscaper_managed config old bom in
      let others = check_application_configs config old bom w in
      elim first [ some message ↦ (some message, w) | none ↦ others ]
