-- ===== src/Admission/Helm.antt =====
-- pkg/admission/admission_helm.go, on the data of a Helm deployment (api/apitypes/helm_types.go).
use Prim.Native.String.{◌++◌}
use potter_controller.Prelude.{
  Bool, List, Option, String, [], is_some, none, not, some, ℕ, ◌&&◌, ◌==◌, ◌∷◌,
}
use potter_controller.Admission.Verdict.{
  Decoded, Denial, decoded, deny_if, is_spiff_template, not_positive, undecoded, ◌then_check◌,
}
use potter_controller.Api.{Raw}

pub record CatalogAccess : Type 0 where
  pub repo : String
  pub chart_name : String
  pub chart_version : String

pub record TarballAccess : Type 0 where
  pub url : String
  pub auth_header : String
  pub secret_ref_name : String

pub record HelmSpecificData : Type 0 where
  pub install_name : String
  pub namespace : String
  pub catalog_access : Option CatalogAccess
  pub tarball_access : Option TarballAccess
  pub install_timeout : Option ℕ
  pub upgrade_timeout : Option ℕ
  pub rollback_timeout : Option ℕ
  pub uninstall_timeout : Option ℕ
  pub install_arguments : List String
  pub update_arguments : List String
  pub remove_arguments : List String

unfoldable pub check_installation_name_and_namespace : HelmSpecificData → Denial
check_installation_name_and_namespace d =
    deny_if (d.install_name == "") "helm.installName is empty" (
      deny_if (is_spiff_template d.install_name) "helm.installName cannot be templated" (
        deny_if (d.namespace == "") "helm.namespace is empty"
          (deny_if (is_spiff_template d.namespace) "helm.namespace cannot be templated" none)))

unfoldable pub check_timeouts : HelmSpecificData → Denial
check_timeouts d =
    deny_if (not_positive d.install_timeout) "helm.installTimeout must be larger than 0" (
      deny_if (not_positive d.upgrade_timeout) "helm.upgradeTimeout must be larger than 0" (
        deny_if (not_positive d.rollback_timeout) "helm.rollbackTimeout must be larger than 0" (
          deny_if (not_positive d.uninstall_timeout) "helm.uninstallTimeout must be larger than 0"
            none)))

abbrev pub catalog_prefix : String
catalog_prefix = "helm.catalogAccess."

-- The pattern of a semantic version.
abbrev pub version_pattern : String
version_pattern =
    "^(?P<major>0|[1-9]\\d*)\\.(?P<minor>0|[1-9]\\d*)\\.(?P<patch>0|[1-9]\\d*)(?:-(?P<prerelease>(?:0|[1-9]\\d*|\\d*[a-zA-Z-][0-9a-zA-Z-]*)(?:\\.(?:0|[1-9]\\d*|\\d*[a-zA-Z-][0-9a-zA-Z-]*))*))?(?:\\+(?P<buildmetadata>[0-9a-zA-Z-]+(?:\\.[0-9a-zA-Z-]+)*))?$"

-- The first argument is regexp.MatchString, whose error is that of a pattern that is no regular
-- expression.
unfoldable pub check_catalog_access : (String → String → Bool) → HelmSpecificData → Denial
check_catalog_access matches d = elim d.catalog_access [
  | none ↦ none
  | some a ↦ deny_if (a.repo == "") (catalog_prefix ++ "repo missing") (
      deny_if (is_spiff_template a.repo) (catalog_prefix ++ "repo cannot be templated") (
        deny_if (a.chart_name == "") (catalog_prefix ++ "chartName missing") (
          deny_if (is_spiff_template a.chart_name)
            (catalog_prefix ++ "chartName cannot be templated")
            (deny_if (a.chart_version == "") (catalog_prefix ++ "chartVersion missing") (
              deny_if (not (matches version_pattern a.chart_version))
                (catalog_prefix ++ "chartVersion does not fulfill the pattern " ++ version_pattern)
                none)))))
]

unfoldable pub check_tarball_access : HelmSpecificData → Denial
check_tarball_access d = elim d.tarball_access [
  | none ↦ none
  | some a ↦ deny_if (a.url == "") "helm.tarballAccess.url missing" (
      deny_if (is_spiff_template a.url) "helm.tarballAccess.url cannot be templated" (
        deny_if (not (a.auth_header == "") && not (a.secret_ref_name == ""))
          "helm.tarballAccess.authHeader and helm.tarballAccess.secretRef.name both set" none))
]

unfoldable pub check_argument_list : String → List String → Denial
check_argument_list message [] = none
check_argument_list message (a ∷ rest) =
    deny_if (not (a == "atomic")) (message ++ a) (check_argument_list message rest)

unfoldable pub check_remove_arguments : List String → Denial
check_remove_arguments [] = none
check_remove_arguments (a ∷ rest) = some ("remove argument not supported: " ++ a)

unfoldable pub check_arguments : HelmSpecificData → Denial
unfolding check_argument_list check_remove_arguments
check_arguments d =
    check_argument_list "install argument not supported: " d.install_arguments
    then_check check_argument_list "update argument not supported: " d.update_arguments
    then_check check_remove_arguments d.remove_arguments

abbrev pub check_access : HelmSpecificData → Denial
check_access d =
    deny_if (not (is_some d.tarball_access) && not (is_some d.catalog_access))
      "either helm.tarballAccess or helm.catalogAccess must be set"
      (deny_if (is_some d.tarball_access && is_some d.catalog_access)
        "not both helm.catalogAccess and helm.tarballAccess are allowed to have entries" none)

-- During an update, only the version is allowed to be changed.
unfoldable pub check_changes : HelmSpecificData → HelmSpecificData → Denial
check_changes old d =
    deny_if (not (d.install_name == old.install_name)) "helm.installName must not be updated" (
      deny_if (not (d.namespace == old.namespace)) "helm.namespace must not be updated"
        (elim d.catalog_access [
          | none ↦ deny_if (is_some old.catalog_access) "switch to tarballAccess not allowed" none
          | some a ↦ elim old.catalog_access [
            | none ↦ some "switch to catalogAccess not allowed"
            | some b ↦
                deny_if (not (a.chart_name == b.chart_name))
                  (catalog_prefix ++ "chartName must not be changed")
                  (deny_if (not (a.repo == b.repo)) (catalog_prefix ++ "repo must not be changed")
                    none)
          ]
        ]))

abbrev pub check_old : Option HelmSpecificData → HelmSpecificData → Denial
check_old none d = none
check_old (some old) d = check_changes old d

-- From the decoded data on.
unfoldable pub check_helm_data :
    (String → String → Bool) → HelmSpecificData → Option HelmSpecificData → Denial
unfolding check_installation_name_and_namespace check_timeouts check_tarball_access
    check_catalog_access check_changes check_arguments
check_helm_data matches d old =
    check_installation_name_and_namespace d
    then_check check_timeouts d
    then_check check_access d
    then_check check_tarball_access d
    then_check check_catalog_access matches d
    then_check check_old old d
    then_check check_arguments d

unfoldable pub check_helm_specific_data :
    (Raw → Decoded HelmSpecificData) → (String → String → Bool) → Raw → Option Raw → Denial
unfolding check_helm_data
check_helm_specific_data unmarshal matches raw none = elim (unmarshal raw) [
  | undecoded e ↦ some ("error typeSpecificData - " ++ e)
  | decoded d ↦ check_helm_data matches d none
]
check_helm_specific_data unmarshal matches raw (some old_raw) = elim (unmarshal raw) [
  | undecoded e ↦ some ("error typeSpecificData - " ++ e)
  | decoded d ↦ elim (unmarshal old_raw) [
    | undecoded e ↦ some ("error when unmarshalling old typeSpecificData - " ++ e)
    | decoded old ↦ check_helm_data matches d (some old)
  ]
]
