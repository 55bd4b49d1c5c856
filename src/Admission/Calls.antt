-- ===== src/Admission/Calls.antt =====
-- The calls of a review, as parameters: the client, and the functions of packages that are not part of the
-- repository.
use potter_controller.Prelude.{Bool, List, Map, Option, String, false, true, ℕ}
use potter_controller.Admission.Helm.{HelmSpecificData}
use potter_controller.Admission.Verdict.{Decoded}
use potter_controller.Api.{ApiError, ClusterBom, DeployItem, Raw, Result}
use potter_controller.ClusterBomController.Calls.{BomControllerClient, SecretObject}

pub record ReviewClient (W : Type 0) : Type 0 where
  pub bom_client : BomControllerClient W
  pub open bom_client use *
  pub list_uncached : String → Map String → W → Result (List DeployItem) × W
  pub error_text : ApiError → String
  pub unmarshal_bom : Raw → Decoded ClusterBom
  pub unmarshal_secret : Raw → Decoded SecretObject
  pub unmarshal_helm : Raw → Decoded HelmSpecificData
  pub unmarshal_kapp : Raw → Decoded (Option String)
  -- regexp.MatchString, for patterns that are regular expressions
  pub matches : String → String → Bool
  -- jsonpath.Parse: the text of its error
  pub parse_json_path : String → Option String
  -- strconv.Itoa
  pub itoa : ℕ → String
  -- json.Unmarshal of a success value, and whether it has the key `value`
  pub unmarshal_success_value : Raw → Decoded Bool

pub data AdmissionOperation : Type 0 where
  admit_create admit_update admit_delete admit_other : AdmissionOperation

pub record AdmissionRequest : Type 0 where
  pub operation : AdmissionOperation
  pub new_object : Raw
  pub old_object : Raw

-- The reviewer's fields.
pub record ReviewConfig : Type 0 where
  pub config_types : List String
  pub landscaper_enabled : Bool

abbrev pub is_update : AdmissionOperation → Bool
is_update admit_update = true
is_update _ = false
