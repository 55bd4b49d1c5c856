-- ===== src/ReconcileController/Calls.antt =====
-- The calls of the reconcile controller, as a parameter, and its fields.
use potter_controller.Prelude.{Bool, List, Map, Option, String, none, some}
use potter_controller.Api.{ApiError, ClusterBom, NamespacedName, Result, Time}
use potter_controller.ClusterBomController.Calls.{BomControllerClient, SecretObject}
use potter_controller.ControllerUtil.{text_at}
use potter_controller.Sync.BlockObject.{SyncClient}
use potter_controller.Sync.Decision.{ClusterBomSync}

-- A nil map of entries is `none`: it can be read, and a write to it panics.
pub record ConfigMap : Type 0 where
  pub key : NamespacedName
  pub entries : Option (Map String)

-- `W` holds the variable `lastUpdate` of the process, too.
pub record ReconcileClient (W : Type 0) : Type 0 where
  pub bom_client : BomControllerClient W
  pub open bom_client use *
  pub sync_client : SyncClient W
  pub list_boms : W → Result (List ClusterBom) × W
  pub delete_bom : ClusterBom → W → Option ApiError × W
  pub list_all_secrets : Map String → W → Result (List SecretObject) × W
  pub list_syncs : W → Result (List ClusterBomSync) × W
  pub get_map : NamespacedName → W → Result ConfigMap × W
  pub create_map : ConfigMap → W → Option ApiError × W
  pub update_map : ConfigMap → W → Option ApiError × W
  -- the names of the pods of a namespace
  pub list_pods : String → W → Result (List String) × W
  pub delete_pod : String → W → Option ApiError × W
  pub last_update : W → Time
  pub set_last_update : Time → W → W
  pub new_id : W → String × W
  -- metav1.Time as JSON
  pub marshal_time : Time → Option String
  pub unmarshal_time : String → Option Time

pub record ReconcileController : Type 0 where
  pub config_map_key : NamespacedName
  pub unique_id : String
  pub sync_disabled : Bool

-- `time.Time{}`, from which the times are counted
abbrev pub zero_time : Time
zero_time = 0

-- A key of a config map, "" if it is missing.
abbrev pub entry_at : String → ConfigMap → String
entry_at key m = elim m.entries [ none ↦ "" | some entries ↦ text_at key entries ]
