-- ===== src/Deploy/Client.antt =====
-- The Kubernetes client of the deployment controller, as a parameter, and the deployers' interface.
-- `W` is the world outside of the process: a call may change it in any way.
use potter_controller.Prelude.{Bool, List, Map, Option, String}
use potter_controller.Api.{ApiError, DeployItem, Duration, NamespacedName, Raw, Result, Time}
use potter_controller.Deploy.DeployData.{DeployData}

pub record Secret : Type 0 where
  pub key : NamespacedName
  pub labels : Map String
  pub content : Map Raw

pub record Client (W : Type 0) : Type 0 where
  -- a constant of the landscaper
  pub data_object_secret_data_key : String
  pub get_item : NamespacedName → W → Result DeployItem × W
  pub update_item : DeployItem → W → Option ApiError × W
  pub update_item_status : DeployItem → W → Option ApiError × W
  pub get_secret : NamespacedName → W → Result Secret × W
  pub list_secrets : String → Map String → W → Result (List Secret) × W
  pub create_secret : Secret → W → Option ApiError × W
  pub delete_secret : Secret → W → Option ApiError × W
  pub new_uuid : W → String × W
  pub now : W → Time × W
  pub sleep : Duration → W → W
  -- the effects of yaml.Marshal and yaml.Unmarshal are errors and bytes; the target of the latter is
  -- a nil map, which it cannot fill
  pub yaml_marshal : Map Raw → Option Raw
  pub yaml_unmarshal : Option Raw → Option ApiError

-- pkg/deployutil/deployer.go: each operation may change the data of the deploy item.
pub record Deployer (W : Type 0) : Type 0 where
  pub process_new_operation : DeployData → W → DeployData × W
  pub retry_failed_operation : DeployData → W → DeployData × W
  pub reconcile_operation : DeployData → W → DeployData × W
  pub process_pending_operation : DeployData → W → DeployData × W
  pub cleanup : DeployData → Bool → W → Option ApiError × W
  pub preprocess : DeployData → W → DeployData × W
