-- ===== src/Deploy/Target.antt =====
-- The clients of a target cluster, in pkg/deployutil/deployutil.go and dynamic_client.go.
use potter_controller.Prelude.{Option, String, lookup, none, some}
use potter_controller.Api.{ApiError, NamespacedName, Raw, Result, err, ok}
use potter_controller.Deploy.Client.{Secret}
use potter_controller.Util.Text.{after_slash, part_before_slash}

-- An error that is a ClusterUnreachableError, or another one.
pub data DeployError : Type 0 where
  cluster_unreachable : ApiError → DeployError
  plain_error : ApiError → DeployError

pub data TargetResult (A : Type 0) : Type 0 where
  reached : A → TargetResult A
  not_reached : DeployError → TargetResult A

pub record GroupVersionResource : Type 0 where
  pub group : String
  pub version : String
  pub resource : String

-- The bytes of a kubeconfig; `none` where the secret has none.
abbrev pub Kubeconfig : Type 0
Kubeconfig = Option Raw

-- clientcmd, client.New, dynamic.NewForConfig and the clients that these return; `O` is the content of
-- an unstructured object.
pub record TargetSystem (W : Type 0) (O : Type 0) : Type 0 where
  pub get_secret : NamespacedName → W → Result Secret × W
  pub rest_config : Kubeconfig → Option ApiError
  pub new_client : Kubeconfig → W → Option ApiError × W
  pub new_dynamic_client : Kubeconfig → Option ApiError
  pub get_namespace : Kubeconfig → String → W → Option ApiError × W
  pub create_namespace : Kubeconfig → String → W → Option ApiError × W
  pub get_object : Kubeconfig → GroupVersionResource → String → String → W → Result O × W

unfoldable pub group_version_resource : String → String → GroupVersionResource
group_version_resource api_version resource = elim (after_slash api_version) [
  | none ↦ record { group = ""; version = api_version; resource = resource }
  | some rest ↦ record {
    group = part_before_slash api_version;
    version = part_before_slash rest;
    resource = resource;
  }
]

module _ {W O : Type 0} (t : TargetSystem W O) where
  unfoldable pub get_target_config : NamespacedName → W → TargetResult Kubeconfig × W
  get_target_config key w =
      let (r, w1) = t.get_secret key w in
      elim r [
        | err e ↦ (not_reached (plain_error e), w1)
        | ok secret ↦ (reached (lookup "kubeconfig" secret.content), w1)
      ]

  unfoldable pub get_target_client : NamespacedName → W → TargetResult Kubeconfig × W
  unfolding get_target_config
  get_target_client key w =
      let (r, w1) = get_target_config key w in
      elim r [
        | not_reached e ↦ (not_reached e, w1)
        | reached config ↦ elim (t.rest_config config) [
          | some e ↦ (not_reached (plain_error e), w1)
          | none ↦
              let (made, w2) = t.new_client config w1 in
              elim made [
                | some e ↦ (not_reached (cluster_unreachable e), w2)
                | none ↦ (reached config, w2)
              ]
        ]
      ]

  unfoldable pub new_dynamic_target_client : NamespacedName → W → TargetResult Kubeconfig × W
  unfolding get_target_config
  new_dynamic_target_client key w =
      let (r, w1) = get_target_config key w in
      elim r [
        | not_reached e ↦ (not_reached e, w1)
        | reached config ↦ elim (t.rest_config config) [
          | some e ↦ (not_reached (plain_error e), w1)
          | none ↦ elim (t.new_dynamic_client config) [
            | some e ↦ (not_reached (cluster_unreachable e), w1)
            | none ↦ (reached config, w1)
          ]
        ]
      ]

  unfoldable pub get_resource : Kubeconfig → String → String → String → String → W → Result O × W
  unfolding group_version_resource
  get_resource config api_version resource namespace name w =
      t.get_object config (group_version_resource api_version resource) namespace name w
