-- ===== src/ClusterBomController/Calls.antt =====
-- The calls of the clusterbom controller, as a parameter, and pkg/secrets/secretkey.go with
-- `ComputeSecretDeletionToken` of pkg/util/symmetric_encrypt.go.
use Prim.Native.String.{◌++◌}
use potter_controller.Prelude.{
  Bool, List, Map, Option, String, false, if◌then◌else◌, insert, is_some, lookup, none, not, some,
  true, ◌||◌,
}
use potter_controller.Api.{
  ApiError, ClusterBom, DeployItem, Duration, NamespacedName, ObjectMeta, Raw, Result, Time, err,
  ok,
}
use potter_controller.ClusterBomController.Deactivator.{BomClient}
use potter_controller.Util.Keys.{get_key}

pub record SecretObject : Type 0 where
  pub meta : ObjectMeta
  pub content : Map Raw

-- `W` is the world outside of the process, and the variable `secretDeletionKey` of the process. `none`
-- is its nil slice.
pub record BomControllerClient (W : Type 0) : Type 0 where
  pub calls : BomClient W
  pub open calls use *
  pub list_items : String → Map String → W → Result (List DeployItem) × W
  pub list_secrets : String → Map String → W → Result (List SecretObject) × W
  pub get_bom : NamespacedName → W → Result ClusterBom × W
  pub get_secret : NamespacedName → W → Result SecretObject × W
  pub create_item : DeployItem → W → Option ApiError × W
  pub update_bom_status : ClusterBom → W → Option ApiError × W
  pub update_secret : SecretObject → W → Option ApiError × W
  pub delete_secret : SecretObject → W → Option ApiError × W
  -- of the hub cluster, past the cache
  pub get_uncached_secret : NamespacedName → W → Result SecretObject × W
  pub pod_namespace : String
  pub cached_deletion_key : W → Option Raw
  pub cache_deletion_key : Option Raw → W → W
  -- sha256.Sum, and a search of the text of an error for "the object has been modified"
  pub sha256 : Raw → Raw
  pub is_concurrent_modification : ApiError → Bool
  pub now : W → Time × W
  pub sleep : Duration → W → W

abbrev pub key_deletion_token : String
key_deletion_token = "deletionToken"

-- A nil slice has the bytes of an empty one.
abbrev pub bytes_of : Option Raw → Raw
bytes_of none = ""
bytes_of (some bytes) = bytes

-- Writing to a hash returns no error.
unfoldable pub compute_secret_deletion_token : (Raw → Raw) → Option Raw → String → Raw
compute_secret_deletion_token sha256 key name = sha256 (bytes_of key ++ name)

module _ {W : Type 0} (c : BomControllerClient W) where
  unfoldable pub get_secret_deletion_key : Bool → W → Result (Option Raw) × W
  unfolding lookup
  get_secret_deletion_key from_cache w =
      let (r, w1) =
        c.get_uncached_secret (record { namespace = c.pod_namespace; name = "secret-private-keys" })
          w in
      let fetched : Result (Option Raw) × W = elim r [
        | err e ↦ (err e, w1)
        | ok s ↦ (
          ok (lookup "secretDeletionKey" s.content),
          c.cache_deletion_key (lookup "secretDeletionKey" s.content) w1,
        )
      ] in
      if not (is_some (c.cached_deletion_key w)) || not from_cache
      then fetched
      else (ok (c.cached_deletion_key w), w)

  -- The secret with its token, by the key of the cache or by a fresh one.
  unfoldable pub with_deletion_token : SecretObject → Bool → W → Result SecretObject × W
  unfolding get_secret_deletion_key compute_secret_deletion_token insert
  with_deletion_token secret from_cache w =
      let (r, w1) = get_secret_deletion_key from_cache w in
      (
        elim r [
          | err e ↦ err e
          | ok key ↦ ok (record secret {
            content =
                insert key_deletion_token
                  (compute_secret_deletion_token c.sha256 key secret.meta.name) secret.content;
          })
        ],
        w1,
      )

  -- The retry with a fresh key is made where the update fails.
  unfoldable pub mark_for_deletion : SecretObject → W → Option ApiError × W
  unfolding with_deletion_token
  mark_for_deletion secret w =
      let (r, w1) = with_deletion_token secret true w in
      elim r [
        | err e ↦ (some e, w1)
        | ok marked ↦
            let (e, w2) = c.update_secret marked w1 in
            let (r', w3) = with_deletion_token marked false w2 in
            elim e [
              | none ↦ (none, w2)
              | some _ ↦ elim r' [ err e' ↦ (some e', w3) | ok again ↦ c.update_secret again w3 ]
            ]
      ]

  unfoldable pub delete_marked_secret : SecretObject → W → Option ApiError × W
  unfolding mark_for_deletion
  delete_marked_secret secret w =
      let (e, w1) = mark_for_deletion secret w in
      let (r, w2) = c.get_secret (get_key secret.meta) w1 in
      elim e [
        | some x ↦ (some x, w1)
        | none ↦ elim r [ err x ↦ (some x, w2) | ok stored ↦ c.delete_secret stored w2 ]
      ]
