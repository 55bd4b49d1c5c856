-- ===== src/ReconcileController/Cleanup.antt =====
-- The clean-up of sync objects and secrets whose clusterboms are gone, the restart of the kapp controller,
-- and the deletion of clusterboms whose target cluster is gone.
use potter_controller.Prelude.{
  Bool, List, Option, String, [], any, if◌then◌else◌, lookup, ltb, none, some, true, ℕ, ◌%◌, ◌&&◌,
  ◌*◌, ◌+◌, ◌∷◌,
}
use potter_controller.Api.{
  ClusterBom, Duration, NamespacedName, Time, err, hour, label_cluster_bom_name, minute, not_found,
  ok,
}
use potter_controller.ClusterBomController.Calls.{SecretObject, delete_marked_secret}
use potter_controller.ClusterBomController.Handlers.{get_secret_key_from_cluster_bom}
use potter_controller.Deploy.ExportSecrets.{label_purpose}
use potter_controller.ReconcileController.Calls.{ReconcileClient, ReconcileController}
use potter_controller.Sync.BlockObject.{BlockObject, block, delete_block, release, same_key}
use potter_controller.Sync.Decision.{ClusterBomSync}
use potter_controller.Util.Keys.{get_key}
use potter_controller.Util.Text.{has_prefix}

-- The number of a signed 64-bit integer's bit patterns, and of the ones that are not negative.
abbrev pub word : ℕ
word = 18446744073709551616

abbrev pub half_word : ℕ
half_word = 9223372036854775808

-- `creationTime.Add(time.Duration(age) * time.Minute).Before(now)`: the product wraps around, and is
-- negative from 2 ^ 63 on.
unfoldable pub is_older_than : Time → ℕ → Time → Bool
is_older_than creation age now =
    let wait = (age * minute) % word in
    if ltb wait half_word then ltb (creation + wait) now else ltb (creation + wait) (now + word)

-- `clusterBom.Spec.AutoDelete != nil && ClusterBomAge > 0`; the age is a signed 64-bit integer, by its bit
-- pattern.
unfoldable pub auto_delete_age : ClusterBom → Option ℕ
auto_delete_age bom = elim bom.spec.auto_delete [
  | none ↦ none
  | some a ↦
      if ltb 0 a.cluster_bom_age && ltb a.cluster_bom_age half_word
      then some a.cluster_bom_age
      else none
]

module _ {W : Type 0} (c : ReconcileClient W) (r : ReconcileController) where
  unfoldable pub auto_delete_clusterless_bom : NamespacedName → W → W
  unfolding is_older_than auto_delete_age get_secret_key_from_cluster_bom
  auto_delete_clusterless_bom key w =
      let (fetched_bom, w1) = c.get_bom key w in
      elim fetched_bom [
        | err _ ↦ w1
        | ok bom ↦
            let (now, w2) = c.now w1 in
            let (secret, w3) = c.get_secret (get_secret_key_from_cluster_bom bom) w2 in
            elim (auto_delete_age bom) [
              | none ↦ w1
              | some age ↦
                  if is_older_than bom.meta.creation_timestamp age now
                  then elim secret [ err not_found ↦ (c.delete_bom bom w3).1 | _ ↦ w3 ]
                  else w2
            ]
      ]

  unfoldable pub delete_sync_object : NamespacedName → W → W
  unfolding block delete_block release
  delete_sync_object key w =
      let (id, w1) = c.new_id w in
      let b : BlockObject = record {
        unique_id = id;
        excluded_boms = [];
        sync_disabled = r.sync_disabled;
      } in
      let (blocked, w2) = block c.sync_client b key (5 * minute) true w1 in
      let (_, w3) = delete_block c.sync_client b key w2 in
      let w4 = release c.sync_client b key true w3 in
      elim blocked.error [ some _ ↦ w2 | none ↦ if blocked.granted then w4 else w2 ]

  -- The loop over the sync objects; the clusterboms are a map from their keys.
  unfoldable pub cleanup_syncs : List ClusterBom → List ClusterBomSync → W → W
  unfolding delete_sync_object
  cleanup_syncs boms [] w = w
  cleanup_syncs boms (s ∷ rest) w =
      let (now, w1) = c.now w in
      let w2 = delete_sync_object s.key w1 in
      let known = cleanup_syncs boms rest w in
      let fresh = cleanup_syncs boms rest w1 in
      let removed = cleanup_syncs boms rest w2 in
      if any (λ (bom : ClusterBom). same_key (get_key bom.meta) s.key) boms
      then known
      else if ltb (s.until + 5 * hour) now
      then removed
      else fresh

  unfoldable pub cleanup_cluster_bom_sync_object : List ClusterBom → W → W
  unfolding cleanup_syncs
  cleanup_cluster_bom_sync_object boms w =
      let (syncs, w1) = c.list_syncs w in
      elim syncs [ err _ ↦ w1 | ok xs ↦ cleanup_syncs boms xs w1 ]

  -- An error of the deletion is only logged.
  unfoldable pub cleanup_orphaned_secret : SecretObject → W → W
  unfolding lookup delete_marked_secret
  cleanup_orphaned_secret secret w =
      let (now, w1) = c.now w in
      elim (lookup label_cluster_bom_name secret.meta.labels) [
        | none ↦ w1
        | some name ↦
            let (fetched_bom, w2) =
              c.get_bom (record { namespace = secret.meta.namespace; name = name }) w1 in
            let (_, w3) = delete_marked_secret c.bom_client secret w2 in
            if ltb (secret.meta.creation_timestamp + hour) now
            then elim fetched_bom [ err not_found ↦ w3 | _ ↦ w2 ]
            else w1
      ]

  unfoldable pub cleanup_orphaned_secrets : List SecretObject → W → W
  unfolding cleanup_orphaned_secret
  cleanup_orphaned_secrets [] w = w
  cleanup_orphaned_secrets (secret ∷ rest) w =
      cleanup_orphaned_secrets rest (cleanup_orphaned_secret secret w)

  unfoldable pub cleanup_listed_secrets : W → W
  unfolding cleanup_orphaned_secrets
  cleanup_listed_secrets w =
      let (secrets, w1) = c.list_all_secrets ((label_purpose, "secret-values") ∷ []) w in
      elim secrets [ err _ ↦ w1 | ok xs ↦ cleanup_orphaned_secrets xs w1 ]

  -- The first pod with the name of the kapp controller is deleted.
  unfoldable pub restart_pods : List String → W → W
  restart_pods [] w = w
  restart_pods (pod ∷ rest) w =
      let others = restart_pods rest w in
      if has_prefix "kapp-controller" pod then (c.delete_pod pod w).1 else others

  unfoldable pub restart_kapp_controller : Duration → W → W
  unfolding restart_pods
  restart_kapp_controller interval w =
      let (now, w1) = c.now w in
      let (later, w2) = c.now w1 in
      let w3 = c.set_last_update later w2 in
      let (pods, w4) = c.list_pods "hub-controller" w3 in
      if ltb interval minute
      then w
      else if ltb now (c.last_update w + interval)
      then w1
      else elim pods [ err _ ↦ w4 | ok xs ↦ restart_pods xs w4 ]

  unfoldable pub cleanup_all : Duration → W → W
  unfolding cleanup_cluster_bom_sync_object cleanup_listed_secrets restart_kapp_controller
  cleanup_all interval w =
      let (boms, w1) = c.list_boms w in
      elim boms [
        | err _ ↦ w1
        | ok xs ↦
            restart_kapp_controller interval
              (cleanup_listed_secrets (cleanup_cluster_bom_sync_object xs w1))
      ]
