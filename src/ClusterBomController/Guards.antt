-- ===== src/ClusterBomController/Guards.antt =====
-- What the clusterbom controller leaves alone: secrets in use, and clusterboms that still have deploy
-- items.
use potter_controller.Prelude.{
  List, Option, [], false, if_lem, is_empty, ltb, ltb→lt, none, some, ◌+◌, ◌<◌, ◌∷◌, ◌≡◌,
}
use potter_controller.Api.{ApiError, ApplicationConfig, ClusterBom, DeployItem, hour}
use potter_controller.ClusterBomController.Calls.{
  BomControllerClient, SecretObject, delete_marked_secret,
}
use potter_controller.ClusterBomController.Handlers.{handle_cluster_bom_marked_for_deletion}
use potter_controller.ClusterBomController.Items.{delete_deploy_item, delete_deploy_items}
use potter_controller.ClusterBomController.Secrets.{cleanup_secret, cleanup_secrets, is_used}
use potter_controller.DeploymentController.StatusUpdate.{Outcome}
use potter_controller.StateController.States.{is_deleted}

module _ {W : Type 0} (c : BomControllerClient W) where
  cleanup_secret-keeps :
      (P : W → Type 0) (apps : List ApplicationConfig)
      → ((w : W) → P w → P (c.now w).1)
      → ((s : SecretObject) (w : W)
          → is_used apps s ≡ false
          → s.meta.creation_timestamp + hour < (c.now w).0
          → P w
          → P (delete_marked_secret c s (c.now w).1).1)
      → (secret : SecretObject) (w : W) → P w
      → P (cleanup_secret c apps secret w)
  unfolding cleanup_secret
  cleanup_secret-keeps P apps reads deletes secret w p =
      if_lem P (is_used apps secret) (λ _. p)
        λ unused.
          if_lem P (ltb (secret.meta.creation_timestamp + hour) (c.now w).0)
            (λ old.
              deletes secret w unused
                (ltb→lt (secret.meta.creation_timestamp + hour) (c.now w).0 old) p)
            (λ _. reads w p)

  -- Whatever holds in the world, and is kept by reading the clock, and by reading the clock and deleting
  -- a secret that no application uses and that was created more than an hour before the time that was
  -- read, is kept by the clean-up of the secrets: it does nothing else.
  pub cleanup_keeps_used :
      (P : W → Type 0) (apps : List ApplicationConfig)
      → ((w : W) → P w → P (c.now w).1)
      → ((s : SecretObject) (w : W)
          → is_used apps s ≡ false
          → s.meta.creation_timestamp + hour < (c.now w).0
          → P w
          → P (delete_marked_secret c s (c.now w).1).1)
      → (secrets : List SecretObject) (w : W) → P w
      → P (cleanup_secrets c apps secrets w)
  unfolding cleanup_secrets
  cleanup_keeps_used P apps reads deletes [] w p = p
  cleanup_keeps_used P apps reads deletes (s ∷ rest) w p =
      cleanup_keeps_used P apps reads deletes rest (cleanup_secret c apps s w)
        (cleanup_secret-keeps P apps reads deletes s w p)

  delete_deploy_item-keeps :
      (P : W → Type 0)
      → ((x : DeployItem) (w : W) → is_deleted x.meta ≡ false → P w → P (c.delete_item x w).1)
      → (x : DeployItem) (w : W) → P w
      → P (delete_deploy_item c x w).1
  unfolding delete_deploy_item
  delete_deploy_item-keeps P deletes x w p =
      if_lem (λ (r : Option ApiError × W). P r.1) (is_deleted x.meta) (λ _. p) λ e. deletes x w e p

  -- The end of a loop that stops at the first error.
  first_error_keeps :
      (P : W → Type 0) (r s : Option ApiError × W)
      → P r.1
      → P s.1
      → let stopped : Option ApiError × W = elim r.0 [ some x ↦ (some x, r.1) | none ↦ s ] in
        P stopped.1
  first_error_keeps P (none, w) s p q = q
  first_error_keeps P (some e, w) s p q = p

  delete_deploy_items-keeps :
      (P : W → Type 0)
      → ((x : DeployItem) (w : W) → is_deleted x.meta ≡ false → P w → P (c.delete_item x w).1)
      → (items : List DeployItem) (w : W) → P w
      → P (delete_deploy_items c items w).1
  unfolding delete_deploy_items
  delete_deploy_items-keeps P deletes [] w p = p
  delete_deploy_items-keeps P deletes (x ∷ xs) w p =
      let p1 = delete_deploy_item-keeps P deletes x w p in
      let w1 = (delete_deploy_item c x w).1 in
      first_error_keeps P (delete_deploy_item c x w) (delete_deploy_items c xs w1) p1
        (delete_deploy_items-keeps P deletes xs w1 p1)

  -- While a clusterbom that is marked for deletion has a deploy item, its handler only asks for the
  -- deletion of items that are not being deleted: whatever each such call keeps, the handler keeps, and
  -- neither the clusterbom with its finalizers nor a secret is written.
  pub finalizer_kept_while_items :
      (P : W → Type 0)
      → ((x : DeployItem) (w : W) → is_deleted x.meta ≡ false → P w → P (c.delete_item x w).1)
      → (bom : ClusterBom) (items : List DeployItem) (secrets : List SecretObject) (w : W)
      → is_empty items ≡ false
      → P w
      → P (handle_cluster_bom_marked_for_deletion c bom items secrets w).1
  unfolding handle_cluster_bom_marked_for_deletion
  finalizer_kept_while_items P deletes bom items secrets w h p =
      if_lem (λ (r : Outcome × W). P r.1) (is_empty bom.meta.finalizers) (λ _. p)
        λ _. rw h (delete_deploy_items-keeps P deletes items w p)
