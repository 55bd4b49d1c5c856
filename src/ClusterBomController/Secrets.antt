-- ===== src/ClusterBomController/Secrets.antt =====
-- The clean-up of the secrets that hold the values of applications (clusterbom_controller.go).
use potter_controller.Prelude.{
  Bool, List, Map, Option, String, [], any, if◌then◌else◌, ltb, none, some, ◌+◌, ◌==◌, ◌||◌, ◌∷◌,
}
use potter_controller.Api.{ApiError, ApplicationConfig, NamedSecretValues, hour}
use potter_controller.ClusterBomController.Calls.{
  BomControllerClient, SecretObject, delete_marked_secret,
}

unfoldable pub is_contained_in_named_secrets : Map NamedSecretValues → String → Bool
is_contained_in_named_secrets values name =
    any (λ (v : String × NamedSecretValues). v.1.internal_secret_name == name) values

-- The body of the inner loop, for one application.
unfoldable pub uses_secret : String → ApplicationConfig → Bool
unfolding is_contained_in_named_secrets
uses_secret name app =
    let named = is_contained_in_named_secrets app.named_secret_values name in
    elim app.secret_values [ none ↦ named | some v ↦ v.internal_secret_name == name || named ]

unfoldable pub is_used : List ApplicationConfig → SecretObject → Bool
unfolding uses_secret
is_used apps secret = any (uses_secret secret.meta.name) apps

module _ {W : Type 0} (c : BomControllerClient W) where
  -- The error of the deletion is dropped.
  unfoldable pub cleanup_secret : List ApplicationConfig → SecretObject → W → W
  unfolding is_used delete_marked_secret
  cleanup_secret apps secret w =
      let (now, w1) = c.now w in
      let (_, w2) = delete_marked_secret c secret w1 in
      if is_used apps secret
      then w
      else if ltb (secret.meta.creation_timestamp + hour) now
      then w2
      else w1

  unfoldable pub cleanup_secrets : List ApplicationConfig → List SecretObject → W → W
  unfolding cleanup_secret
  cleanup_secrets apps [] w = w
  cleanup_secrets apps (secret ∷ rest) w = cleanup_secrets apps rest (cleanup_secret apps secret w)

  unfoldable pub cleanup_all_secrets : List SecretObject → W → Option ApiError × W
  unfolding delete_marked_secret
  cleanup_all_secrets [] w = (none, w)
  cleanup_all_secrets (secret ∷ rest) w =
      let (e, w1) = delete_marked_secret c secret w in
      let others = cleanup_all_secrets rest w1 in elim e [ some x ↦ (some x, w1) | none ↦ others ]
