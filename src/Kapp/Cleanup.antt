-- ===== src/Kapp/Cleanup.antt =====
-- `Cleanup` and `installOrUpdate` of the kapp deployer.
use potter_controller.Prelude.{
  Bool, Option, [], if◌then◌else◌, is_some, none, some, suc, zero, ℕ, ◌*◌,
}
use potter_controller.Api.{ApiError, NamespacedName, err, not_found, ok, other_error, second}
use potter_controller.Kapp.App.{App, AppSpec}
use potter_controller.Kapp.Pause.{KappClient}

module _ {W : Type 0} (c : KappClient W) where
  -- The loop that waits for the deletion, at most `rounds` times three seconds.
  unfoldable pub wait_until_gone : NamespacedName → ℕ → W → Option ApiError × W
  wait_until_gone key zero w =
      (some (other_error "kapp controller app resource not removed within sleep period"), w)
  wait_until_gone key (suc rounds) w =
      let (r, w1) = c.get_app key (c.sleep (3 * second) w) in
      let again = wait_until_gone key rounds w1 in
      elim r [ ok _ ↦ again | err not_found ↦ (none, w1) | err e ↦ (some e, w1) ]

  -- From the test of the deletion timestamp on.
  unfoldable pub delete_and_wait : NamespacedName → App → W → Option ApiError × W
  unfolding wait_until_gone
  delete_and_wait key app w =
      let (e, w1) = c.delete_app app w in
      if is_some app.meta.deletion_timestamp
      then wait_until_gone key 5 w
      else elim e [ some x ↦ (some x, w1) | none ↦ wait_until_gone key 5 w1 ]

  -- The cluster is gone: the app loses its finalizers, and is read again.
  unfoldable pub free_and_delete : NamespacedName → App → W → Option ApiError × W
  unfolding delete_and_wait
  free_and_delete key app w =
      let (e, w1) = c.update_app (record app { meta = record app.meta { finalizers = [] } }) w in
      let (r, w2) = c.get_app key w1 in
      elim e [
        | some x ↦ (some x, w1)
        | none ↦ elim r [
          | ok freed ↦ delete_and_wait key freed w2
          | err not_found ↦ (none, w2)
          | err x ↦ (some x, w2)
        ]
      ]

  unfoldable pub cleanup_app : NamespacedName → Bool → W → Option ApiError × W
  unfolding free_and_delete delete_and_wait
  cleanup_app key cluster_exist w =
      let (r, w1) = c.get_app key w in
      elim r [
        | err not_found ↦ (none, w1)
        | err e ↦ (some e, w1)
        | ok app ↦ if cluster_exist then delete_and_wait key app w1 else free_and_delete key app w1
      ]

  -- A new app has the spec and nothing else.
  abbrev pub new_app : NamespacedName → AppSpec → App
  new_app key spec = record {
    meta = record {
      name = key.name;
      namespace = key.namespace;
      generation = 0;
      creation_timestamp = 0;
      deletion_timestamp = none;
      labels = [];
      annotations = [];
      finalizers = [];
    };
    spec = spec;
    status = record {
      observed_generation = 0;
      conditions = [];
      deploy_exit_code = none;
      fetch_exit_code = none;
      inspect_exit_code = none;
      template_exit_code = none;
    };
  }

  unfoldable pub install_or_update : NamespacedName → AppSpec → W → Option ApiError × W
  install_or_update key spec w =
      let (r, w1) = c.get_app key w in
      elim r [
        | ok app ↦ c.update_app (record app { spec = spec }) w1
        | err not_found ↦ c.create_app (new_app key spec) w1
        | err e ↦ (some e, w1)
      ]
