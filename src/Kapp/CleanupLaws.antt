-- ===== src/Kapp/CleanupLaws.antt =====
-- When the deletion of an app is reported as done.
use potter_controller.Prelude.{
  Bool, Option, [], arith, if_lem, if◌then◌else◌, is_some, none, refl, some, suc, zero, ℕ, ◌*◌, ◌≡◌,
}
use potter_controller.Api.{
  ApiError, NamespacedName, Result, conflict, err, not_found, ok, other_error, second,
}
use potter_controller.Kapp.App.{App}
use potter_controller.Kapp.Cleanup.{cleanup_app, delete_and_wait, free_and_delete, wait_until_gone}
use potter_controller.Kapp.Pause.{KappClient}

module _ {W : Type 0} (c : KappClient W) (key : NamespacedName) where
  -- Where there is no error, the app was not found at last.
  abbrev Gone : Option ApiError × W → Type 0
  Gone (e, w) = e ≡ none → (v : W) × (c.get_app key v ≡ (err not_found, w))

  wait_until_gone_lem : (rounds : ℕ) (w : W) → Gone (wait_until_gone c key rounds w)
  unfolding wait_until_gone
  wait_until_gone_lem zero w = λ e. absurd (ground (arith, e))
  wait_until_gone_lem (suc n) w = go (λ w1. wait_until_gone_lem n w1) _ _ refl
    where
      go :
          ((w1 : W) → Gone (wait_until_gone c key n w1))
          → (r : Result App) (w1 : W) → c.get_app key (c.sleep (3 * second) w) ≡ (r, w1)
          → Gone (elim r [
            | ok _ ↦ wait_until_gone c key n w1
            | err not_found ↦ (none, w1)
            | err e ↦ (some e, w1)
          ])
      go rec (ok _) w1 h = rec w1
      go rec (err not_found) w1 h = λ e. (c.sleep (3 * second) w, h)
      go rec (err conflict) w1 h = λ e. absurd (ground (arith, e))
      go rec (err (other_error s)) w1 h = λ e. absurd (ground (arith, e))

  delete_and_wait_lem : (app : App) (w : W) → Gone (delete_and_wait c key app w)
  unfolding delete_and_wait
  delete_and_wait_lem app w =
      if_lem Gone (is_some app.meta.deletion_timestamp) (λ _. wait_until_gone_lem 5 w)
        (λ _. go (c.delete_app app w).0 (c.delete_app app w).1)
    where
      go :
          (e : Option ApiError) (w1 : W)
          → Gone (elim e [ some x ↦ (some x, w1) | none ↦ wait_until_gone c key 5 w1 ])
      go none w1 = wait_until_gone_lem 5 w1
      go (some x) w1 = λ e. absurd (ground (arith, e))

  free_and_delete_lem : (app : App) (w : W) → Gone (free_and_delete c key app w)
  unfolding free_and_delete
  free_and_delete_lem app w =
      go (c.update_app freed w).0 (c.update_app freed w).1
        (c.get_app key (c.update_app freed w).1).0 (c.get_app key (c.update_app freed w).1).1 refl
    where
      freed : App
      freed = record app { meta = record app.meta { finalizers = [] } }

      go :
          (e : Option ApiError) (w1 : W) (r : Result App) (w2 : W)
          → c.get_app key w1 ≡ (r, w2)
          → Gone (elim e [
            | some x ↦ (some x, w1)
            | none ↦ elim r [
              | ok freed ↦ delete_and_wait c key freed w2
              | err not_found ↦ (none, w2)
              | err x ↦ (some x, w2)
            ]
          ])
      go (some x) w1 r w2 h = λ e. absurd (ground (arith, e))
      go none w1 (ok app') w2 h = delete_and_wait_lem app' w2
      go none w1 (err not_found) w2 h = λ e. (w1, h)
      go none w1 (err conflict) w2 h = λ e. absurd (ground (arith, e))
      go none w1 (err (other_error s)) w2 h = λ e. absurd (ground (arith, e))

  -- `Cleanup` of an app, with its cluster there or not: where it ends without an error, the last thing it
  -- did was to ask for the app, which was not found.
  pub cleanup_means_gone :
      (exist : Bool) (w : W)
      → (cleanup_app c key exist w).0 ≡ none
      → (v : W) × (c.get_app key v ≡ (err not_found, (cleanup_app c key exist w).1))
  unfolding cleanup_app
  cleanup_means_gone exist w = go _ _ refl
    where
      go :
          (r : Result App) (w1 : W)
          → c.get_app key w ≡ (r, w1)
          → Gone (elim r [
            | err not_found ↦ (none, w1)
            | err e ↦ (some e, w1)
            | ok app ↦ if exist then delete_and_wait c key app w1 else free_and_delete c key app w1
          ])
      go (ok app) w1 h =
          if_lem Gone exist (λ _. delete_and_wait_lem app w1) (λ _. free_and_delete_lem app w1)
      go (err not_found) w1 h = λ e. (w, h)
      go (err conflict) w1 h = λ e. absurd (ground (arith, e))
      go (err (other_error s)) w1 h = λ e. absurd (ground (arith, e))
