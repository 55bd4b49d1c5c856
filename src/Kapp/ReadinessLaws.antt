-- ===== src/Kapp/ReadinessLaws.antt =====
-- `computeReadiness` reads the App only where there is one.
use potter_controller.Prelude.{
  Option, arith, eqb, false, if_lem, if◌then◌else◌, none, not, refl, some, true, ◌≡◌,
}
use potter_controller.Api.{
  Operation, Result, State, Time, condition_true, condition_unknown, err, ok, operation_install,
  operation_remove, other_operation, state_not_relevant, state_unknown,
}
use potter_controller.Deploy.DeployData.{DeployData, is_delete_operation}
use potter_controller.Deploy.WorseState.{is_finally_failed, is_ok}
use potter_controller.Kapp.App.{App}
use potter_controller.Kapp.Readiness.{
  Attempt, KappSystem, app_readiness, compute_readiness, finished, is_unreachable, observe_app,
  panicked, readiness_state, replace_ready_condition, set_installed, set_phase, set_readiness,
  set_ready_condition, set_type_specific_status,
}

-- A readiness that is ok comes from an App.
abbrev Seen : Option App × DeployData → Type 0
Seen (none, d) = is_ok (readiness_state d) ≡ false
Seen (some _, d) = Unit

abbrev Finishes : Attempt DeployData → Type 0
Finishes a = (d : DeployData) × (a ≡ finished d)

module _ {W O V : Type 0} (k : KappSystem W O V) where
  observe_app_lem : (d : DeployData) (now : Time) (w : W) → Seen (observe_app k d now w).0
  unfolding observe_app set_readiness set_type_specific_status
  observe_app_lem d now w = go d.provider_status.last_operation.operation asked.0 asked.1
    where
      asked : Result App × W
      asked =
          k.client.get_app (record { namespace = d.item.meta.namespace; name = d.item.meta.name }) w

      pick : Operation → Result App → W → (Option App × DeployData) × W
      pick o r w1 = elim o [
        | operation_install ↦ elim r [
          | err _ ↦
              ((none, set_type_specific_status k none (set_readiness d state_unknown now)), w1)
          | ok app ↦ (
            (
              some app,
              set_type_specific_status k (some app)
                  (set_readiness d (app_readiness k app d w1).0 now),
            ),
            (app_readiness k app d w1).1,
          )
        ]
        | operation_remove ↦ (
          (
            elim r [ ok app ↦ some app | err _ ↦ none ],
            set_type_specific_status k (elim r [ ok app ↦ some app | err _ ↦ none ])
                (set_readiness d state_not_relevant now),
          ),
          w1,
        )
        | _ ↦ ((none, set_type_specific_status k none (set_readiness d state_unknown now)), w)
      ]

      go : (o : Operation) (r : Result App) (w1 : W) → Seen (pick o r w1).0
      go operation_install (err _) w1 = refl
      go operation_install (ok app) w1 = _
      go operation_remove (err _) w1 = refl
      go operation_remove (ok app) w1 = _
      go (other_operation s) (err _) w1 = refl
      go (other_operation s) (ok app) w1 = refl

  set_installed_lem :
      (app : Option App) (s : State) (now : Time) (d : DeployData)
      → (app ≡ none → is_ok s ≡ false)
      → Finishes (set_installed k app s now d)
  unfolding set_installed
  set_installed_lem app s now d h =
      if_lem Finishes (is_ok s) (λ good. go app h good)
        (λ _. if_lem Finishes (is_finally_failed s) (λ _. (_, refl)) (λ _. (_, refl)))
    where
      go :
          (a : Option App)
          → (a ≡ none → is_ok s ≡ false)
          → is_ok s ≡ true
          → Finishes (elim a [
            | none ↦ panicked
            | some a ↦ finished (
                if eqb a.meta.generation a.status.observed_generation
                then set_phase k.phase_succeeded
                    (replace_ready_condition condition_true now "Running" "Running" d)
                else set_phase k.phase_progressing (
                    replace_ready_condition condition_unknown now "NotCurrentGeneration"
                      "Not latest version running" d))
          ])
      go none h good = absurd (ground (arith, h refl, good))
      go (some a) h good = (_, refl)

  set_ready_condition_lem :
      (app : Option App) (s : State) (now : Time) (d : DeployData)
      → (app ≡ none → is_ok s ≡ false)
      → Finishes (set_ready_condition k app s now d)
  unfolding set_ready_condition
  set_ready_condition_lem app s now d h =
      if_lem Finishes (is_unreachable d) (λ _. (_, refl))
        (λ _.
          if_lem Finishes (eqb d.item.status.observed_generation 0) (λ _. (_, refl))
            (λ _.
              if_lem Finishes (not (is_delete_operation d))
                (λ _.
                  if_lem Finishes
                    (not (
                      eqb d.item.meta.generation
                        d.provider_status.last_operation.success_generation))
                    (λ _. (_, refl)) (λ _. set_installed_lem app s now d h))
                (λ _. (_, refl))))

  -- `computeReadiness` ends in every world, and reads no App that is nil: where the readiness is ok, the
  -- App was found.
  pub compute_readiness_finishes :
      (d : DeployData) (now : Time) (w : W)
      → (d1 : DeployData) × ((compute_readiness k d now w).0 ≡ finished d1)
  unfolding compute_readiness
  compute_readiness_finishes d now w =
      go (observe_app k d now w).0.0 (observe_app k d now w).0.1 (observe_app_lem d now w)
    where
      go :
          (app : Option App) (d1 : DeployData)
          → Seen (app, d1)
          → Finishes (set_ready_condition k app (readiness_state d1) now d1)
      go none d1 h = set_ready_condition_lem none (readiness_state d1) now d1 (λ _. h)
      go (some a) d1 h =
          set_ready_condition_lem (some a) (readiness_state d1) now d1
            (λ e. absurd (ground (arith, e)))
