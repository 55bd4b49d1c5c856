-- ===== src/StateController/Overall.antt =====
-- Laws of the overall state, of the progress, and of the reachability condition.
use potter_controller.Prelude.{
  >>=-eq-some, List, [], any, ap, arith, false, map, refl, some, some_inj, sym, ◌>>=◌, ◌↔◌, ◌∙◌,
  ◌∷◌, ◌≡◌,
}
use potter_controller.Api.{
  ApplicationState, DeployItem, HubDeployItemProviderStatus, Json, State, Time, state_ok,
}
use potter_controller.Deploy.WorseState.{
  is_failed, is_finally_failed, is_pending, is_state_unknown, worse_state, worse_state-ok,
  worse_state-worst_of, worse_state_idem, worse_state_ok_ok, worst_of,
}
use potter_controller.StateController.States.{
  application_state, compute_application_states, compute_overall_state, compute_state,
  read_provider_status, state_of, worsen,
}

worsen-eq-worst_of :
    (a : State) (l : List ApplicationState)
    → worse_state a state_ok ≡ a
    → worsen a l ≡ worse_state a (worst_of (map (λ (s : ApplicationState). s.state) l))
unfolding worsen
worsen-eq-worst_of a [] h = sym h
worsen-eq-worst_of a (s ∷ l) h =
    worsen-eq-worst_of (worse_state a s.state) l (worse_state_idem a s.state)
    ∙ worse_state-worst_of a s.state (map (λ (s : ApplicationState). s.state) l)

-- The overall state of a clusterbom is the worst of the states of its applications: the first of
-- finally failed, failed, unknown and pending that occurs, whatever the order of the applications,
-- and `ok` if none of these occurs.
pub overall_state_is_worst :
    (states : List ApplicationState)
    → compute_overall_state states ≡ worst_of (map (λ (s : ApplicationState). s.state) states)
unfolding compute_overall_state
overall_state_is_worst states =
    worsen-eq-worst_of state_ok states (worse_state_ok_ok)
    ∙ worse_state-ok (map (λ (s : ApplicationState). s.state) states)

-- No deploy item has the state finally failed: a readiness that finally failed is reported as failed.
state_of-not_finally_failed :
    (item : DeployItem) (s : HubDeployItemProviderStatus)
    → is_finally_failed (state_of item s) ≡ false
unfolding state_of
state_of-not_finally_failed item s = ground arith

application_state-not_finally_failed :
    (json : Json) (now : Time) (item : DeployItem) (a : ApplicationState)
    → application_state json now item ≡ some a
    → is_finally_failed a.state ≡ false
unfolding application_state compute_state
application_state-not_finally_failed json now item a h =
    let (s, e, rest) = >>=-eq-some (read_provider_status json item) _ h in
    let (state, e', same) =
      >>=-eq-some (read_provider_status json item >>= λ s. some (state_of item s)) _ rest in
    let (s', _, same') =
      >>=-eq-some (read_provider_status json item) (λ s. some (state_of item s)) e' in
    rw (← ap (λ (a : ApplicationState). a.state) (some_inj same), ← some_inj same')
      (state_of-not_finally_failed item s')

states-none_finally_failed :
    (json : Json) (now : Time) (items : List DeployItem) (states : List ApplicationState)
    → compute_application_states json now items ≡ some states
    → any is_finally_failed (map (λ (s : ApplicationState). s.state) states) ≡ false
unfolding compute_application_states
states-none_finally_failed json now [] states h = rw (← some_inj h) refl
states-none_finally_failed json now (item ∷ rest) states h =
    let (a, e, more) = >>=-eq-some (application_state json now item) _ h in
    let (later, e', same) = >>=-eq-some (compute_application_states json now rest) _ more in
    rw (
      ← some_inj same,
      application_state-not_finally_failed json now item a e,
      states-none_finally_failed json now rest later e',
    )

-- A published overall state is `ok` exactly when no application is failed, unknown or pending: the
-- computed states never hold `finallyFailed`.
overall_state_ok_iff :
    (json : Json) (now : Time) (items : List DeployItem) (states : List ApplicationState)
    → compute_application_states json now items ≡ some states
    → let l = map (λ (s : ApplicationState). s.state) states in
      (compute_overall_state states ≡ state_ok)
      ↔ ((any is_failed l ≡ false) × (any is_state_unknown l ≡ false) × (any is_pending l ≡ false))
overall_state_ok_iff json now items states h =
    ground
      (arith, overall_state_is_worst states, states-none_finally_failed json now items states h)
