-- ===== src/Deploy/ReadinessLaws.antt =====
-- When the workloads of an application count as ready.
use potter_controller.Prelude.{
  Bool, Bool-cases, List, String, [], ap, arith, false, inl, inr, refl, sym, true, ◌||◌, ◌↔◌, ◌∙◌,
  ◌∷◌, ◌≡◌,
}
use potter_controller.Api.{ApiError, Result, State, err, ok, state_ok}
use potter_controller.Deploy.Readiness.{
  BasicKubernetesObject, Workload, adapt_object, in_namespace, is_resource_ready, object_readiness,
  read_from_target_cluster,
}
use potter_controller.Deploy.WorseState.{
  is_failed, is_finally_failed, is_pending, is_state_unknown, worse_state,
}

-- A state that no later object makes good.
abbrev pub is_bad : State → Bool
is_bad s = is_finally_failed s || is_failed s || is_state_unknown s || is_pending s

adapt_object-bad :
    (r : Result Workload) (s : State) → is_bad s ≡ true → is_bad (adapt_object r s) ≡ true
unfolding adapt_object worse_state
adapt_object-bad (err e) s h = ground (arith, h)
adapt_object-bad (ok x) s h = ground (arith, h)

adapt_err-bad : (e : ApiError) → is_bad (adapt_object (err e) state_ok) ≡ true
unfolding adapt_object worse_state
adapt_err-bad e = refl

adapt_ready : (x : Workload) → is_resource_ready x ≡ true → adapt_object (ok x) state_ok ≡ state_ok
unfolding adapt_object
adapt_ready x h = rw h refl

adapt_unready-bad :
    (x : Workload) → is_resource_ready x ≡ false → is_bad (adapt_object (ok x) state_ok) ≡ true
unfolding adapt_object worse_state
adapt_unready-bad x h = rw h refl

module _ {W : Type 0} (get : BasicKubernetesObject → W → Result Workload × W)
    (namespace : String) where
  -- Each object was read when its turn came, and was ready then.
  abbrev pub AllReady : List BasicKubernetesObject → W → Type 0
  AllReady [] w = Unit
  AllReady (o ∷ os) w =
      ((x : Workload) × ((read_from_target_cluster get (in_namespace namespace o) w).0 ≡ ok x)
        × (is_resource_ready x ≡ true))
      × AllReady os (read_from_target_cluster get (in_namespace namespace o) w).1

  object_readiness-bad :
      (os : List BasicKubernetesObject) (s : State) (w : W)
      → is_bad s ≡ true
      → is_bad (object_readiness get namespace s os w).0 ≡ true
  unfolding object_readiness
  object_readiness-bad [] s w h = h
  object_readiness-bad (o ∷ os) s w h =
      let p = read_from_target_cluster get (in_namespace namespace o) w in
      object_readiness-bad os (adapt_object p.0 s) p.1 (adapt_object-bad p.0 s h)

  not_ok :
      (os : List BasicKubernetesObject) (s : State) (w : W)
      → is_bad s ≡ true
      → (object_readiness get namespace s os w).0 ≡ state_ok
      → ⊥
  not_ok os s w h e = ground (arith, object_readiness-bad os s w h, e)

  -- One object, with what is known of the others.
  object_lem :
      (os : List BasicKubernetesObject) (p : Result Workload × W)
      → (((object_readiness get namespace state_ok os p.1).0 ≡ state_ok) ↔ AllReady os p.1)
      → ((object_readiness get namespace (adapt_object p.0 state_ok) os p.1).0 ≡ state_ok)
        ↔ (((x : Workload) × (p.0 ≡ ok x) × (is_resource_ready x ≡ true)) × AllReady os p.1)
  object_lem os (err e, w) rest = (
    λ h. absurd (not_ok os (adapt_object (err e) state_ok) w (adapt_err-bad e) h),
    λ h. let (x, eq, _) = h.0 in cc,
  )
  object_lem os (ok x, w) rest = elim (Bool-cases (is_resource_ready x)) [
    | inl r ↦
        let same =
          ap (λ (s : State). (object_readiness get namespace s os w).0) (adapt_ready x r) in
        (λ h. ((x, refl, r), rest.0 (sym same ∙ h)), λ h. same ∙ rest.1 h.1)
    | inr r ↦ (
      λ h. absurd (not_ok os (adapt_object (ok x) state_ok) w (adapt_unready-bad x r) h),
      λ h. let (y, eq, ry) = h.0 in cc,
    )
  ]

  -- The readiness of an application's objects is `ok` exactly when each of them was read, and was ready
  -- then.
  pub object_readiness_ok_iff :
      (os : List BasicKubernetesObject) (w : W)
      → ((object_readiness get namespace state_ok os w).0 ≡ state_ok) ↔ AllReady os w
  unfolding object_readiness
  object_readiness_ok_iff [] w = (λ _. tt, λ _. refl)
  object_readiness_ok_iff (o ∷ os) w =
      let p = read_from_target_cluster get (in_namespace namespace o) w in
      object_lem os p (object_readiness_ok_iff os p.1)
