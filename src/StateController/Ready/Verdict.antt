-- ===== src/StateController/Ready/Verdict.antt =====
-- The ready condition agrees with the statistics that it is published with.
use mathlib.Core.Path.{subst}
use potter_controller.Prelude.{
  >>=-eq-some, List, Option, String, [], arith, if◌then◌else◌, is_empty-append_one, is_some, length,
  none, refl, some, some_inj, ℕ, ◌++◌, ◌+◌, ◌==◌, ◌∷◌, ◌≡◌,
}
use potter_controller.Api.{
  ApplicationConfig, ClusterBom, ClusterBomCondition, ConditionStatus, DeployItem, Json, Time,
}
use potter_controller.ControllerUtil.{find_app_deployment_config_in_list, find_deploy_item_in_list}
use potter_controller.StateController.Ready.Defs.{
  Progress, adapt_all, adapt_condition_status, adapt_configs, adapt_existing, adapt_orphan,
  adapt_orphans, compute_cluster_bom_ready_condition, count_pending, count_status, ready_condition,
  ready_status, start,
}
use potter_controller.StateController.States.{get_app_config_id_from_deploy_item}
use potter_controller.StateController.Statistics.{Statistics, status_of}

-- The status of the condition is the one that the lists call for.
abbrev pub Agrees : Progress → Type 0
Agrees p = p.status ≡ status_of p.stat

Agrees-count_pending : (id : String) (p : Progress) → Agrees p → Agrees (count_pending id p)
unfolding count_pending
Agrees-count_pending id p h = ground (arith, is_empty-append_one p.stat.pending_apps id)

Agrees-count_status :
    (id : String) (s : ConditionStatus) (p : Progress) → Agrees p → Agrees (count_status id s p)
unfolding count_status
Agrees-count_status id s p h =
    ground
      (arith, is_empty-append_one p.stat.pending_apps id, is_empty-append_one p.stat.failed_apps id)

-- The sum of a weight over a list of ids.
abbrev pub total : (String → ℕ) → List String → ℕ
total f [] = 0
total f (id ∷ ids) = f id + total f ids

total-append_one :
    (f : String → ℕ) (ids : List String) (id : String)
    → total f (ids ++ id ∷ []) ≡ f id + total f ids
total-append_one f [] id = refl
total-append_one f (x ∷ xs) id = omega (arith, total-append_one f xs id)

pub total-one : (ids : List String) → total (λ _. 1) ids ≡ length ids
total-one [] = refl
total-one (x ∷ xs) = omega (arith, total-one xs)

-- How often an id is in a list.
abbrev pub times : String → List String → ℕ
times id = total (λ x. if x == id then 1 else 0)

-- The ids of the deploy items with no application config.
abbrev pub orphan_ids : List ApplicationConfig → List DeployItem → List String
orphan_ids configs [] = []
orphan_ids configs (item ∷ rest) =
    let others = orphan_ids configs rest in
    if is_some
      (find_app_deployment_config_in_list configs (get_app_config_id_from_deploy_item item))
    then others
    else get_app_config_id_from_deploy_item item ∷ others

abbrev pub config_ids : List ApplicationConfig → List String
config_ids [] = []
config_ids (app ∷ rest) = app.id ∷ config_ids rest

module _ (f : String → ℕ) where
  -- The weight of the applications counted, in whichever list they are.
  abbrev pub weight : Statistics → ℕ
  weight s = total f s.failed_apps + total f s.pending_apps + total f s.successful_apps

  abbrev counted : Progress → ℕ
  counted p = weight p.stat

  counted-count_pending :
      (id : String) (p : Progress) → counted (count_pending id p) ≡ f id + counted p
  unfolding count_pending
  counted-count_pending id p = omega (arith, total-append_one f p.stat.pending_apps id)

  counted-count_status :
      (id : String) (s : ConditionStatus) (p : Progress)
      → counted (count_status id s p) ≡ f id + counted p
  unfolding count_status
  counted-count_status id s p = ground (
    arith,
    total-append_one f p.stat.pending_apps id,
    total-append_one f p.stat.failed_apps id,
    total-append_one f p.stat.successful_apps id,
  )

  -- A step that keeps the agreement and counts applications of the weight `n` more.
  record Counts (n : ℕ) (p q : Progress) : Type 0 where
    agrees : Agrees p → Agrees q
    more : counted q ≡ n + counted p

  Counts-pending : (id : String) (p : Progress) → Counts (f id) p (count_pending id p)
  Counts-pending id p = record {
    agrees = Agrees-count_pending id p;
    more = counted-count_pending id p;
  }

  Counts-status :
      (id : String) (s : ConditionStatus) (p : Progress) → Counts (f id) p (count_status id s p)
  Counts-status id s p = record {
    agrees = Agrees-count_status id s p;
    more = counted-count_status id s p;
  }

  Counts-adapt_existing :
      (json : Json) (app : ApplicationConfig) (item : DeployItem) (p : Progress) {q : Progress}
      → adapt_existing json app item p ≡ some q
      → Counts (f app.id) p q
  unfolding adapt_existing
  Counts-adapt_existing json app item p {q} h =
      ground (arith, Counts-pending app.id p, Counts-status app.id (ready_status item) p)

  Counts-adapt :
      (json : Json) (app : ApplicationConfig) (item : Option DeployItem) (p : Progress)
      {q : Progress}
      → adapt_condition_status json app item p ≡ some q
      → Counts (f app.id) p q
  unfolding adapt_condition_status
  Counts-adapt json app none p h =
      subst (Counts (f app.id) p) (some_inj h) (Counts-pending app.id p)
  Counts-adapt json app (some item) p h = Counts-adapt_existing json app item p h

  Counts-refl : (p : Progress) → Counts 0 p p
  Counts-refl p = record { agrees = λ h. h; more = omega arith }

  Counts-trans : {m n : ℕ} {p q r : Progress} → Counts m p q → Counts n q r → Counts (m + n) p r
  Counts-trans a b = record {
    agrees = λ h. b.agrees (a.agrees h);
    more = omega (arith, a.more, b.more);
  }

  Counts-configs :
      (json : Json) (items : List DeployItem) (configs : List ApplicationConfig) (p : Progress)
      {q : Progress}
      → adapt_configs json items configs p ≡ some q
      → Counts (total f (config_ids configs)) p q
  unfolding adapt_configs
  Counts-configs json items [] p h = subst (Counts 0 p) (some_inj h) (Counts-refl p)
  Counts-configs json items (app ∷ rest) p {q} h =
      let (r, e, more) =
        >>=-eq-some (adapt_condition_status json app (find_deploy_item_in_list items app.id) p) _
          h in
      Counts-trans (Counts-adapt json app _ p e) (Counts-configs json items rest r more)

  Counts-orphan :
      (json : Json) (configs : List ApplicationConfig) (item : DeployItem) (p : Progress)
      {q : Progress}
      → adapt_orphan json configs item p ≡ some q
      → Counts (total f (orphan_ids configs (item ∷ []))) p q
  unfolding adapt_orphan
  Counts-orphan json configs item p {q} h = ground (
    arith,
    Counts-refl p,
    Counts-pending (get_app_config_id_from_deploy_item item) p,
    Counts-status (get_app_config_id_from_deploy_item item) (ready_status item) p,
  )

  total-orphan_ids :
      (configs : List ApplicationConfig) (item : DeployItem) (rest : List DeployItem)
      → total f (orphan_ids configs (item ∷ rest))
        ≡ total f (orphan_ids configs (item ∷ [])) + total f (orphan_ids configs rest)
  total-orphan_ids configs item rest = ground arith

  Counts-orphans :
      (json : Json) (configs : List ApplicationConfig) (items : List DeployItem) (p : Progress)
      {q : Progress}
      → adapt_orphans json configs items p ≡ some q
      → Counts (total f (orphan_ids configs items)) p q
  unfolding adapt_orphans
  Counts-orphans json configs [] p h = subst (Counts 0 p) (some_inj h) (Counts-refl p)
  Counts-orphans json configs (item ∷ rest) p {q} h =
      let (r, e, more) = >>=-eq-some (adapt_orphan json configs item p) _ h in
      rw (total-orphan_ids configs item rest) (
        Counts-trans (Counts-orphan json configs item p e)
          (Counts-orphans json configs rest r more))

  Counts-all :
      (json : Json) (items : List DeployItem) (bom : ClusterBom) {q : Progress}
      → adapt_all json items bom ≡ some q
      → Counts
          (total f (config_ids bom.spec.application_configs)
            + total f (orphan_ids bom.spec.application_configs items))
          start
          q
  unfolding adapt_all
  Counts-all json items bom h =
      let (r, e, more) =
        >>=-eq-some (adapt_configs json items bom.spec.application_configs start) _ h in
      Counts-trans (Counts-configs json items _ start e) (Counts-orphans json _ items r more)

  pub weight-computed :
      (json : Json) (now : Time) (items : List DeployItem) (bom : ClusterBom)
      (c : ClusterBomCondition) (stat : Statistics)
      → compute_cluster_bom_ready_condition json now items bom ≡ some (c, stat)
      → (c.type ≡ "Ready")
        × (c.status ≡ status_of stat)
        × (weight stat
            ≡ total f (config_ids bom.spec.application_configs)
              + total f (orphan_ids bom.spec.application_configs items))
  unfolding compute_cluster_bom_ready_condition
  weight-computed json now items bom c stat h =
      let (p, e, same) = >>=-eq-some (adapt_all json items bom) _ h in
      let counts = Counts-all json items bom e in
      let pair : ◌≡◌ {A = ClusterBomCondition × Statistics} (ready_condition now bom p, p.stat)
          (c, stat) =
        some_inj same in
      ground (arith, counts.agrees refl, counts.more)

-- When the ready condition of a clusterbom is computed without an error: its type is Ready, and its
-- status is the one that the failed and pending lists call for (False if an application failed, else
-- Unknown if one is pending, else True); and each id is as often in the three lists of failed, pending
-- and successful applications as it is the id of an application config or of a deploy item without one.
pub ready_condition_agrees :
    (json : Json) (now : Time) (items : List DeployItem) (bom : ClusterBom)
    (c : ClusterBomCondition) (stat : Statistics)
    → compute_cluster_bom_ready_condition json now items bom ≡ some (c, stat)
    → (c.type ≡ "Ready")
      × (c.status ≡ status_of stat)
      × ((id : String)
          → times id stat.failed_apps + times id stat.pending_apps + times id stat.successful_apps
            ≡ times id (config_ids bom.spec.application_configs)
              + times id (orphan_ids bom.spec.application_configs items))
ready_condition_agrees json now items bom c stat h =
    let (type, status, _) = weight-computed (λ _. 1) json now items bom c stat h in
    (
      type,
      status,
      λ id. (weight-computed (λ x. if x == id then 1 else 0) json now items bom c stat h).2,
    )
