-- ===== src/StateController/Ready/Sound.antt =====
-- What a ready condition of status True promises.
use mathlib.Core.Path.{subst}
use potter_controller.Prelude.{
  >>=-eq-some, All, Bool, Bool-cases, List, Option, String, [], ap, arith, false, if◌then◌else◌,
  inl, inr, is_some, none, not, refl, some, some_inj, sym, true, ◌||◌, ◌∙◌, ◌∷◌, ◌≡◌, ◌⊎◌,
}
use potter_controller.Api.{
  ApplicationConfig, ClusterBom, ClusterBomCondition, Condition, DeployItem,
  HubDeployItemProviderStatus, Json, Time, condition_true, hub_deployment_ready, operation_remove,
}
use potter_controller.ControllerUtil.{
  find_app_deployment_config_in_list, find_deploy_item_in_list, is_equal_config,
}
use potter_controller.StateController.Ready.Defs.{
  Progress, adapt_all, adapt_condition_status, adapt_configs, adapt_existing, adapt_orphan,
  adapt_orphans, compute_cluster_bom_ready_condition, count_pending, count_status, ready_condition,
  ready_status, start,
}
use potter_controller.StateController.States.{
  get_app_config_id_from_deploy_item, is_remove, read_provider_status,
}
use potter_controller.StateController.Statistics.{Statistics}
use potter_controller.Util.Condition.{
  get_deploy_item_condition, get_deploy_item_condition_status, is_false, is_unknown,
  worse_condition_status,
}

-- Neither failed nor pending so far.
abbrev Good : Progress → Type 0
Good p = (is_false p.status || is_unknown p.status) ≡ false

-- The application is deployed as its config says, and ready.
pub record IsDeployed (json : Json) (items : List DeployItem) (app : ApplicationConfig)
    : Type 0 where
  pub item : DeployItem
  pub found : find_deploy_item_in_list items app.id ≡ some item
  pub equal : is_equal_config json app item ≡ some true
  pub current : item.meta.generation ≡ item.status.observed_generation
  pub ready : ready_status item ≡ condition_true

-- The deploy item has an application config, or its removal is done.
pub record IsRemoved (json : Json) (item : DeployItem) : Type 0 where
  pub status : HubDeployItemProviderStatus
  pub read : read_provider_status json item ≡ some status
  pub removed : status.last_operation.operation ≡ operation_remove
  pub ready : ready_status item ≡ condition_true

abbrev pub IsSettled : Json → List ApplicationConfig → DeployItem → Type 0
IsSettled json configs item =
    (is_some (find_app_deployment_config_in_list configs (get_app_config_id_from_deploy_item item))
      ≡ true)
    ⊎ IsRemoved json item

not-Good-count_pending : (id : String) (p : Progress) → ¬ Good (count_pending id p)
unfolding count_pending worse_condition_status
not-Good-count_pending id p h = ground arith

-- The status of a condition is True, False or Unknown.
Good-count_status :
    (id : String) (o : Option Condition) (p : Progress)
    → Good (count_status id (get_deploy_item_condition_status o) p)
    → Good p × (get_deploy_item_condition_status o ≡ condition_true)
unfolding count_status worse_condition_status get_deploy_item_condition_status
Good-count_status id o p h = ground arith

Good-adapt_existing :
    (json : Json) (app : ApplicationConfig) (item : DeployItem) (p q : Progress)
    → adapt_existing json app item p ≡ some q
    → Good q
    → Good p
      × (is_equal_config json app item ≡ some true)
      × (item.meta.generation ≡ item.status.observed_generation)
      × (ready_status item ≡ condition_true)
unfolding adapt_existing
Good-adapt_existing json app item p q h g = ground (
  arith,
  not-Good-count_pending app.id p,
  Good-count_status app.id (get_deploy_item_condition item hub_deployment_ready) p,
)

Good-adapt :
    (json : Json) (items : List DeployItem) (app : ApplicationConfig) (o : Option DeployItem)
    (p q : Progress)
    → find_deploy_item_in_list items app.id ≡ o
    → adapt_condition_status json app o p ≡ some q
    → Good q
    → Good p × IsDeployed json items app
unfolding adapt_condition_status
Good-adapt json items app none p q f h g =
    absurd (not-Good-count_pending app.id p (subst Good (sym (some_inj h)) g))
Good-adapt json items app (some item) p q f h g =
    let (good, equal, current, ready) = Good-adapt_existing json app item p q h g in
    (good, record { item = item; found = f; equal = equal; current = current; ready = ready })

Good-configs :
    (json : Json) (items : List DeployItem) (configs : List ApplicationConfig) (p q : Progress)
    → adapt_configs json items configs p ≡ some q
    → Good q
    → Good p × All (IsDeployed json items) configs
unfolding adapt_configs
Good-configs json items [] p q h g = (subst Good (sym (some_inj h)) g, tt)
Good-configs json items (app ∷ rest) p q h g =
    let o = find_deploy_item_in_list items app.id in
    let (r, e, more) = >>=-eq-some (adapt_condition_status json app o p) _ h in
    let (good, deployed) = Good-configs json items rest r q more g in
    let (good', first) = Good-adapt json items app o p r refl e good in (good', (first, deployed))

Good-orphan_status :
    (id : String) (item : DeployItem) (s : HubDeployItemProviderStatus) (p q : Progress)
    → (if not (is_remove s.last_operation.operation)
        then some (count_pending id p)
        else some (count_status id (ready_status item) p))
      ≡ some q
    → Good q
    → Good p
      × (s.last_operation.operation ≡ operation_remove)
      × (ready_status item ≡ condition_true)
Good-orphan_status id item s p q h g = ground (
  arith,
  not-Good-count_pending id p,
  Good-count_status id (get_deploy_item_condition item hub_deployment_ready) p,
)

Good-orphan :
    (json : Json) (configs : List ApplicationConfig) (item : DeployItem) (p q : Progress)
    → adapt_orphan json configs item p ≡ some q
    → Good q
    → Good p × IsSettled json configs item
unfolding adapt_orphan
Good-orphan json configs item p q h g = elim (Bool-cases known) [
  | inl e ↦ ground arith
  | inr e ↦
      let (s, read, next) = >>=-eq-some (read_provider_status json item) _ (rw e at h) in
      let (good, removed, ready) = Good-orphan_status id item s p q next g in
      (good, inr (record { status = s; read = read; removed = removed; ready = ready }))
]
  where
    id : String
    id = get_app_config_id_from_deploy_item item

    known : Bool
    known = is_some (find_app_deployment_config_in_list configs id)

Good-orphans :
    (json : Json) (configs : List ApplicationConfig) (items : List DeployItem) (p q : Progress)
    → adapt_orphans json configs items p ≡ some q
    → Good q
    → Good p × All (IsSettled json configs) items
unfolding adapt_orphans
Good-orphans json configs [] p q h g = (subst Good (sym (some_inj h)) g, tt)
Good-orphans json configs (item ∷ rest) p q h g =
    let (r, e, more) = >>=-eq-some (adapt_orphan json configs item p) _ h in
    let (good, settled) = Good-orphans json configs rest r q more g in
    let (good', first) = Good-orphan json configs item p r e good in (good', (first, settled))

-- When the ready condition of a clusterbom is computed to True, every application config has a deploy
-- item whose configuration equals it, whose generation is the observed one and whose ready condition
-- is True; and every deploy item without an application config has been removed: its last operation
-- is `remove`, and its ready condition is True.
pub ready_true_sound :
    (json : Json) (now : Time) (items : List DeployItem) (bom : ClusterBom)
    (c : ClusterBomCondition) (stat : Statistics)
    → compute_cluster_bom_ready_condition json now items bom ≡ some (c, stat)
    → c.status ≡ condition_true
    → All (IsDeployed json items) bom.spec.application_configs
      × All (IsSettled json bom.spec.application_configs) items
unfolding compute_cluster_bom_ready_condition adapt_all ready_condition
ready_true_sound json now items bom c stat h t =
    let (p, e, same) = >>=-eq-some (adapt_all json items bom) _ h in
    let (r, configs, orphans) =
      >>=-eq-some (adapt_configs json items bom.spec.application_configs start) _ e in
    let good : Good p =
      subst (λ s. (is_false s || is_unknown s) ≡ false)
        (sym (ap (λ (x : ClusterBomCondition × Statistics). x.0.status) (some_inj same) ∙ t))
        refl in
    let (good', settled) = Good-orphans json bom.spec.application_configs items r p orphans good in
    ((Good-configs json items bom.spec.application_configs start r configs good').1, settled)
