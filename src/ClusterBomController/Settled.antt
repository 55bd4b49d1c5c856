-- ===== src/ClusterBomController/Settled.antt =====
-- The loop over the application configs against an abstract store: a map from the ids of the applications
-- to the type and the configuration of their deploy items.
use text.Mathlib.TextEquality.{eq_iff}
use potter_controller.Prelude.{
  >>=-eq-some, All, Bool, IsMap, List, Option, Option-cases, String, [], ap, arith, false,
  if◌then◌else◌, inl, inr, lookup, none, refl, some, some_inj, sym, true, ◌==◌, ◌>>=◌, ◌∙◌, ◌∷◌,
  ◌≡◌,
}
use potter_controller.Api.{
  ApiError, ApplicationConfig, ClusterBom, DeployItem, Json, NamespacedName, Raw,
}
use potter_controller.ClusterBomController.Calls.{BomControllerClient}
use potter_controller.ClusterBomController.CopyLaws.{
  Retains, RoundTrips, copy_round_trip, normal_requirements, same_ready_requirements_refl,
}
use potter_controller.ClusterBomController.Items.{
  configuration_of, copy_app_config_to_deploy_item, empty_item, handle_app_config, is_av_check_bom,
  update_deploy_item, write_item,
}
use potter_controller.ControllerUtil.{
  equals_config, find_deploy_item_in_list, is_equal_config, same_ready_requirements,
}
use potter_controller.StateController.States.{get_app_config_id_from_deploy_item}

abbrev pub Spec : Type 0
Spec = String × Raw

abbrev pub spec_of : DeployItem → Spec
spec_of item = (item.type, item.configuration)

-- `isEqualConfig` reads nothing else of an item.
abbrev pub is_equal_spec : Json → ApplicationConfig → Spec → Option Bool
is_equal_spec json app (type, raw) = do
  config ← json.unmarshal_configuration raw
  some (equals_config json app type config)

abbrev pub found_spec : Option DeployItem → Option Spec
found_spec none = none
found_spec (some item) = some (spec_of item)

-- After an item was written: under the id in its labels there is an item of its type, whose configuration
-- is the same JSON value, and no other id has changed.
abbrev pub Stores : {W : Type 0} → Json → (W → String → Option Spec) → DeployItem → W → W → Type 0
Stores json stored item w w' =
    ((s : Spec) × (stored w' (get_app_config_id_from_deploy_item item) ≡ some s)
      × (s.0 ≡ item.type)
      × Retains json item.configuration s.1)
    × ((id : String)
        → (get_app_config_id_from_deploy_item item == id) ≡ false
        → stored w' id ≡ stored w id)

-- What the API server promises of the items of one clusterbom that are created or updated without an
-- error.
pub record IsStore {W : Type 0} (c : BomControllerClient W) (json : Json)
    (stored : W → String → Option Spec) : Type 0 where
  pub store_create :
      (item : DeployItem) (w : W)
      → (c.create_item item w).0 ≡ none
      → Stores json stored item w (c.create_item item w).1
  pub store_update :
      (item : DeployItem) (w : W)
      → (c.update_item item w).0 ≡ none
      → Stores json stored item w (c.update_item item w).1

-- The configuration of the application can be encoded and decoded, the keys of its named secrets are
-- distinct, and its ready requirements have no empty slice and success values in their one way of
-- writing.
abbrev pub IsEncodable : Json → ClusterBom → ApplicationConfig → Type 0
IsEncodable json bom app =
    RoundTrips json bom app
    × IsMap app.named_secret_values
    × (normal_requirements json app.ready_requirements ≡ app.ready_requirements)

-- No id is used twice.
abbrev pub DistinctIds : List ApplicationConfig → Type 0
DistinctIds [] = Unit
DistinctIds (app ∷ rest) =
    All (λ (a : ApplicationConfig). (a.id == app.id) ≡ false) rest × DistinctIds rest

id-copied :
    (json : Json) (app : ApplicationConfig) (old item : DeployItem) (bom : ClusterBom)
    → copy_app_config_to_deploy_item json app old bom ≡ some item
    → get_app_config_id_from_deploy_item item ≡ app.id
unfolding copy_app_config_to_deploy_item get_app_config_id_from_deploy_item lookup
id-copied json app old item bom h =
    let (raw, e, e') = >>=-eq-some (json.marshal_configuration (configuration_of app bom)) _ h in
    rw (← some_inj e') refl

find-write_item :
    (items : List DeployItem) (id j : String) (old new : DeployItem)
    → find_deploy_item_in_list items id ≡ some old
    → get_app_config_id_from_deploy_item new ≡ id
    → find_deploy_item_in_list (write_item items id new) j
      ≡ (if id == j then some new else find_deploy_item_in_list items j)
unfolding find_deploy_item_in_list write_item
find-write_item [] id j old new h n = cc
find-write_item (x ∷ xs) id j old new h n = ground (
  arith,
  find-write_item xs id j old new,
  n,
  h,
  eq_iff id j,
  eq_iff j id,
  eq_iff id (get_app_config_id_from_deploy_item x),
  eq_iff j (get_app_config_id_from_deploy_item x),
  eq_iff j (get_app_config_id_from_deploy_item new),
)

module _ {W : Type 0} (c : BomControllerClient W) (json : Json) (av : Option NamespacedName)
    (stored : W → String → Option Spec) where
  -- The application has an item in the store that is equal to it.
  abbrev pub Settled : W → ApplicationConfig → Type 0
  Settled w app = (s : Spec) × (stored w app.id ≡ some s) × (is_equal_spec json app s ≡ some true)

  -- What the list holds for an application is stored.
  abbrev pub Mirrors : List DeployItem → W → ApplicationConfig → Type 0
  Mirrors items w app =
      (x : DeployItem)
      → find_deploy_item_in_list items app.id ≡ some x
      → stored w app.id ≡ some (spec_of x)

  -- A step for one id that ended without an error: the application is settled, and nothing has changed
  -- for another id.
  abbrev pub Settles :
      ApplicationConfig → List DeployItem → W → Option ApiError × List DeployItem × W → Type 0
  Settles app items w (some e, _, _) = Unit
  Settles app items w (none, items', w') =
      Settled w' app
      × ((id : String) → (app.id == id) ≡ false → stored w' id ≡ stored w id)
      × ((id : String)
          → (app.id == id) ≡ false
          → find_deploy_item_in_list items' id ≡ find_deploy_item_in_list items id)

  update_item-plain :
      (item : DeployItem) (bom : ClusterBom) (w : W)
      → is_av_check_bom av bom ≡ false
      → update_deploy_item c json av item bom w ≡ c.update_item item w
  unfolding update_deploy_item
  update_item-plain item bom w h = ground (arith, h)

  module _ (store : IsStore c json stored) (bom : ClusterBom) where
    stored_spec :
        (app : ApplicationConfig) (old item : DeployItem) (s : Spec)
        → IsEncodable json bom app
        → copy_app_config_to_deploy_item json app old bom ≡ some item
        → s.0 ≡ item.type
        → Retains json item.configuration s.1
        → is_equal_spec json app s ≡ some true
    unfolding is_equal_config
    stored_spec app old item s (t, u, normal) h type retains =
        copy_round_trip json app old item (record item { type = s.0; configuration = s.1 }) bom t u
          h type retains
        ∙ ap some (
            ap (same_ready_requirements app.ready_requirements) normal
            ∙ same_ready_requirements_refl app.ready_requirements)

    -- A successful write of the copied item.
    written-Settles :
        (app : ApplicationConfig) (old item : DeployItem) (items items' : List DeployItem)
        (w w' : W)
        → IsEncodable json bom app
        → copy_app_config_to_deploy_item json app old bom ≡ some item
        → Stores json stored item w w'
        → ((id : String)
            → (app.id == id) ≡ false
            → find_deploy_item_in_list items' id ≡ find_deploy_item_in_list items id)
        → Settles app items w (none, items', w')
    written-Settles app old item items items' w w' enc h ((s, at, type, retains), frame) finds =
        let here = id-copied json app old item bom h in
        (
          (s, ap (stored w') (sym here) ∙ at, stored_spec app old item s enc h type retains),
          (λ id e. frame id (ap (λ (j : String). j == id) here ∙ e)),
          finds,
        )

    from_write :
        (app : ApplicationConfig) (items items' : List DeployItem) (w : W) (r : Option ApiError × W)
        → (r.0 ≡ none → Settles app items w (none, items', r.1))
        → Settles app items w (r.0, items', r.1)
    from_write app items items' w (none, w') h = h refl
    from_write app items items' w (some e, w') h = _

    created-Settles :
        (app : ApplicationConfig) (item : DeployItem) (items : List DeployItem) (w : W)
        → IsEncodable json bom app
        → copy_app_config_to_deploy_item json app empty_item bom ≡ some item
        → Settles app items w ((c.create_item item w).0, items, (c.create_item item w).1)
    created-Settles app item items w enc h =
        from_write app items items w (c.create_item item w) λ e.
          written-Settles app empty_item item items items w (c.create_item item w).1 enc h
            (store.store_create item w e) (λ id e'. refl)

    updated-Settles :
        (app : ApplicationConfig) (old item : DeployItem) (items : List DeployItem) (w : W)
        → IsEncodable json bom app
        → is_av_check_bom av bom ≡ false
        → find_deploy_item_in_list items app.id ≡ some old
        → copy_app_config_to_deploy_item json app old bom ≡ some item
        → let r = update_deploy_item c json av item bom w in
          Settles app items w (r.0, write_item items app.id item, r.1)
    updated-Settles app old item items w enc plain f h = rw (update_item-plain item bom w plain) (
        from_write app items (write_item items app.id item) w (c.update_item item w) λ e.
          written-Settles app old item items (write_item items app.id item) w
            (c.update_item item w).1 enc h (store.store_update item w e)
            (λ id e'.
              let law =
                find-write_item items app.id id old item f (id-copied json app old item bom h) in
              ground (arith, law, e')))

    unchanged :
        (app : ApplicationConfig) (x : DeployItem)
        → is_equal_config json app x ≡ some true
        → is_equal_spec json app (spec_of x) ≡ some true
    unfolding is_equal_config
    unchanged app x h = h

    pub handle_app_config-Settles :
        (app : ApplicationConfig) (items : List DeployItem) (w : W)
        → IsEncodable json bom app
        → is_av_check_bom av bom ≡ false
        → Mirrors items w app
        → Settles app items w (handle_app_config c json av bom app items w)
    unfolding handle_app_config
    handle_app_config-Settles app items w enc plain mirrors =
        found_or_missing (find_deploy_item_in_list items app.id) refl
      where
        found_or_missing :
            (o : Option DeployItem)
            → find_deploy_item_in_list items app.id ≡ o
            → Settles app items w (handle_app_config c json av bom app items w)
        found_or_missing none f =
            elim (Option-cases (copy_app_config_to_deploy_item json app empty_item bom)) [
              | inl h ↦ rw (f, h, handle_app_config) _
              | inr (item, h) ↦
                  rw (f, h, handle_app_config) (created-Settles app item items w enc h)
            ]
        found_or_missing (some old) f = elim (Option-cases (is_equal_config json app old)) [
          | inl h ↦ rw (f, h, handle_app_config) _
          | inr (true, h) ↦
              rw (f, h, handle_app_config)
                ((spec_of old, mirrors old f, unchanged app old h), (λ id e. refl), (λ id e. refl))
          | inr (false, h) ↦ elim (Option-cases (copy_app_config_to_deploy_item json app old bom)) [
            | inl h' ↦ rw (f, h, h', handle_app_config) _
            | inr (item, h') ↦
                rw (f, h, h', handle_app_config)
                  (updated-Settles app old item items w enc plain f h')
          ]
        ]
