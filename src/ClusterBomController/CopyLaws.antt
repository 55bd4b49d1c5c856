-- ===== src/ClusterBomController/CopyLaws.antt =====
-- A deploy item that was made from an application config and stored, compared with that config.
use text.Mathlib.TextEquality.{eq_iff}
use potter_controller.Prelude.{
  >>=-eq-some, All, Bool, IsMap, List, Map, Option, String, [], ap, arith, eq_refl, false, insert,
  length, length-delete_missing, lookup, lookup-insert, map, none, refl, some, some_inj, sym, true,
  ◌&&◌, ◌∙◌, ◌∷◌, ◌≡◌,
}
use potter_controller.Api.{
  ApplicationConfig, ClusterBom, DeployItem, DeploymentConfig, HubDeployItemConfiguration, Job,
  Json, NamedSecretValues, Raw, ReadyRequirements, Resource, SecretValues, Slice,
}
use potter_controller.ClusterBomController.Items.{
  configuration_of, copy_app_config_to_deploy_item, secret_names,
}
use potter_controller.ControllerUtil.{
  all_named_secrets, equals_config, is_equal_config, is_equal_named_secret_values,
  is_equal_raw_json, is_equal_secret_values, same_bool, same_jobs, same_ready_requirements,
  same_resources, same_slice, same_texts,
}

-- Each named secret is the one of the entry in a map of names.
abbrev Agrees : Map NamedSecretValues → Map String → Type 0
Agrees m names =
    All (λ (e : String × NamedSecretValues). lookup e.0 names ≡ some e.1.internal_secret_name) m

Agrees-insert :
    (k n : String) (m : Map NamedSecretValues) (names : Map String)
    → lookup k m ≡ none
    → Agrees m names
    → Agrees m (insert k n names)
unfolding lookup
Agrees-insert k n [] names h a = a
Agrees-insert k n ((j, v) ∷ m) names h (a, as') = (
  ground (arith, lookup-insert k j n names, eq_iff k j, eq_iff j k, a, h),
  Agrees-insert k n m names (ground (arith, h)) as',
)

lookup-secret_names :
    (k : String) (m : Map NamedSecretValues) → lookup k m ≡ none → lookup k (secret_names m) ≡ none
unfolding lookup secret_names
lookup-secret_names k [] h = refl
lookup-secret_names k ((j, v) ∷ m) h =
    ground
      (arith, lookup-insert j k v.internal_secret_name (secret_names m), lookup-secret_names k m)

Agrees-secret_names : (m : Map NamedSecretValues) → IsMap m → Agrees m (secret_names m)
unfolding secret_names
Agrees-secret_names [] u = _
Agrees-secret_names ((k, v) ∷ m) (h, u) = (
  ground (arith, lookup-insert k k v.internal_secret_name (secret_names m), eq_iff k k),
  Agrees-insert k v.internal_secret_name m (secret_names m) h (Agrees-secret_names m u),
)

length-secret_names : (m : Map NamedSecretValues) → IsMap m → length (secret_names m) ≡ length m
unfolding secret_names insert
length-secret_names [] u = refl
length-secret_names ((k, v) ∷ m) (h, u) = omega (
  arith,
  length-delete_missing k (secret_names m) (lookup-secret_names k m h),
  length-secret_names m u,
)

all_named_secrets_of :
    (m : Map NamedSecretValues) (names : Map String)
    → Agrees m names
    → all_named_secrets m names ≡ true
unfolding all_named_secrets
all_named_secrets_of [] names a = refl
all_named_secrets_of ((k, v) ∷ m) names (a, as') = ground (
  arith,
  a,
  all_named_secrets_of m names as',
  eq_iff v.internal_secret_name v.internal_secret_name,
)

-- The same map, whatever the order of its keys.
abbrev pub SameNames : Map String → Map String → Type 0
SameNames old new = ((k : String) → lookup k new ≡ lookup k old) × (length new ≡ length old)

Agrees-same :
    (m : Map NamedSecretValues) (old new : Map String)
    → SameNames old new
    → Agrees m old
    → Agrees m new
Agrees-same [] old new h a = _
Agrees-same ((k, v) ∷ m) old new h (a, as') = (h.0 k ∙ a, Agrees-same m old new h as')

named_secrets-copied :
    (m : Map NamedSecretValues) (names : Map String)
    → IsMap m
    → SameNames (secret_names m) names
    → is_equal_named_secret_values m names ≡ true
unfolding is_equal_named_secret_values
named_secrets-copied m names u h = ground (
  arith,
  h.1,
  length-secret_names m u,
  all_named_secrets_of m names (Agrees-same m (secret_names m) names h (Agrees-secret_names m u)),
)

abbrev pub canonical_raw : Json → Option Raw → Option Raw
canonical_raw json none = none
canonical_raw json (some raw) = some (json.canonical raw)

is_equal_raw_json-same :
    (json : Json) (a b : Option Raw)
    → canonical_raw json b ≡ canonical_raw json a
    → is_equal_raw_json json a b ≡ true
unfolding is_equal_raw_json
is_equal_raw_json-same json none none h = refl
is_equal_raw_json-same json none (some b) h = cc
is_equal_raw_json-same json (some a) none h = cc
is_equal_raw_json-same json (some a) (some b) h =
    ground (arith, some_inj h, eq_iff (json.canonical a) (json.canonical b))

secret_values-copied :
    (v : Option SecretValues)
    → is_equal_secret_values v (elim v [ none ↦ "" | some s ↦ s.internal_secret_name ]) ≡ true
unfolding is_equal_secret_values
secret_values-copied none = eq_refl ""
secret_values-copied (some s) = eq_refl s.internal_secret_name

same_bool_refl : (b : Bool) → same_bool b b ≡ true
same_bool_refl true = refl
same_bool_refl false = refl

-- What `omitempty` leaves of a slice: an empty one is not written, and is nil when it is read.
abbrev pub omit_empty : {A : Type 0} → Slice A → Slice A
omit_empty none = none
omit_empty (some []) = none
omit_empty (some (x ∷ xs)) = some (x ∷ xs)

abbrev pub map_slice : {A B : Type 0} → (A → B) → Slice A → Slice B
map_slice f none = none
map_slice f (some xs) = some (map f xs)

abbrev pub omit_requirements : ReadyRequirements → ReadyRequirements
omit_requirements r = record {
  jobs = omit_empty r.jobs;
  resources =
      map_slice (λ (q : Resource). record q { success_values = omit_empty q.success_values })
        (omit_empty r.resources);
}

-- The success values as the JSON values that they are, written in one way.
abbrev pub canonical_requirements : Json → ReadyRequirements → ReadyRequirements
canonical_requirements json r = record r {
  resources =
      map_slice
        (λ (q : Resource). record q { success_values = map_slice json.canonical q.success_values })
        r.resources;
}

abbrev pub normal_requirements : Json → ReadyRequirements → ReadyRequirements
normal_requirements json r = canonical_requirements json (omit_requirements r)

-- The settings of a configuration that is written as JSON and read again: JSON values may be written in
-- another way, and the keys of a map may come in another order.
pub record SameSettings (json : Json) (old new : DeploymentConfig) : Type 0 where
  pub same_id : new.id ≡ old.id
  pub same_data : json.canonical new.type_specific_data ≡ json.canonical old.type_specific_data
  pub same_values : canonical_raw json new.values ≡ canonical_raw json old.values
  pub same_secret : new.internal_secret_name ≡ old.internal_secret_name
  pub same_names : SameNames old.named_internal_secret_names new.named_internal_secret_names
  pub same_no_reconcile : new.no_reconcile ≡ old.no_reconcile

SameSettings-trans :
    {json : Json} {a b d : DeploymentConfig}
    → SameSettings json a b
    → SameSettings json b d
    → SameSettings json a d
SameSettings-trans p q = record {
  same_id = q.same_id ∙ p.same_id;
  same_data = q.same_data ∙ p.same_data;
  same_values = q.same_values ∙ p.same_values;
  same_secret = q.same_secret ∙ p.same_secret;
  same_names = (λ k. q.same_names.0 k ∙ p.same_names.0 k, q.same_names.1 ∙ p.same_names.1);
  same_no_reconcile = q.same_no_reconcile ∙ p.same_no_reconcile;
}

-- What encoding/json promises of the configuration of an application: it can be read again, with the same
-- settings, and with ready requirements that are the same JSON values but for the empty slices.
abbrev pub RoundTrips : Json → ClusterBom → ApplicationConfig → Type 0
RoundTrips json bom app =
    (raw : Raw)
    → json.marshal_configuration (configuration_of app bom) ≡ some raw
    → (new : HubDeployItemConfiguration) × (json.unmarshal_configuration raw ≡ some new)
      × SameSettings json (configuration_of app bom).deployment_config new.deployment_config
      × (canonical_requirements json new.deployment_config.ready_requirements
          ≡ normal_requirements json app.ready_requirements)

-- What the API server promises of a document: it keeps the JSON value, and writes it in one way.
abbrev pub Retains : Json → Raw → Raw → Type 0
Retains json raw stored =
    (old : HubDeployItemConfiguration)
    → json.unmarshal_configuration raw ≡ some old
    → (new : HubDeployItemConfiguration) × (json.unmarshal_configuration stored ≡ some new)
      × SameSettings json old.deployment_config new.deployment_config
      × (new.deployment_config.ready_requirements
          ≡ canonical_requirements json old.deployment_config.ready_requirements)

settings-equal :
    (json : Json) (app : ApplicationConfig) (bom : ClusterBom) (config : HubDeployItemConfiguration)
    → IsMap app.named_secret_values
    → SameSettings json (configuration_of app bom).deployment_config config.deployment_config
    → equals_config json app app.config_type config
      ≡ same_ready_requirements app.ready_requirements config.deployment_config.ready_requirements
unfolding equals_config configuration_of
settings-equal json app bom config u h =
    rw
      (
        h.same_id,
        h.same_no_reconcile,
        h.same_secret,
        eq_refl app.id,
        eq_refl app.config_type,
        same_bool_refl app.no_reconcile,
        is_equal_raw_json-same json app.values config.deployment_config.values h.same_values,
        is_equal_raw_json-same json (some app.type_specific_data)
            (some config.deployment_config.type_specific_data) (ap some h.same_data),
        secret_values-copied app.secret_values,
        named_secrets-copied app.named_secret_values
            config.deployment_config.named_internal_secret_names u h.same_names,
      )
      (only_requirements (
        same_ready_requirements app.ready_requirements config.deployment_config.ready_requirements))
  where
    only_requirements : (b : Bool) → (true && b && true && true && true && true) ≡ b
    only_requirements true = refl
    only_requirements false = refl

same_jobs_refl : (xs : List Job) → same_jobs xs xs ≡ true
unfolding same_jobs
same_jobs_refl [] = refl
same_jobs_refl (x ∷ xs) =
    ground (arith, same_jobs_refl xs, eq_iff x.name x.name, eq_iff x.namespace x.namespace)

same_texts_refl : (xs : List String) → same_texts xs xs ≡ true
unfolding same_texts
same_texts_refl [] = refl
same_texts_refl (x ∷ xs) = ground (arith, same_texts_refl xs, eq_iff x x)

same_slice_refl :
    {A : Type 0} (same : List A → List A → Bool)
    → ((xs : List A) → same xs xs ≡ true)
    → (xs : Slice A) → same_slice same xs xs ≡ true
same_slice_refl same h none = refl
same_slice_refl same h (some xs) = h xs

same_resources_refl : (xs : List Resource) → same_resources xs xs ≡ true
unfolding same_resources
same_resources_refl [] = refl
same_resources_refl (x ∷ xs) = ground (
  arith,
  same_resources_refl xs,
  same_slice_refl same_texts same_texts_refl x.success_values,
  eq_iff x.name x.name,
  eq_iff x.namespace x.namespace,
  eq_iff x.api_version x.api_version,
  eq_iff x.resource x.resource,
  eq_iff x.field_path x.field_path,
)

pub same_ready_requirements_refl : (r : ReadyRequirements) → same_ready_requirements r r ≡ true
unfolding same_ready_requirements
same_ready_requirements_refl r =
    rw
      (
        same_slice_refl same_jobs same_jobs_refl r.jobs,
        same_slice_refl same_resources same_resources_refl r.resources,
      )
      refl

pub copy_round_trip :
    (json : Json) (app : ApplicationConfig) (old item stored : DeployItem) (bom : ClusterBom)
    → RoundTrips json bom app
    → IsMap app.named_secret_values
    → copy_app_config_to_deploy_item json app old bom ≡ some item
    → stored.type ≡ item.type
    → Retains json item.configuration stored.configuration
    → is_equal_config json app stored
      ≡ some (
          same_ready_requirements app.ready_requirements
            (normal_requirements json app.ready_requirements))
unfolding copy_app_config_to_deploy_item is_equal_config
copy_round_trip json app old item stored bom trip u h type retains =
    let (raw, e, e') = >>=-eq-some (json.marshal_configuration (configuration_of app bom)) _ h in
    let (first, read, settings, requirements) = trip raw e in
    let (new, read', settings', requirements') = retains first (
      ap json.unmarshal_configuration (sym (ap (λ (x : DeployItem). x.configuration) (some_inj e')))
      ∙ read) in
    let equal = settings-equal json app bom new u (SameSettings-trans settings settings') in
    let here : stored.type ≡ app.config_type =
      type ∙ sym (ap (λ (x : DeployItem). x.type) (some_inj e')) in
    rw (read', here, equal, requirements', requirements) refl
