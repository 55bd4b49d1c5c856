-- ===== src/Admission/Laws.antt =====
-- What the admission of clusterboms and secrets means for the controllers.
use text.Mathlib.TextEquality.{eq_iff}
use potter_controller.Prelude.{
  All, Bool, List, Option, String, [], any, ap, arith, false, if_lem, insert, lookup, lookup-insert,
  none, not, refl, some, sym, true, ◌==◌, ◌∙◌, ◌∷◌, ◌≡◌,
}
use potter_controller.Admission.Calls.{ReviewClient, ReviewConfig}
use potter_controller.Admission.Checks.{
  OldBom, check_application_config_ids, check_application_configs, check_cluster_bom, check_ids,
}
use potter_controller.Admission.Secrets.{
  check_responsibility, matches_token, review_delete, validate_secret_deletion_token,
}
use potter_controller.Admission.Verdict.{Denial, decoded, deny_if, is_spiff_template, ◌then_check◌}
use potter_controller.Api.{ApplicationConfig, ClusterBom, Raw, Result, err, ok}
use potter_controller.ClusterBomController.Calls.{
  SecretObject, compute_secret_deletion_token, get_secret_deletion_key, key_deletion_token,
  with_deletion_token,
}
use potter_controller.ClusterBomController.Settled.{DistinctIds}

deny_if-none :
    (b : Bool) (m : String) (rest : Denial) → deny_if b m rest ≡ none → (b ≡ false) × (rest ≡ none)
deny_if-none true m rest h = cc
deny_if-none false m rest h = (refl, h)

then_check-none : (d rest : Denial) → (d then_check rest) ≡ none → (d ≡ none) × (rest ≡ none)
then_check-none none rest h = (refl, h)
then_check-none (some m) rest h = cc

-- An application whose id is not empty and not among others.
abbrev Fresh : List String → ApplicationConfig → Type 0
Fresh ids app = ((app.id == "") ≡ false) × (any (λ id. id == app.id) ids ≡ false)

Fresh-tail :
    (id : String) (ids : List String) (apps : List ApplicationConfig)
    → All (Fresh (id ∷ ids)) apps
    → All (Fresh ids) apps × All (λ (a : ApplicationConfig). (a.id == id) ≡ false) apps
Fresh-tail id ids [] h = _
Fresh-tail id ids (a ∷ rest) ((e, n), h) =
    let (tail, others) = Fresh-tail id ids rest h in
    (((e, ground (arith, n)), tail), (ground (arith, n, eq_iff a.id id, eq_iff id a.id), others))

check_ids-Fresh :
    (ids : List String) (apps : List ApplicationConfig)
    → check_ids ids apps ≡ none
    → All (Fresh ids) apps × DistinctIds apps
unfolding check_ids
check_ids-Fresh ids [] h = _
check_ids-Fresh ids (a ∷ rest) h =
    let (empty, h1) = deny_if-none (a.id == "") _ _ h in
    let (plain, h2) = deny_if-none (is_spiff_template a.id) _ _ h1 in
    let (other, h3) = deny_if-none (any (λ id. id == a.id) ids) _ _ h2 in
    let (all, distinct) = check_ids-Fresh (a.id ∷ ids) rest h3 in
    let (tail, apart) = Fresh-tail a.id ids rest all in (((empty, other), tail), (apart, distinct))

module _ {W : Type 0} (c : ReviewClient W) where
  no_denial_before :
      (d : Denial) (w : W) (rest : Denial × W)
      → (elim d as (λ _. Denial × W) [ some m ↦ (some m, w) | none ↦ rest ]).0 ≡ none
      → (d ≡ none) × (rest.0 ≡ none)
  no_denial_before none w rest h = (refl, h)
  no_denial_before (some m) w rest h = cc

  -- The applications of a clusterbom that passes the checks of the review have distinct ids, and none is
  -- empty.
  pub admitted_ids_distinct :
      (config : ReviewConfig) (old : OldBom) (bom : ClusterBom) (w : W)
      → (check_cluster_bom c config old bom w).0 ≡ none
      → DistinctIds bom.spec.application_configs
        × All (λ (a : ApplicationConfig). (a.id == "") ≡ false) bom.spec.application_configs
  unfolding check_cluster_bom check_application_configs check_application_config_ids
  admitted_ids_distinct config old bom w h =
      let (first, h1) = no_denial_before _ w (check_application_configs c config old bom w) h in
      let (ids, h2) = no_denial_before (check_application_config_ids bom) w _ h1 in
      let (all, distinct) = check_ids-Fresh [] bom.spec.application_configs ids in
      (distinct, filled bom.spec.application_configs all)
    where
      filled :
          (apps : List ApplicationConfig)
          → All (Fresh []) apps
          → All (λ (a : ApplicationConfig). (a.id == "") ≡ false) apps
      filled [] a = _
      filled (x ∷ xs) ((e, n), a) = (e, filled xs a)

  marked-token :
      (secret marked : SecretObject) (key : Option Raw) (from_cache : Bool) (w w1 : W)
      → get_secret_deletion_key c.bom_client from_cache w ≡ (ok key, w1)
      → with_deletion_token c.bom_client secret from_cache w ≡ (ok marked, w1)
      → lookup key_deletion_token marked.content
        ≡ some (compute_secret_deletion_token c.sha256 key marked.meta.name)
  unfolding with_deletion_token
  marked-token secret marked key from_cache w w1 wrote made =
      let token = compute_secret_deletion_token c.sha256 key secret.meta.name in
      let with_token : SecretObject = record secret {
        content = insert key_deletion_token token secret.content;
      } in
      let rest : Result (Option Raw) × W → Result SecretObject × W = λ r. (
        elim r.0 [
          | err e ↦ err e
          | ok k ↦ ok (record secret {
            content =
                insert key_deletion_token
                  (compute_secret_deletion_token c.sha256 k secret.meta.name) secret.content;
          })
        ],
        r.1,
      ) in
      let both : (ok with_token, w1) ≡ (ok marked, w1) = sym (ap rest wrote) ∙ made in
      let same : with_token ≡ marked = cc both in
      rw (← same) (lookup-insert key_deletion_token key_deletion_token token secret.content)

  matches_token-same :
      (key : Option Raw) (token : Raw) (name : String) (u u1 : W)
      → get_secret_deletion_key c.bom_client true u ≡ (ok key, u1)
      → token ≡ compute_secret_deletion_token c.sha256 key name
      → matches_token c token name true u ≡ (ok true, u1)
  unfolding matches_token
  matches_token-same key token name u u1 read same =
      let rest : Result (Option Raw) × W → Result Bool × W = λ r. (
        elim r.0 [
          | err e ↦ err e
          | ok k ↦ ok (token == compute_secret_deletion_token c.sha256 k name)
        ],
        r.1,
      ) in
      ap rest read
      ∙ ap (λ b. (ok b, u1))
          ((eq_iff token (compute_secret_deletion_token c.sha256 key name)).1 same)

  validate-marked :
      (marked : SecretObject) (key : Option Raw) (u u1 : W)
      → get_secret_deletion_key c.bom_client true u ≡ (ok key, u1)
      → lookup key_deletion_token marked.content
        ≡ some (compute_secret_deletion_token c.sha256 key marked.meta.name)
      → validate_secret_deletion_token c marked u ≡ (ok true, u1)
  unfolding validate_secret_deletion_token
  validate-marked marked key u u1 read token =
      let digest = compute_secret_deletion_token c.sha256 key marked.meta.name in
      let rest : Result Bool × W → Result Bool × W = λ r. elim r.0 [
        | err e ↦ (err e, r.1)
        | ok true ↦ (ok true, r.1)
        | ok false ↦ matches_token c digest marked.meta.name false r.1
      ] in
      rw (token, validate_secret_deletion_token)
        (ap rest (matches_token-same key digest marked.meta.name u u1 read refl))

  -- A secret that the clusterbom controller has given its deletion token may be deleted, where the
  -- admission hook decodes it as it was written, and reads the key with which the token was made.
  pub marked_secret_may_be_deleted :
      (secret marked : SecretObject) (raw : Raw) (key : Option Raw) (from_cache : Bool)
      (w w1 u u1 : W)
      → get_secret_deletion_key c.bom_client from_cache w ≡ (ok key, w1)
      → with_deletion_token c.bom_client secret from_cache w ≡ (ok marked, w1)
      → c.unmarshal_secret raw ≡ decoded marked
      → get_secret_deletion_key c.bom_client true u ≡ (ok key, u1)
      → (review_delete c raw u).0 ≡ none
  unfolding review_delete
  marked_secret_may_be_deleted secret marked raw key from_cache w w1 u u1 wrote made read same =
      let valid =
        validate-marked marked key u u1 same
          (marked-token secret marked key from_cache w w1 wrote made) in
      rw (read, review_delete)
        (if_lem (λ (d : Denial × W). d.0 ≡ none) (not (check_responsibility marked)) (λ _. refl)
          (λ _. rw valid refl))
