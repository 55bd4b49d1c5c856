-- ===== src/Admission/Secrets.antt =====
-- pkg/admission/secret_reviewer.go: whether a secret may be updated or deleted.
use Prim.Native.String.{◌++◌}
use potter_controller.Prelude.{
  Bool, Map, String, [], false, if◌then◌else◌, lookup, none, not, some, true, ◌&&◌, ◌==◌, ◌||◌, ◌∷◌,
}
use potter_controller.Admission.Calls.{AdmissionRequest, ReviewClient, admit_delete, admit_update}
use potter_controller.Admission.Verdict.{Denial, decoded, undecoded}
use potter_controller.Api.{Raw, Result, err, ok}
use potter_controller.ClusterBomController.Calls.{
  SecretObject, compute_secret_deletion_token, get_secret_deletion_key, key_deletion_token,
}
use potter_controller.Deploy.ExportSecrets.{label_purpose}

unfoldable pub check_responsibility : SecretObject → Bool
unfolding lookup
check_responsibility s = elim (lookup label_purpose s.meta.labels) [
  | none ↦ false
  | some value ↦ value == "secret-values"
]

-- reflect.DeepEqual on the data: the same values at the same keys. A nil map is an empty one here.
unfoldable pub covers_data : Map Raw → Map Raw → Bool
unfolding lookup
covers_data [] new = true
covers_data ((k, v) ∷ rest) new =
    (elim (lookup k new) [ none ↦ false | some u ↦ u == v ]) && covers_data rest new

unfoldable pub same_data : Map Raw → Map Raw → Bool
unfolding covers_data
same_data old new = covers_data old new && covers_data new old

module _ {W : Type 0} (c : ReviewClient W) where
  -- Whether the token is the one of the key; the error of the key's read.
  unfoldable pub matches_token : Raw → String → Bool → W → Result Bool × W
  unfolding get_secret_deletion_key compute_secret_deletion_token
  matches_token token name from_cache w =
      let (r, w1) = get_secret_deletion_key c.bom_client from_cache w in
      (
        elim r [
          | err e ↦ err e
          | ok key ↦ ok (token == compute_secret_deletion_token c.sha256 key name)
        ],
        w1,
      )

  -- The key of the cache is tried first, and then a fresh one.
  unfoldable pub validate_secret_deletion_token : SecretObject → W → Result Bool × W
  unfolding matches_token lookup
  validate_secret_deletion_token s w = elim (lookup key_deletion_token s.content) [
    | none ↦ (ok false, w)
    | some token ↦
        let (r, w1) = matches_token token s.meta.name true w in
        let again = matches_token token s.meta.name false w1 in
        elim r [ err e ↦ (err e, w1) | ok true ↦ (ok true, w1) | ok false ↦ again ]
  ]

  -- The answer for the outcome of the validation.
  abbrev pub answer : String → String → Result Bool × W → Denial × W
  answer failed forbidden (r, w) =
      (elim r [ err _ ↦ some failed | ok b ↦ if b then none else some forbidden ], w)

  unfoldable pub review_update : Raw → Raw → W → Denial × W
  unfolding check_responsibility same_data validate_secret_deletion_token
  review_update old_raw new_raw w = elim (c.unmarshal_secret old_raw) [
    | undecoded e ↦ (some ("error when unmarshalling old secret : " ++ e), w)
    | decoded old ↦ elim (c.unmarshal_secret new_raw) [
      | undecoded e ↦ (some ("error when unmarshalling new secret : " ++ e), w)
      | decoded new ↦
          if not (check_responsibility old || check_responsibility new)
          then (none, w)
          else if same_data old.content new.content
          then (none, w)
          else answer "Error when validating update request"
              "You are not allowed to update a hub-managed secret"
              (validate_secret_deletion_token new w)
    ]
  ]

  unfoldable pub review_delete : Raw → W → Denial × W
  unfolding check_responsibility validate_secret_deletion_token
  review_delete old_raw w = elim (c.unmarshal_secret old_raw) [
    | undecoded e ↦ (some ("error when unmarshalling old secret : " ++ e), w)
    | decoded old ↦
        if not (check_responsibility old)
        then (none, w)
        else answer "Error when validating deletion request"
            "You are not allowed to delete a hub-managed secret"
            (validate_secret_deletion_token old w)
  ]

  unfoldable pub review_secret : AdmissionRequest → W → Denial × W
  unfolding review_update review_delete
  review_secret q w = elim q.operation [
    | admit_update ↦ review_update q.old_object q.new_object w
    | admit_delete ↦ review_delete q.old_object w
    | _ ↦ (none, w)
  ]
