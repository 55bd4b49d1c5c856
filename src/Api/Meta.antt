-- ===== src/Api/Meta.antt =====
-- What the code uses of k8s.io/apimachinery: object keys, metadata, times, raw JSON, errors.
use potter_controller.Prelude.{List, Map, Option, String, ℕ}

-- A time.Time or metav1.Time: nanoseconds since the zero time of Go, which is 0.
abbrev pub Time : Type 0
Time = ℕ

-- A time.Duration, in nanoseconds; a negative one comes up in `is_older_than` only, which wraps it.
abbrev pub Duration : Type 0
Duration = ℕ

abbrev pub second : Duration
second = 1000000000

abbrev pub minute : Duration
minute = 60000000000

abbrev pub hour : Duration
hour = 3600000000000

-- The bytes of a runtime.RawExtension.
abbrev pub Raw : Type 0
Raw = String

pub record NamespacedName : Type 0 where
  pub namespace : String
  pub name : String

pub record ObjectMeta : Type 0 where
  pub name : String
  pub namespace : String
  pub generation : ℕ
  pub creation_timestamp : Time
  pub deletion_timestamp : Option Time
  pub labels : Map String
  pub annotations : Map String
  pub finalizers : List String

-- The errors of a Kubernetes client, by what the code asks of them.
pub data ApiError : Type 0 where
  not_found : ApiError
  conflict : ApiError
  other_error : String → ApiError

-- What a call of the Kubernetes client returns: the object, or an error.
pub data Result {ℓ} (A : Type ℓ) : Type ℓ where
  ok : A → Result A
  err : ApiError → Result A
