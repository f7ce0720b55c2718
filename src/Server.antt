-- ===== src/Server.antt =====
-- pkg/server: the HTTP handlers. What the handlers write and the calls that change the cluster are
-- events, in their order; what the Kubernetes API, the listers and `encoding/json` answer stands
-- in `Cluster` and `Codec`.
pub mod Handlers
pub mod Routes
pub mod Deployed
pub mod Namespaces
pub mod Places
pub mod Status
pub mod Scaling
pub mod Tests
use faas_share.Common.{
  ℕ, zero, suc, ◌+◌, ◌-◌, ◌%◌, ◌^◌, String, ℤ, pos, negsuc, Bool, Option, none, some, List, [], ◌∷◌,
  Map, is_empty, if◌then◌else◌, ◌≡◌, ◌⊎◌, refl, inl, inr,
}
use faas_share.Operator.Deployment.{SpecContainer, SharePod, Deployment}

-- The answer of a read: the object, an error that `IsNotFound` accepts, or another error, with
-- the text of the error.
pub data Answered {ℓ} (A : Type ℓ) : Type ℓ where
  ok : A → Answered A
  not_found : String → Answered A
  failed : String → Answered A

pub data Parsed {ℓ} (A : Type ℓ) : Type ℓ where
  parsed : A → Parsed A
  malformed : String → Parsed A

-- `sharepod.SharepodDeployment`; a field without effect on the handlers is left out.
pub record ApplyRequest : Type 0 where
  pub service : String
  pub namespace : String
  pub containers : List SpecContainer
  pub labels : Option (Map String)
  pub annotations : Map String

-- `sharepod.SharepodStatus`, the fields that the handlers set.
pub record SharepodStatus : Type 0 where
  pub name : String
  pub labels : Map String
  pub annotations : Map String
  pub containers : List SpecContainer
  pub replicas : ℕ
  pub available_replicas : ℕ

-- `kubesharev1.SharePodStatus`, the fields that the handlers set, and the bound device.
pub record ItemStatus : Type 0 where
  pub bound_device_id : String
  pub replicas : ℕ
  pub available_replicas : ℕ

pub record Item : Type 0 where
  pub name : String
  pub status : ItemStatus

-- A namespace with its annotations.
pub record Namespace : Type 0 where
  pub name : String
  pub annotations : Map String

-- The error of a call that changes the cluster is `some` of its text. A list comes with the items
-- that were decoded, also beside an error. `status_replicas` is the lister's deployment, of which
-- `getReplicas` reads `Status.Replicas` and `Status.AvailableReplicas`.
pub record Cluster : Type 0 where
  pub get_share_pod : String → String → Answered SharePod
  pub list_share_pods : String → List Item × Option String
  pub create_error : String → SharePod → Option String
  pub update_error : String → SharePod → Option String
  pub delete_error : String → String → Option String
  pub get_deployment : String → String → Answered Deployment
  pub scale_error : String → Deployment → Option String
  pub status_replicas : String → String → Option (ℤ × ℤ)
  pub list_namespaces : Option (List Namespace)

pub record Codec : Type 0 where
  pub read_apply : String → Parsed ApplyRequest
  pub read_scale : String → Parsed ℕ
  pub read_delete : String → Parsed String
  pub read_namespace : String → Parsed (Option String)
  pub write_status : SharepodStatus → Option String
  pub write_items : List ItemStatus → Option String
  pub write_names : List String → Option String

-- `header` is `WriteHeader`, of which net/http keeps the first; `http_error` is `http.Error`.
pub data Event : Type 0 where
  header : ℕ → Event
  write : String → Event
  http_error : String → ℕ → Event
  create_share_pod update_share_pod : String → SharePod → Event
  delete_share_pod : String → String → Event
  scale_deployment : String → Deployment → Event

pub data Handled : Type 0 where
  finished : List Event → Handled
  panicked : List Event → Handled

-- The status that the client of the server gets.
abbrev pub status_of : List Event → ℕ
status_of [] = 200
status_of (header code ∷ events) = code
status_of (write text ∷ events) = 200
status_of (http_error text code ∷ events) = code
status_of (create_share_pod ns sp ∷ events) = status_of events
status_of (update_share_pod ns sp ∷ events) = status_of events
status_of (delete_share_pod ns name ∷ events) = status_of events
status_of (scale_deployment ns d ∷ events) = status_of events

-- The namespace that a handler works in, from the query or the request.
abbrev pub lookup_namespace : String → String → String
lookup_namespace default query = if is_empty query then default else query

-- `uint64(n)`
abbrev pub to_uint64 : ℤ → ℕ
to_uint64 (pos n) = n % 2 ^ 64
to_uint64 (negsuc n) = 2 ^ 64 - 1 - n % 2 ^ 64

pub Answered-cases {ℓ} :
    {A : Type ℓ} (a : Answered A)
    → ((x : A) × (a ≡ ok x))
      ⊎ (((t : String) × (a ≡ not_found t)) ⊎ ((t : String) × (a ≡ failed t)))
Answered-cases (ok x) = inl (x, refl)
Answered-cases (not_found t) = inr (inl (t, refl))
Answered-cases (failed t) = inr (inr (t, refl))

pub Parsed-cases {ℓ} :
    {A : Type ℓ} (p : Parsed A) → ((x : A) × (p ≡ parsed x)) ⊎ ((t : String) × (p ≡ malformed t))
Parsed-cases (parsed x) = inl (x, refl)
Parsed-cases (malformed t) = inr (t, refl)
