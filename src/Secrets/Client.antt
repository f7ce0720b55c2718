-- ===== src/Secrets/Client.antt =====
-- The client of the function secrets in pkg/k8s/secrets.go. The Kubernetes API stands in
-- `SecretApi`: what it answers, and the store after a call that succeeds; `none` is an error.
pub mod Contract
pub mod Refines
pub mod Fetch
use faas_share.Common.{
  String, Bool, Option, none, some, List, [], ◌∷◌, map, Map, lookup, insert, is_empty,
  is_blank_text, if◌then◌else◌,
}
use faas_share.Secrets.{KubeSecret}

pub record SecretApi : Type 1 where
  pub Store : Type 0
  pub list : Store → String → String → String → Option (List KubeSecret)
  pub get : Store → String → String → Option KubeSecret
  pub create : Store → String → KubeSecret → Option Store
  pub update : Store → String → KubeSecret → Option Store
  pub delete : Store → String → String → Option Store

-- `types.Secret`
pub record FunctionSecret : Type 0 where
  pub name : String
  pub namespace : String
  pub value : String
  pub raw_value : String

pub data ClientError : Type 0 where
  no_namespace : ClientError
  no_name : ClientError
  api_error : ClientError

pub data Answer {ℓ} (A : Type ℓ) : Type ℓ where
  accepted : A → Answer A
  refused : ClientError → Answer A

abbrev pub secret_label : String
secret_label = "app.kubernetes.io/managed-by"

abbrev pub secret_label_value : String
secret_label_value = "openfaas"

-- `validateSecret`
unfoldable pub validate_secret : FunctionSecret → Option ClientError
validate_secret x =
    if is_blank_text x.namespace
    then some no_namespace
    else if is_blank_text x.name
    then some no_name
    else none

-- `getValidSecretData`
unfoldable pub secret_data : FunctionSecret → Map String
secret_data x = (x.name, if is_empty x.raw_value then x.value else x.raw_value) ∷ []

-- The error of a call, or the store after it.
abbrev pub answer_of {ℓ} : {A : Type ℓ} → Option A → Answer A
answer_of none = refused api_error
answer_of (some s) = accepted s

module _ (api : SecretApi) where
  -- `List`
  unfoldable pub list_secrets : api.Store → String → Option (List String)
  list_secrets s ns = elim (api.list s ns secret_label secret_label_value) [
    | none ↦ none
    | some items ↦ some (map (λ (k : KubeSecret). k.name) items)
  ]

  -- `Create`
  unfoldable pub create_secret : FunctionSecret → api.Store → Answer api.Store
  unfolding validate_secret secret_data
  create_secret x s = elim (validate_secret x) [
    | some e ↦ refused e
    | none ↦ answer_of (
        api.create s x.namespace (record {
          secret_type = "Opaque";
          namespace = x.namespace;
          name = x.name;
          labels = (secret_label, secret_label_value) ∷ [];
          data_map = secret_data x;
        }))
  ]

  -- `Replace`
  unfoldable pub replace_secret : FunctionSecret → api.Store → Answer api.Store
  unfolding validate_secret secret_data
  replace_secret x s = elim (validate_secret x) [
    | some e ↦ refused e
    | none ↦ elim (api.get s x.namespace x.name) [
      | none ↦ refused api_error
      | some k ↦ answer_of (api.update s x.namespace (record k { data_map = secret_data x }))
    ]
  ]

  -- `Delete`
  unfoldable pub delete_secret : String → String → api.Store → Answer api.Store
  delete_secret ns name s = answer_of (api.delete s ns name)

  -- The loop of `GetSecrets`
  unfoldable pub get_each :
      api.Store → String → List String → Map KubeSecret → Option (Map KubeSecret)
  get_each s ns [] found = some found
  get_each s ns (n ∷ names) found = elim (api.get s ns n) [
    | none ↦ none
    | some k ↦ get_each s ns names (insert n k found)
  ]

  -- `GetSecrets`
  unfoldable pub get_secrets : api.Store → String → List String → Option (Map KubeSecret)
  unfolding get_each
  get_secrets s ns names = get_each s ns names []
