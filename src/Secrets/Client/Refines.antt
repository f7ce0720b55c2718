-- ===== src/Secrets/Client/Refines.antt =====
-- The client of the function secrets implements its contract.
use faas_share.Common.{String, Option, some, [], ◌∷◌, if◌then◌else◌, ◌≡◌}
use faas_share.Secrets.{KubeSecret}
use faas_share.Secrets.Client.{
  SecretApi, FunctionSecret, Answer, accepted, refused, secret_label, secret_label_value,
  secret_data,
}
use faas_share.Secrets.Client.Contract.{
  SecretLaws, same_place, Command, table_step, view, Refusable,
}

module _ (api : SecretApi) (laws : SecretLaws api) where
  -- A change of the object at one place.
  Changed : api.Store → String → String → Option KubeSecret → api.Store → Type 0
  Changed s ns n o s' =
      (ms m : String) → laws.held s' ms m ≡ (if same_place ns n ms m then o else laws.held s ms m)

  -- A command that the client accepts is accepted by the contract, with the same table after it.
  abbrev Agrees : Command → api.Store → Answer api.Store → Type 0
  Agrees c s (accepted s') = table_step c (view api laws s) ≡ some (view api laws s')
  Agrees c s (refused e) = Unit

  new_secret : FunctionSecret → KubeSecret
  new_secret x = record {
    secret_type = "Opaque";
    namespace = x.namespace;
    name = x.name;
    labels = (secret_label, secret_label_value) ∷ [];
    data_map = secret_data x;
  }

  -- The reason of a refusal.
  abbrev Because : Command → api.Store → Answer api.Store → Type 0
  Because c s (accepted s') = Unit
  Because c s (refused e) = Refusable api laws c s
