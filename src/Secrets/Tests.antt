-- ===== src/Secrets/Tests.antt =====
-- A store of secrets as a function, and the client on it.
use faas_share.Common.{
  Bool, true, false, String, Option, none, some, [], ◌∷◌, str_eq, if◌then◌else◌, ◌≡◌, refl, lookup,
  List, Map,
}
use faas_share.Secrets.{KubeSecret}
use faas_share.Secrets.Client.{SecretApi, FunctionSecret}
use faas_share.Secrets.Client.Contract.{same_place, Command, create, replace, delete}
use mathlib.Core.List.{Perm}
use faas_share.Common.{◌++◌, keep, Ascending}
use faas_share.Secrets.Client.{get_secrets}
use faas_share.Secrets.Client.Fetch.{get_secrets-configured}
use faas_share.Secrets.Template.{Template, configured, configure_secrets, read_secrets}
use faas_share.Secrets.Template.Again.{is_pulled, configure_secrets-again}

abbrev Shelf : Type 0
Shelf = String → String → Option KubeSecret

abbrev named : String → Option KubeSecret → Option KubeSecret
named n none = none
named n (some k) = if str_eq k.name n then some k else none

abbrev write : Shelf → String → String → Option KubeSecret → Shelf
write s ns n o ms m = if same_place ns n ms m then o else s ms m

abbrev create_on : Shelf → String → KubeSecret → Option KubeSecret → Option Shelf
create_on s ns k none = some (write s ns k.name (some k))
create_on s ns k (some j) = none

abbrev update_on : Shelf → String → KubeSecret → Option KubeSecret → Option Shelf
update_on s ns k none = none
update_on s ns k (some j) = some (write s ns k.name (some k))

abbrev delete_on : Shelf → String → String → Option KubeSecret → Option Shelf
delete_on s ns n none = none
delete_on s ns n (some j) = some (write s ns n none)

abbrev shelf_api : SecretApi
shelf_api = record {
  Store = Shelf;
  list = λ s ns l v. none;
  get = λ s ns n. named n (s ns n);
  create = λ s ns k. create_on s ns k (named k.name (s ns k.name));
  update = λ s ns k. update_on s ns k (named k.name (s ns k.name));
  delete = λ s ns n. delete_on s ns n (named n (s ns n));
}

abbrev unless {ℓ} : {A : Type ℓ} → Bool → Option A → Option A
unless true o = none
unless false o = o

abbrev idle : Option Shelf → Option (Shelf × Bool)
idle none = none
idle (some s) = some (s, false)

-- The shelf and whether it is busy: then every call fails, and the next one does not.
abbrev busy_api : SecretApi
busy_api = record {
  Store = Shelf × Bool;
  list = λ s ns l v. none;
  get = λ s ns n. unless s.1 (shelf_api.get s.0 ns n);
  create = λ s ns k. unless s.1 (idle (shelf_api.create s.0 ns k));
  update = λ s ns k. unless s.1 (idle (shelf_api.update s.0 ns k));
  delete = λ s ns n. unless s.1 (idle (shelf_api.delete s.0 ns n));
}

abbrev password : FunctionSecret
password = record { name = "pw"; namespace = "fn"; value = "old"; raw_value = "" }

abbrev commands : List Command
commands =
    create password
    ∷ create password
    ∷ replace (record password { raw_value = "new" })
    ∷ delete "fn" "other"
    ∷ []

-- The first call fails.
abbrev busy : Shelf × Bool
busy = (λ ns n. none, true)

abbrev kept : String → String → String → KubeSecret
kept kind n v = record {
  secret_type = kind;
  namespace = "fn";
  name = n;
  labels = [];
  data_map = (n, v) ∷ [];
}

abbrev registry : KubeSecret
registry = kept "kubernetes.io/dockercfg" "reg" "{}"

abbrev key : KubeSecret
key = kept "Opaque" "key" "secret"

abbrev stocked : Shelf
stocked = write (write (λ ns n. none) "fn" "reg" (some registry)) "fn" "key" (some key)

abbrev deployed : Map KubeSecret
deployed = ("reg", registry) ∷ ("key", key) ∷ []

abbrev bare : Template
bare = record {
  image_pull_secrets = [];
  pod = record {
    containers =
        record { name = "main"; image = "fn:1"; security_context = none; volume_mounts = [] } ∷ [];
    volumes = [];
    node_name = "";
  };
}

-- What is read back from a template without secrets.
abbrev FetchedAndRead : Type 0
FetchedAndRead =
    (m : Map KubeSecret) × (t : Template) × (r : List String) × (get_secrets shelf_api stocked "fn"
        ("reg" ∷ "key" ∷ [])
      ≡ some m)
    × (configure_secrets m "svc" ("reg" ∷ "key" ∷ []) bare ≡ configured t)
    × (read_secrets "svc" t ≡ some r)
    × Perm r ("reg" ∷ "key" ∷ [])
    × Ascending r

get_secrets-configured_example : FetchedAndRead
get_secrets-configured_example =
    get_secrets-configured shelf_api stocked "fn" "svc" ("reg" ∷ "key" ∷ []) bare
      ((registry, refl), ((key, refl), tt)) refl

-- The template after `reg` and then again `reg` with `key`.
abbrev ConfiguredAgain : Type 0
ConfiguredAgain =
    (t₁ : Template) × (t₂ : Template) × (alone : Template) × (configure_secrets deployed "svc"
        ("reg" ∷ []) bare
      ≡ configured t₁)
    × (configure_secrets deployed "svc" ("key" ∷ "reg" ∷ []) t₁ ≡ configured t₂)
    × (configure_secrets deployed "svc" ("key" ∷ "reg" ∷ []) bare ≡ configured alone)
    × (t₂.pod ≡ alone.pod)
    × (t₂.image_pull_secrets
        ≡ t₁.image_pull_secrets ++ keep (is_pulled deployed) ("key" ∷ "reg" ∷ []))

configure_secrets-again_example : ConfiguredAgain
unfolding lookup
configure_secrets-again_example =
    configure_secrets-again deployed "svc" bare ("reg" ∷ []) ("key" ∷ "reg" ∷ [])
      ((registry, refl), tt) ((key, refl), ((registry, refl), tt))
