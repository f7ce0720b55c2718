-- ===== src/Secrets/Template.antt =====
-- `ConfigureSecrets` and `ReadFunctionSecretsSpec` of pkg/k8s/secrets.go: the secrets of a function
-- in the pod template of its deployment.
pub mod Again
pub mod RoundTrip
use faas_share.Common.{
  String, Bool, true, ◌||◌, Option, none, some, List, [], ◌∷◌, ◌++◌, map, Map, lookup, str_eq,
  ◌+++◌, sort_texts, if◌then◌else◌,
}
use faas_share.Kube.{SecretProjection, Volume, VolumeMount}
use faas_share.Operator.Deployment.{PodSpec, SpecContainer, remove_volume, remove_volume_mount}
use faas_share.Secrets.{KubeSecret}

pub record Template : Type 0 where
  pub image_pull_secrets : List String
  pub pod : PodSpec

-- What the loop over the requested secrets has gathered.
pub record Gathered : Type 0 where
  pub pull_secrets : List String
  pub projections : List (Option SecretProjection)

-- The answer, with the template as it is left.
pub data Configured : Type 0 where
  configured : Template → Configured
  missing_secret : String → Template → Configured

abbrev pub secrets_mount_path : String
secrets_mount_path = "/var/openfaas/secrets"

abbrev pub volume_name : String → String
volume_name service = service +++ "-projected-secrets"

abbrev pub is_pull_secret : KubeSecret → Bool
is_pull_secret k =
    str_eq k.secret_type "kubernetes.io/dockercfg"
    || str_eq k.secret_type "kubernetes.io/dockerconfigjson"

abbrev pub projection_of : String → KubeSecret → SecretProjection
projection_of name k = record { name = name; items = map (λ kv. (kv.0, kv.0)) k.data_map }

-- One secret that is there.
unfoldable pub gather_secret : String → KubeSecret → Gathered → Gathered
gather_secret name k g =
    if is_pull_secret k
    then record g { pull_secrets = g.pull_secrets ++ name ∷ [] }
    else record g { projections = g.projections ++ some (projection_of name k) ∷ [] }

-- The loop, with the first secret that is not there.
unfoldable pub gather_secrets : Map KubeSecret → List String → Gathered → Gathered × Option String
gather_secrets existing [] g = (g, none)
gather_secrets existing (name ∷ names) g = elim (lookup name existing) [
  | none ↦ (g, some name)
  | some k ↦ gather_secrets existing names (gather_secret name k g)
]

abbrev pub is_none_left : List (Option SecretProjection) → Bool
is_none_left [] = true
is_none_left (p ∷ ps) = Bool.false

abbrev pub secrets_volume : String → List (Option SecretProjection) → Volume
secrets_volume service ps = record {
  name = volume_name service;
  host_path = "";
  projected = some ps;
}

abbrev pub secrets_mount : String → VolumeMount
secrets_mount service = record {
  name = volume_name service;
  mount_path = secrets_mount_path;
  read_only = true;
}

-- A container of the template with the mount, or without it.
unfoldable pub mount_secrets : String → Bool → SpecContainer → SpecContainer
unfolding remove_volume_mount
mount_secrets service nothing c =
    let others = remove_volume_mount (volume_name service) c.volume_mounts in
    record c { volume_mounts = if nothing then others else others ++ secrets_mount service ∷ [] }

-- The volume and the mounts of the projected secrets.
unfoldable pub place_secrets : String → List (Option SecretProjection) → PodSpec → PodSpec
unfolding remove_volume mount_secrets
place_secrets service ps pod =
    let others = remove_volume (volume_name service) pod.volumes in
    record pod {
      volumes = if is_none_left ps then others else others ++ secrets_volume service ps ∷ [];
      containers = map (mount_secrets service (is_none_left ps)) pod.containers;
    }

-- The rest of `ConfigureSecrets`, after the loop over the requested secrets.
unfoldable pub finish_secrets : String → Template → Gathered × Option String → Configured
unfolding place_secrets
finish_secrets service t (g, some name) =
    missing_secret name (record t { image_pull_secrets = g.pull_secrets })
finish_secrets service t (g, none) = configured (record {
  image_pull_secrets = g.pull_secrets;
  pod = place_secrets service g.projections t.pod;
})

abbrev pub start_of : Template → Gathered
start_of t = record { pull_secrets = t.image_pull_secrets; projections = [] }

-- `ConfigureSecrets`
unfoldable pub configure_secrets : Map KubeSecret → String → List String → Template → Configured
unfolding gather_secrets finish_secrets
configure_secrets existing service requested t =
    finish_secrets service t (gather_secrets existing requested (start_of t))

-- The first volume with a name.
unfoldable pub find_volume : String → List Volume → Option Volume
find_volume name [] = none
find_volume name (v ∷ vs) =
    let rest = find_volume name vs in if str_eq v.name name then some v else rest

-- The names of the secrets among the sources of a volume.
unfoldable pub source_names : List (Option SecretProjection) → List String
source_names [] = []
source_names (none ∷ ps) = source_names ps
source_names (some p ∷ ps) = p.name ∷ source_names ps

-- `ReadFunctionSecretsSpec`: `none` for a panic, where a volume with the name is not projected.
unfoldable pub read_secrets : String → Template → Option (List String)
unfolding find_volume source_names
read_secrets name t = elim (find_volume (volume_name name) t.pod.volumes) [
  | none ↦ some (sort_texts t.image_pull_secrets)
  | some v ↦ elim v.projected [
    | none ↦ none
    | some ps ↦ some (sort_texts (t.image_pull_secrets ++ source_names ps))
  ]
]
