-- ===== src/Operator/Deployment.antt =====
-- pkg/controller/deployment.go, `getReplicas` of controller.go, and the parts of pkg/k8s that a
-- deployment goes through.
pub mod Laws
pub mod Annotations
pub mod Twice
use faas_share.Common.{
  ℕ, String, ℤ, pos, negsuc, to_int32, Bool, true, false, not, ◌==◌, Option, none, some, List, [],
  ◌∷◌, ◌++◌, map, keep, Map, lookup, insert, value_at, is_empty, str_eq, ltb_ℤ, parse_int,
  if◌then◌else◌,
}
use faas_share.Kube.{Volume, VolumeMount}

pub record SecurityContext : Type 0 where
  pub allow_privilege_escalation : Option Bool
  pub run_as_user : Option ℤ
  pub read_only_root_filesystem : Option Bool

pub record SpecContainer : Type 0 where
  pub name : String
  pub image : String
  pub security_context : Option SecurityContext
  pub volume_mounts : List VolumeMount

pub record PodSpec : Type 0 where
  pub containers : List SpecContainer
  pub volumes : List Volume
  pub node_name : String

pub record SharePod : Type 0 where
  pub namespace : String
  pub name : String
  pub uid : String
  pub labels : Map String
  pub annotations : Map String
  pub spec : PodSpec

pub record Deployment : Type 0 where
  pub namespace : String
  pub name : String
  -- The UID of the controller among the owner references.
  pub controlled_by : Option String
  pub annotations : Map String
  pub replicas : Option ℤ
  pub match_labels : Map String
  pub template_labels : Map String
  pub template_annotations : Map String
  pub spec : PodSpec

pub record Json : Type 0 where
  pub marshal : PodSpec → Option String
  pub unmarshal : String → Option PodSpec
  -- `cmp.Diff(a, b) == ""`
  pub same : PodSpec → PodSpec → Bool

abbrev pub label_min_replicas : String
label_min_replicas = "com.openfaas.scale.min"

abbrev pub annotation_function_spec : String
annotation_function_spec = "faas-sahre.sharepod.spec"

-- `minReplicas` of `getReplicas`, where the result of `Atoi` is cut to an int32.
unfoldable pub min_replicas : Map String → Option ℤ
min_replicas labels = elim (lookup label_min_replicas labels) [
  | none ↦ none
  | some text ↦ elim (parse_int text) [
    | none ↦ none
    | some (pos ℕ.zero) ↦ none
    | some (pos (ℕ.suc n)) ↦ some (to_int32 (ℕ.suc n))
    | some (negsuc n) ↦ none
  ]
]

abbrev is_zero : ℤ → Bool
is_zero (pos n) = n == 0
is_zero (negsuc n) = false

-- The rest of `getReplicas`, from the minimum and the replicas of the deployment.
unfoldable pub choose_replicas : Option ℤ → Option ℤ → Option ℤ
choose_replicas none none = none
choose_replicas (some m) none = some m
choose_replicas none (some d) = some d
choose_replicas (some m) (some d) =
    if is_zero d then some d else if not (ltb_ℤ d m) then some d else some m

-- `getReplicas`; no deployment is `none`, like one without replicas.
unfoldable pub get_replicas : Map String → Option Deployment → Option ℤ
unfolding min_replicas choose_replicas
get_replicas labels none = choose_replicas (min_replicas labels) none
get_replicas labels (some d) = choose_replicas (min_replicas labels) d.replicas

-- The copy of a map over another.
unfoldable pub copy_over : Map String → Map String → Map String
copy_over [] m = m
copy_over ((k, v) ∷ kvs) m = copy_over kvs (insert k v m)

-- `makeLabels`
unfoldable pub make_labels : SharePod → Map String
unfolding copy_over
make_labels sp =
    copy_over sp.labels
      (("faas_function", sp.name) ∷ ("app", sp.name) ∷ ("controller", sp.name) ∷ [])

-- `makeAnnotations`
unfoldable pub make_annotations : Json → SharePod → Map String
unfolding copy_over
make_annotations json sp =
    let copied = copy_over sp.annotations (("prometheus.io.scrape", "false") ∷ []) in
    elim (json.marshal sp.spec) [
      | none ↦ copied
      | some text ↦ insert annotation_function_spec text copied
    ]

-- `deploymentNeedsUpdate`
unfoldable pub deployment_needs_update : Json → SharePod → Deployment → Bool
deployment_needs_update json sp d =
    let prev = value_at annotation_function_spec d.annotations in
    let differs : Bool = elim (json.unmarshal prev) [
      | none ↦ true
      | some spec ↦ not (json.same spec sp.spec)
    ] in
    if is_empty prev then true else differs

abbrev pub no_context : SecurityContext
no_context = record {
  allow_privilege_escalation = none;
  run_as_user = none;
  read_only_root_filesystem = none;
}

abbrev pub context_of : SpecContainer → SecurityContext
context_of c = elim c.security_context [ none ↦ no_context | some x ↦ x ]

-- `ConfigureContainerUserID`: `none` for a panic, without a container.
unfoldable pub configure_user_id : Bool → PodSpec → Option PodSpec
configure_user_id set_non_root spec = elim spec.containers [
  | [] ↦ none
  | c ∷ cs ↦
      let user : Option ℤ = if set_non_root then some (pos 12000) else none in
      let x = record (context_of c) { run_as_user = user } in
      some (record spec { containers = record c { security_context = some x } ∷ cs })
]

-- `removeVolume` and `removeVolumeMount`
unfoldable pub remove_volume : String → List Volume → List Volume
remove_volume name vs = keep (λ (v : Volume). not (str_eq v.name name)) vs

unfoldable pub remove_volume_mount : String → List VolumeMount → List VolumeMount
remove_volume_mount name ms = keep (λ (m : VolumeMount). not (str_eq m.name name)) ms

-- `ConfigureReadOnlyRootFilesystem`; an empty directory has no path of the host.
unfoldable pub configure_read_only : Bool → PodSpec → Option PodSpec
unfolding remove_volume remove_volume_mount
configure_read_only read_only spec = elim spec.containers [
  | [] ↦ none
  | c ∷ cs ↦
      let x = record (context_of c) { read_only_root_filesystem = some read_only } in
      let volumes = remove_volume "temp" spec.volumes in
      let mounts = remove_volume_mount "temp" c.volume_mounts in
      let volume : Volume = record { name = "temp"; host_path = ""; projected = none } in
      let mount : VolumeMount = record { name = "temp"; mount_path = "/tmp"; read_only = false } in
      some (record spec {
        volumes = if read_only then volumes ++ volume ∷ [] else volumes;
        containers =
            record c {
              security_context = some x;
              volume_mounts = if read_only then mounts ++ mount ∷ [] else mounts;
            }
            ∷ cs;
      })
]

-- The security context that `newDeployment` gives every container.
abbrev pub confined : SpecContainer → SpecContainer
confined c = record c {
  security_context = some (record no_context { allow_privilege_escalation = some false });
}

-- `newDeployment`
unfoldable pub new_deployment : Json → Bool → SharePod → Option Deployment → Option Deployment
unfolding make_labels make_annotations get_replicas configure_user_id
new_deployment json set_non_root sp existing =
    let labels = make_labels sp in
    let annotations = make_annotations json sp in
    let spec = record sp.spec { containers = map confined sp.spec.containers } in
    elim (configure_user_id set_non_root spec) [
      | none ↦ none
      | some configured ↦ some (record {
        namespace = sp.namespace;
        name = sp.name;
        controlled_by = some sp.uid;
        annotations = annotations;
        replicas = get_replicas sp.labels existing;
        match_labels = ("app", sp.name) ∷ ("controller", sp.name) ∷ [];
        template_labels = labels;
        template_annotations = annotations;
        spec = configured;
      })
    ]
