-- ===== src/DeviceManager/Controller.antt =====
-- pkg/devicemanager/controller.go: the handlers. The listers, `SplitMetaNamespaceKey`, the patch
-- call and the lookups of owners are the client library's, and stand in `Api`.
pub mod Laws
use faas_share.Common.{
  ◌==◌, String, ℤ, pos, Bool, true, false, ◌&&◌, ◌||◌, not, Option, none, some, List, [], ◌∷◌, ◌++◌,
  map, Map, lookup, insert, value_at, str_eq, is_empty, contains, show_int, ◌+++◌, if◌then◌else◌,
}
use faas_share.Kube.{
  Float64, Pod, EnvVar, VolumeMount, Volume, Container, OwnerReference, Lookup, found, not_found,
  failed, gpu_request_key, gpu_limit_key, gpu_mem_key, gpuid_key, dummy_pod_name,
}
use faas_share.Kube.GpuSpec.{GpuSpec, parse_spec, names_gpu}
use faas_share.DeviceManager.State.{
  Call, patch, event, add, add_rate_limited, forget, done, go_get_uuid, GpuInfo, NodeInfo, State,
  record_call,
}
use faas_share.DeviceManager.Pool.{Claim, Reply, get_physical_gpu}

abbrev pub library_path : String
library_path = "/kubeshare/library"

-- The environment variables that `newPod` appends.
unfoldable pub gpu_env : Pod → String → ℤ → String → List EnvVar
gpu_env p ip port device =
    record { name = "NVIDIA_VISIBLE_DEVICES"; value = device }
    ∷ record { name = "NVIDIA_DRIVER_CAPABILITIES"; value = "compute,utility" }
    ∷ record { name = "LD_PRELOAD"; value = library_path +++ "/libgemhook.so.1" }
    ∷ record { name = "POD_MANAGER_IP"; value = ip }
    ∷ record { name = "POD_MANAGER_PORT"; value = show_int port }
    ∷ record { name = "POD_NAME"; value = p.namespace +++ "/" +++ p.name }
    ∷ []

unfoldable pub gpu_container : Pod → String → ℤ → String → Container → Container
unfolding gpu_env
gpu_container p ip port device c =
    let lib : VolumeMount = record {
      name = "kubeshare-lib";
      mount_path = library_path;
      read_only = false;
    } in
    record c {
      env = c.env ++ gpu_env p ip port device;
      volume_mounts = c.volume_mounts ++ lib ∷ [];
    }

-- The four assignments to `annotationCopy`: a key that was missing is there with an empty value.
unfoldable pub gpu_annotations : Map String → Map String
gpu_annotations a = insert gpuid_key (value_at gpuid_key a) (
    insert gpu_mem_key (value_at gpu_mem_key a) (
      insert gpu_limit_key (value_at gpu_limit_key a)
        (insert gpu_request_key (value_at gpu_request_key a) a)))

-- `newPod`; the status is not copied.
unfoldable pub new_pod : Pod → Bool → String → ℤ → String → Pod
unfolding gpu_container gpu_annotations
new_pod p is_gpu_pod ip port device =
    let lib : Volume = record {
      name = "kubeshare-lib";
      host_path = library_path;
      projected = none;
    } in
    let plain = record p { phase = "" } in
    if is_gpu_pod
    then record plain {
      annotations = gpu_annotations p.annotations;
      containers = map (λ c. gpu_container p ip port device c) p.containers;
      volumes = p.volumes ++ lib ∷ [];
    }
    else plain

-- What the handlers read of a deployment.
pub record Deployment : Type 0 where
  pub namespace : String
  pub name : String
  pub owner : Option OwnerReference

pub record Api : Type 0 where
  pub split_key : String → Option (String × String)
  pub get_deployment : String → String → Lookup Deployment
  -- The pods that the selector of a deployment selects; `none` for an error of either call.
  pub pods_of : Deployment → Option (List Pod)
  -- The pod that `Patch` returns, also with an error.
  pub patch_result : Pod → Pod
  -- The controller of a replica set; `none` for an error of `Get`.
  pub get_replica_set : String → String → Option (Option OwnerReference)

-- What `syncHandler` does after the checks of a pod: on to the next pod, or back, with an error or
-- without; `crash` where it reads past the end of a slice or through a nil pointer.
pub data Next {ℓ} (S : Type ℓ) : Type ℓ where
  next_pod : S → Next S
  back : S → Bool → Next S
  crash : Next S

module _ (fl : Float64) where
  -- The patch of a pod: nothing on a node that is not known. The containers and volumes of the
  -- answer are printed, and the first of each has to be there.
  unfoldable pub patch_pod : Api → String → Pod → Bool → ℤ → String → State fl → Next (State fl)
  unfolding new_pod record_call
  patch_pod api namespace p is_gpu_pod port device s = elim (lookup p.node_name s.nodes) [
    | none ↦ next_pod s
    | some n ↦
        let q = new_pod p is_gpu_pod n.pod_ip port device in
        let sent = record_call fl (patch namespace p.name q.containers q.volumes) s in
        let answer = api.patch_result q in
        elim answer.volumes [
          | [] ↦ crash
          | v ∷ vs ↦ elim answer.containers [
            | [] ↦ crash
            | c ∷ cs ↦ next_pod (record_call fl (event "Synced") sent)
          ]
        ]
  ]

  -- The `switch` over the error code of `getPhysicalGPUuuid`.
  unfoldable pub after_allocation : Api → String → Pod → State fl × Reply → Next (State fl)
  unfolding patch_pod record_call
  after_allocation api namespace p (s, r) =
      let patched = patch_pod api namespace p true r.port r.uuid in
      if r.code == 0
      then patched s
      else if r.code == 1
      then next_pod s
      else if r.code == 2
      then back (record_call fl (event "Resource exceed") s) true
      else if r.code == 3
      then back s true
      else patched (record_call fl (event "Unknown Error") s)

  -- One pod of `syncHandler`.
  unfoldable pub sync_pod : Api → String → String → Pod → State fl → Next (State fl)
  unfolding get_physical_gpu after_allocation patch_pod record_call
  sync_pod api key namespace p s =
      let id = value_at gpuid_key p.annotations in
      let refused = next_pod (record_call fl (event "Value error") s) in
      let gpu : Next (State fl) = elim (parse_spec fl p.annotations) [
        | none ↦ refused
        | some spec ↦
            let c : Claim fl = record {
              key = key;
              request = spec.request;
              limit = spec.limit;
              memory = spec.mem;
            } in
            if is_empty id
            then refused
            else after_allocation api namespace p (get_physical_gpu fl p.node_name id c (pos 0) s)
      ] in
      if is_empty p.node_name
      then back s false
      else if not (is_empty id)
      then next_pod s
      else if names_gpu p.annotations
      then gpu
      else patch_pod api namespace p false (pos 0) "" s

  unfoldable pub sync_pods : Api → String → String → List Pod → State fl → Option (State fl × Bool)
  unfolding sync_pod
  sync_pods api key namespace [] s = some (s, false)
  sync_pods api key namespace (p ∷ ps) s = elim (sync_pod api key namespace p s) [
    | next_pod t ↦ sync_pods api key namespace ps t
    | back t error ↦ some (t, error)
    | crash ↦ none
  ]

  -- `syncHandler`: the state and whether an error is returned; `none` for a crash.
  unfoldable pub sync_handler : Api → String → State fl → Option (State fl × Bool)
  unfolding sync_pods
  sync_handler api key s = elim (api.split_key key) [
    | none ↦ some (s, false)
    | some (namespace, name) ↦ elim (api.get_deployment namespace name) [
      | not_found ↦ some (s, false)
      | failed ↦ some (s, true)
      | found dep ↦ elim dep.owner [
        | none ↦ some (s, false)
        | some o ↦
            let synced : Option (State fl × Bool) = elim (api.pods_of dep) [
              | none ↦ some (s, true)
              | some ps ↦ sync_pods api key namespace ps s
            ] in
            if str_eq o.kind "SharePod" then synced else some (s, false)
      ]
    ]
  ]

  -- The item of `processNextWorkItem`.
  unfoldable pub process_item : Api → String → State fl → Option (State fl)
  unfolding sync_handler record_call
  process_item api key s = elim (sync_handler api key s) [
    | none ↦ none
    | some (t, error) ↦ some (
        record_call fl (done key)
          (record_call fl (if error then add_rate_limited key else forget key) t))
  ]

  -- Whether the UUID of a dummy pod's GPU is still to be read.
  unfoldable pub needs_uuid : String → String → State fl → Bool
  needs_uuid name id s = elim (lookup name s.nodes) [
    | none ↦ false
    | some n ↦ elim (lookup id n.gpus) [ none ↦ false | some g ↦ is_empty g.uuid ]
  ]

  -- The part of `handleObject` for dummy pods.
  unfoldable pub handle_dummy : Pod → State fl → State fl
  unfolding needs_uuid record_call
  handle_dummy p s =
      let is_dummy =
        str_eq p.namespace "kube-system"
        && contains p.name dummy_pod_name
        && (str_eq p.phase "Running" || str_eq p.phase "Failed") in
      if is_dummy && not (is_empty p.node_name)
      then elim (lookup gpuid_key p.labels) [
        | none ↦ s
        | some id ↦
            if needs_uuid p.node_name id s
            then record_call fl (go_get_uuid p.node_name id p.name) s
            else s
      ]
      else s

  -- The part of `handleObject` that follows the owners; `none` where an owner is nil.
  unfoldable pub enqueue_owner : Api → String → Option OwnerReference → State fl → Option (State fl)
  unfolding record_call
  enqueue_owner api namespace none s = some s
  enqueue_owner api namespace (some o) s =
      let followed : Option (State fl) = elim (api.get_replica_set namespace o.name) [
        | none ↦ some s
        | some none ↦ none
        | some (some r) ↦
            let queued : Option (State fl) = elim (api.get_deployment namespace o.name) [
              | not_found ↦ some s
              | failed ↦ some s
              | found dep ↦ elim dep.owner [
                | none ↦ none
                | some d ↦ some (
                    if str_eq d.kind "SharePod"
                    then record_call fl (add (dep.namespace +++ "/" +++ dep.name)) s
                    else s)
              ]
            ] in
            if str_eq r.kind "Deployment" then queued else some s
      ] in
      if str_eq o.kind "ReplicaSet" then followed else some s

  -- `handleObject` of a pod.
  unfoldable pub handle_pod : Api → Option OwnerReference → Pod → State fl → Option (State fl)
  unfolding handle_dummy enqueue_owner
  handle_pod api owner p s = enqueue_owner api p.namespace owner (handle_dummy p s)
