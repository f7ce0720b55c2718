-- ===== src/Server/Deployed.antt =====
-- pkg/server/apply.go and pkg/controller/controller.go together: from a posted function to its
-- deployment and its service.
use faas_share.Common.{
  String, Bool, true, false, none, some, List, [], ◌∷◌, map, All, Map, lookup, is_empty,
  Option-cases, ◌≡◌, refl, inl, inr,
}
use faas_share.Kube.{found, not_found, gpu_request_key, gpu_limit_key, gpu_mem_key, gpuid_key}
use faas_share.Operator.Deployment.Annotations.{UniqueKeys, lookup-make_annotations}
use faas_share.Operator.Deployment.{
  Json, SpecContainer, PodSpec, SharePod, Deployment, min_replicas, choose_replicas, get_replicas,
  make_labels, configure_user_id, confined, new_deployment,
}
use faas_share.Operator.Deployment.Laws.{lookup-copy_over}
use faas_share.Operator.Sync
use faas_share.Operator.Sync.{
  Service, create_deployment, create_service, event, created, new_service, sync_handler,
}
use faas_share.Operator.Sync.Settled.{sync_share_pod-settled}
use faas_share.Server
use faas_share.Server.{
  ApplyRequest, Cluster, Codec, parsed, finished, header, create_share_pod, lookup_namespace,
}
use faas_share.Server.Handlers.{apply_handler, apply_request, apply_missing, to_sharepod}

-- A function that is posted with its labels and at least one container.
pub record Posted : Type 0 where
  pub service : String
  pub namespace : String
  pub first : SpecContainer
  pub others : List SpecContainer
  pub labels : Map String
  pub annotations : Map String

abbrev pub request_of : Posted → ApplyRequest
request_of p = record {
  service = p.service;
  namespace = p.namespace;
  containers = p.first ∷ p.others;
  labels = some p.labels;
  annotations = p.annotations;
}

abbrev pub requested_spec : Posted → PodSpec
requested_spec p = record { containers = p.first ∷ p.others; volumes = []; node_name = "" }

-- The SharePod of the request, with the UID that the API gives it.
abbrev pub share_pod_of : Posted → String → String → SharePod
share_pod_of p ns uid = record {
  namespace = ns;
  name = p.service;
  uid = uid;
  labels = p.labels;
  annotations = p.annotations;
  spec = requested_spec p;
}

abbrev images : PodSpec → List String
images spec = map (λ (c : SpecContainer). c.image) spec.containers

abbrev gpu_keys : List String
gpu_keys = gpu_request_key ∷ gpu_limit_key ∷ gpu_mem_key ∷ gpuid_key ∷ []

-- The deployment runs the images of the request, as many replicas as its label asks for, under the
-- name that the service selects, and its pods ask for the GPU that the request asks for.
abbrev pub Runs : Posted → String → Deployment → Service → Type 0
Runs p ns d s =
    (d.namespace ≡ ns)
    × (d.name ≡ p.service)
    × (s.name ≡ p.service)
    × (images d.spec ≡ images (requested_spec p))
    × (d.replicas ≡ min_replicas p.labels)
    × (s.selector ≡ ("faas_function", p.service) ∷ [])
    × (lookup "faas_function" d.template_labels ≡ some p.service)
    × All (λ (key : String). lookup key d.template_annotations ≡ lookup key p.annotations) gpu_keys

images-confined :
    (cs : List SpecContainer)
    → map (λ (c : SpecContainer). c.image) (map confined cs)
      ≡ map (λ (c : SpecContainer). c.image) cs
images-confined [] = refl
images-confined (c ∷ cs) = rw (images-confined cs) refl

replicas_at_first : (labels : Map String) → get_replicas labels none ≡ min_replicas labels
unfolding get_replicas choose_replicas
replicas_at_first labels = elim (Option-cases (min_replicas labels)) [
  | inl e ↦ rw (e, choose_replicas) refl
  | inr (m, e) ↦ rw (e, choose_replicas) refl
]

module _ (json : Json) (b : Bool) (p : Posted) (ns uid : String) where
  first_deployment-Runs :
      lookup "faas_function" p.labels ≡ none
      → UniqueKeys p.annotations
      → (d : Deployment) × (new_deployment json b (share_pod_of p ns uid) none ≡ some d)
        × Runs p ns d (new_service (share_pod_of p ns uid))
  unfolding new_deployment configure_user_id new_service make_labels lookup
  first_deployment-Runs own unique =
      let base =
        ("faas_function", p.service) ∷ ("app", p.service) ∷ ("controller", p.service) ∷ [] in
      let kept =
        λ (key : String). lookup-make_annotations json (share_pod_of p ns uid) key unique in
      (
        _,
        refl,
        (
          refl,
          refl,
          refl,
          rw (images-confined p.others) refl,
          replicas_at_first p.labels,
          refl,
          lookup-copy_over "faas_function" p.labels base own,
          (
            kept gpu_request_key refl refl,
            (
              kept gpu_limit_key refl refl,
              (kept gpu_mem_key refl refl, (kept gpuid_key refl refl, tt)),
            ),
          ),
        ),
      )

module _ (cluster : Cluster) (codec : Codec) (default : String) (p : Posted) where
  abbrev place : String
  place = lookup_namespace default p.namespace

  apply_handler-create :
      (body text : String)
      → codec.read_apply body ≡ parsed (request_of p)
      → cluster.get_share_pod place p.service ≡ Server.not_found text
      → cluster.create_error place (share_pod_of p place "") ≡ none
      → apply_handler cluster codec default (some body)
        ≡ finished (create_share_pod place (share_pod_of p place "") ∷ header 202 ∷ [])
  unfolding apply_handler apply_request apply_missing to_sharepod
  apply_handler-create body text read missing takes =
      rw (read, apply_handler, missing, apply_request, apply_missing, takes) refl

  -- Let a function be posted with labels, none of them `faas_function`, and at least one container,
  -- and let the namespace have no SharePod of its name. Let the API take what it is sent and the
  -- lister show the SharePod later, while there is no deployment and no service, and let the JSON of
  -- its spec be read back. Then the handler creates that SharePod and answers 202, and `syncHandler`
  -- of the operator creates a deployment and a service and returns no error. The deployment runs the
  -- images of the request, as many replicas as the minimum of its labels, its pods have the GPU
  -- annotations of the request, and the service selects a label that they have.
  pub apply_handler-deployed :
      (json : Json) (b : Bool) (api : Sync.Api) (body text uid key spec : String)
      → codec.read_apply body ≡ parsed (request_of p)
      → cluster.get_share_pod place p.service ≡ Server.not_found text
      → cluster.create_error place (share_pod_of p place "") ≡ none
      → lookup "faas_function" p.labels ≡ none
      → UniqueKeys p.annotations
      → is_empty p.service ≡ false
      → json.marshal (requested_spec p) ≡ some spec
      → is_empty spec ≡ false
      → json.unmarshal spec ≡ some (requested_spec p)
      → json.same (requested_spec p) (requested_spec p) ≡ true
      → api.split_key key ≡ some (place, p.service)
      → api.get_share_pod place p.service ≡ found (share_pod_of p place uid)
      → api.get_deployment place p.service ≡ not_found
      → ((d : Deployment) → api.create_deployment d ≡ some d)
      → api.get_service place p.service ≡ not_found
      → ((s : Service) → api.create_service s ≡ created)
      → (d : Deployment) × (s : Service) × Runs p place d s
        × (apply_handler cluster codec default (some body)
            ≡ finished (create_share_pod place (share_pod_of p place "") ∷ header 202 ∷ []))
        × (sync_handler json b api key
            ≡ some (create_deployment d ∷ create_service s ∷ event "Synced" ∷ [], false))
  unfolding sync_handler new_service
  apply_handler-deployed json b api body text uid key spec read missing takes own unique named
        written full back reflexive splits listed lacks made unserved serves =
      let sp = share_pod_of p place uid in
      let s = new_service sp in
      let (d, is, runs) = first_deployment-Runs json b p place uid own unique in
      let later = record api {
        get_deployment = λ ns name. found d;
        get_service = λ ns name. found s;
      } in
      let settled =
        sync_share_pod-settled json b sp d s spec api later is written full back reflexive lacks
          (made d) unserved (serves s) refl refl in
      (
        d,
        s,
        runs,
        apply_handler-create body text read missing takes,
        rw (splits, sync_handler, listed, named) settled.0,
      )
