-- ===== src/Scheduler/Controller.antt =====
-- pkg/scheduler/controller.go: the handlers of the scheduler's work queue and its list of pods that
-- wait for resources. The listers, the patch call and `SplitMetaNamespaceKey` are the client
-- library's, and stand in `Api`; the calls of the work queue are recorded in order.
pub mod Fate
use faas_share.Common.{
  String, Bool, true, false, ◌||◌, not, Option, none, some, List, [], ◌∷◌, ◌++◌, map, Map, insert,
  value_at, is_empty, if◌then◌else◌,
}
use faas_share.Kube.{
  Lookup, found, not_found, failed, Float64, Pod, Node, gpu_request_key, gpuid_key,
}
use faas_share.Kube.GpuSpec.{GpuSpec, parse_spec}
use faas_share.Scheduler.BestFit.{schedule_share_pod}

pub record Api : Type 0 where
  pub split_key : String → Option (String × String)
  pub get_pod : String → String → Lookup Pod
  pub nodes : Option (List Node)
  pub pods : Option (List Pod)
  pub share_pods_listed : Bool
  pub patch_accepted : Pod → Map String → String → Bool
  pub new_id : String → String

pub data Call : Type 0 where
  add add_rate_limited forget done : String → Call
  patch : Pod → Map String → String → Call
  synced_event : Pod → Call

pub record Controller : Type 0 where
  pub pending : List String
  pub calls : List Call

unfoldable pub record_call : Call → Controller → Controller
record_call call c = record c { calls = c.calls ++ call ∷ [] }

-- The annotations that `bindSharePodToNode` patches in.
unfoldable pub bound_annotations : String → Map String → Map String
bound_annotations id a = if is_empty id then a else insert gpuid_key id a

-- `bindSharePodToNode`, and the event after it; the test is whether an error is returned.
unfoldable pub bind_share_pod : Api → Pod → String → String → Controller → Controller × Bool
unfolding record_call bound_annotations
bind_share_pod api p node id c =
    let a = bound_annotations id p.annotations in
    let patched = record_call (patch p a node) c in
    if api.patch_accepted p a node
    then (record_call (synced_event p) patched, false)
    else (patched, true)

-- What `syncHandler` does with the answer of `scheduleSharePod`.
unfoldable pub place : Api → String → Pod → String × String → Controller → Controller × Bool
unfolding bind_share_pod
place api key p (node, id) c =
    if is_empty node
    then (record c { pending = c.pending ++ key ∷ [] }, false)
    else bind_share_pod api p node id c

module _ (fl : Float64) where
  -- The lists that the scheduling needs, in the order of their calls.
  unfoldable pub schedule_pod :
      Api → String → Pod → GpuSpec fl → Controller → Option (Controller × Bool)
  unfolding place
  schedule_pod api key p spec c = elim api.nodes [
    | none ↦ some (c, true)
    | some ns ↦ elim api.pods [
      | none ↦ some (c, true)
      | some ps ↦ elim api.share_pods_listed [
        | false ↦ some (c, true)
        | true ↦ elim (schedule_share_pod fl true spec.request spec.mem p api.new_id ns ps) [
          | none ↦ none
          | some chosen ↦ some (place api key p chosen c)
        ]
      ]
    ]
  ]

  -- `syncHandler` from the checks of the pod on.
  unfoldable pub handle_pod : Api → String → Pod → Controller → Option (Controller × Bool)
  unfolding schedule_pod
  handle_pod api key p c =
      let checked : Option (Controller × Bool) = elim (parse_spec fl p.annotations) [
        | none ↦ some (c, false)
        | some spec ↦
            if not (is_empty (value_at gpuid_key p.annotations))
            then some (c, false)
            else schedule_pod api key p spec c
      ] in
      if is_empty (value_at gpu_request_key p.annotations) || not (is_empty p.node_name)
      then some (c, false)
      else checked

  -- `syncHandler`: the controller after it and whether an error is returned; `none` where the
  -- worker waits for ever.
  unfoldable pub sync_handler : Api → String → Controller → Option (Controller × Bool)
  unfolding handle_pod
  sync_handler api key c = elim (api.split_key key) [
    | none ↦ some (c, false)
    | some (namespace, name) ↦ elim (api.get_pod namespace name) [
      | not_found ↦ some (c, false)
      | failed ↦ some (c, true)
      | found p ↦ handle_pod api key p c
    ]
  ]

  -- The item of `processNextWorkItem`.
  unfoldable pub process_item : Api → String → Controller → Option Controller
  unfolding sync_handler
  process_item api key c = elim (sync_handler api key c) [
    | none ↦ none
    | some (s, error) ↦ some (
        record_call (done key) (record_call (if error then add_rate_limited key else forget key) s))
  ]

-- `enqueuenPod`, with the key that `MetaNamespaceKeyFunc` returns; `none` for its error.
unfoldable pub enqueue_pod : Option String → Controller → Controller
enqueue_pod none c = c
enqueue_pod (some key) c = record_call (add key) c

-- `resourceChanged`
unfoldable pub resource_changed : Controller → Controller
resource_changed c = record c { pending = []; calls = c.calls ++ map add c.pending }
