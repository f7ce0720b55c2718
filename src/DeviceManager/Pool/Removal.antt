-- ===== src/DeviceManager/Pool/Removal.antt =====
-- pkg/devicemanager/gpupool.go: `removeSharePodDepFromList`, with its mutex.
use faas_share.Common.{
  String, ◌-ℤ◌, sub64, ◌||◌, Bool, true, false, Option, none, some, List, [], ◌∷◌, lookup, erase,
  value_at, str_eq, ◌+++◌, if◌then◌else◌,
}
use faas_share.Kube.{Float64, Pod, gpuid_key}
use faas_share.Bitmap.{rr_unmask}
use faas_share.DeviceManager.State.{
  PodRequest, GpuInfo, NodeInfo, State, set_node, set_gpu, port_start,
}
use faas_share.DeviceManager.Config.{sync_config}
use faas_share.DeviceManager.Pool.{find_in_queue, delete_dummy_pod}

-- `sync.Mutex.Unlock` on a mutex that is held or not; unlocking a free one is a fatal error.
unfoldable pub unlock : Bool → Option Bool
unlock true = some false
unlock false = none

-- How a call of `removeSharePodDepFromList` ends, with the state at that time.
pub data Ended {ℓ} (S : Type ℓ) : Type ℓ where
  returned : S → Ended S
  panicked : S → Ended S
  fatal : S → Ended S

module _ (fl : Float64) where
  -- `podlist.Remove` of the first entry with the key.
  unfoldable pub without_key : String → List (PodRequest fl) → List (PodRequest fl)
  without_key key [] = []
  without_key key (p ∷ ps) = if str_eq p.key key then ps else p ∷ without_key key ps

  -- The GPU and the calls after a pod has left it: `none` in front where it is deleted.
  unfoldable pub leave_gpu :
      String
      → String
      → PodRequest fl
      → NodeInfo fl
      → GpuInfo fl
      → State fl
      → NodeInfo fl × (Option String × State fl)
  unfolding without_key set_gpu sync_config
  leave_gpu name id p n g s = elim (without_key p.key g.pod_list) [
    | [] ↦ (record n { gpus = erase id n.gpus }, (some g.uuid, s))
    | q ∷ qs ↦
        let left = record g {
          usage = fl.sub g.usage p.request;
          mem = sub64 g.mem p.memory;
          pod_list = q ∷ qs;
        } in
        (set_gpu fl id left n, (none, (sync_config fl name g.uuid (q ∷ qs) s).0))
  ]

  -- What happens to an entry that was found, up to the first `Unlock`: the state, and the UUID of
  -- the dummy pod to delete; `none` where `Unmask` panics.
  unfoldable pub remove_request :
      String
      → String
      → PodRequest fl
      → NodeInfo fl
      → GpuInfo fl
      → State fl
      → Option (State fl × Option String)
  unfolding leave_gpu set_node
  remove_request name id p n g s =
      let left = leave_gpu name id p n g s in
      elim (rr_unmask n.bitmap (p.port -ℤ port_start)) [
        | none ↦ none
        | some free ↦ some (set_node fl name (record left.0 { bitmap = free }) left.1.1, left.1.0)
      ]

  -- `deleteDummyPod`, if the list has become empty.
  unfoldable pub delete_if : String → String → Option String → State fl → State fl
  unfolding delete_dummy_pod
  delete_if name id none s = s
  delete_if name id (some uuid) s = delete_dummy_pod fl name id uuid s

  -- The entry of a pod, if its node and its GPU know it.
  unfoldable pub entry_of :
      String → String → String → State fl → Option (PodRequest fl × (NodeInfo fl × GpuInfo fl))
  unfolding find_in_queue
  entry_of name id key s = elim (lookup name s.nodes) [
    | none ↦ none
    | some n ↦ elim (lookup id n.gpus) [
      | none ↦ none
      | some g ↦ elim (find_in_queue fl key g.pod_list) [ none ↦ none | some p ↦ some (p, (n, g)) ]
    ]
  ]

  -- One round of the loop over the pods, up to its last `Unlock`. `continue` belongs to the loop
  -- over the list, which ends there, since a removed element has no next one; so the last `Unlock`
  -- comes after the first. `taken` says whether another goroutine holds the mutex by then: it may
  -- take it as soon as the first `Unlock` is made, also while the dummy pod is deleted.
  unfoldable pub remove_pod : Pod → Bool → State fl → Ended (State fl)
  unfolding entry_of remove_request delete_if unlock
  remove_pod pod taken s =
      let name = pod.node_name in
      let id = value_at gpuid_key pod.annotations in
      elim (entry_of name id (pod.namespace +++ "/" +++ pod.name) s) [
        | none ↦ elim (unlock true) [ none ↦ fatal s | some held ↦ returned s ]
        | some (p, (n, g)) ↦ elim (remove_request name id p n g s) [
          | none ↦ panicked s
          | some (t, dummy) ↦ elim (unlock true) [
            | none ↦ fatal t
            | some held ↦
                let u = delete_if name id dummy t in
                elim (unlock (held || taken)) [ none ↦ fatal u | some free ↦ returned u ]
          ]
        ]
      ]

  -- `removeSharePodDepFromList`, with the pods that the lister answers, each with whether another
  -- goroutine holds the mutex at the end of its round.
  unfoldable pub remove_pods : List (Pod × Bool) → State fl → Ended (State fl)
  unfolding remove_pod
  remove_pods [] s = returned s
  remove_pods ((pod, taken) ∷ rounds) s = elim (remove_pod pod taken s) [
    | returned t ↦ remove_pods rounds t
    | panicked t ↦ panicked t
    | fatal t ↦ fatal t
  ]
