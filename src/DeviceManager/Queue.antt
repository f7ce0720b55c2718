-- ===== src/DeviceManager/Queue.antt =====
-- pkg/devicemanager/controller.go as it runs: the handlers that `NewController` registers, and the
-- workers. A handler is one event: workers meet in the queue and in `nodesInfo`, which the handlers
-- only read. A deployment that is deleted starts a goroutine, whose work is the event. The other
-- goroutines are sections of DeviceManager.Run.
pub mod Nodes
pub mod Steps
pub mod Runs
mod Tests
use faas_share.Common.{String, Bool, Option, none, some, List, [], ◌∷◌}
use faas_share.Kube.{Float64, Pod, OwnerReference}
use faas_share.Kube.WorkQueue.{WorkQueue}
use faas_share.DeviceManager.State.{
  Call, write, close, go_create_dummy, create_pod, delete_pod, go_get_uuid, add, add_rate_limited,
  forget, done, annotate_node, patch, event, State, record_call,
}
use faas_share.DeviceManager.Pool.Removal.{returned, panicked, fatal, remove_pods}
use faas_share.DeviceManager.Controller.{Api, process_item, handle_pod}

-- The key of a deployment is what `MetaNamespaceKeyFunc` answers. A pod that is added, changed or
-- deleted goes to `handleObject`, with its controller. With a deployment that is deleted stand its
-- pods, as for `remove_pods`; `none` is an object that is not a deployment.
pub data ControllerEvent : Type 0 where
  deployment_added deployment_updated : Option String → ControllerEvent
  deployment_deleted : Option (List (Pod × Bool)) → ControllerEvent
  pod_added pod_updated pod_deleted : Api → Option OwnerReference → Pod → ControllerEvent
  worked : Api → String → ControllerEvent

module _ (fl : Float64) (w : WorkQueue) where
  pub record System : Type 0 where
    pub state : State fl
    pub queue : w.Queue

  unfoldable pub perform_call : Call → w.Queue → w.Queue
  perform_call (add k) q = w.add k q
  perform_call (add_rate_limited k) q = w.add_rate_limited k q
  perform_call (forget k) q = w.forget k q
  perform_call (done k) q = w.done k q
  perform_call (write conn text) q = q
  perform_call (close conn) q = q
  perform_call (go_create_dummy node id) q = q
  perform_call (create_pod name node id) q = q
  perform_call (delete_pod name) q = q
  perform_call (go_get_uuid node id name) q = q
  perform_call (annotate_node node annotations) q = q
  perform_call (patch namespace name containers volumes) q = q
  perform_call (event text) q = q

  unfoldable pub perform_all : List Call → w.Queue → w.Queue
  unfolding perform_call
  perform_all [] q = q
  perform_all (c ∷ cs) q = perform_all cs (perform_call c q)

  abbrev pub idle_state : State fl → State fl
  idle_state s = record s { calls = [] }

  abbrev pub after_calls : State fl → w.Queue → System
  after_calls t q = record { state = idle_state t; queue = perform_all t.calls q }

  -- `enqueueDeployment`
  unfoldable pub enqueue_deployment : Option String → State fl → State fl
  unfolding record_call
  enqueue_deployment none s = s
  enqueue_deployment (some key) s = record_call fl (add key) s

  abbrev pub pod_seen : Api → Option OwnerReference → Pod → System → Option System
  pod_seen api owner p s = elim (handle_pod fl api owner p (idle_state s.state)) [
    | none ↦ none
    | some t ↦ some (after_calls t s.queue)
  ]

  -- `handleDeletedSharePodDep` of a deployment, with the goroutine that it starts.
  abbrev pub removed : List (Pod × Bool) → System → Option System
  removed rounds s = elim (remove_pods fl rounds (idle_state s.state)) [
    | returned t ↦ some (after_calls t s.queue)
    | panicked t ↦ none
    | fatal t ↦ none
  ]

  -- One event; `none` is a panic or a fatal error, which ends the program.
  unfoldable pub step : ControllerEvent → System → Option System
  unfolding perform_all process_item handle_pod enqueue_deployment remove_pods
  step (deployment_added key) s =
      some (after_calls (enqueue_deployment key (idle_state s.state)) s.queue)
  step (deployment_updated key) s =
      some (after_calls (enqueue_deployment key (idle_state s.state)) s.queue)
  step (deployment_deleted none) s = some s
  step (deployment_deleted (some rounds)) s = removed rounds s
  step (pod_added api owner p) s = pod_seen api owner p s
  step (pod_updated api owner p) s = pod_seen api owner p s
  step (pod_deleted api owner p) s = pod_seen api owner p s
  step (worked api key) s = elim (process_item fl api key (idle_state s.state)) [
    | none ↦ none
    | some t ↦ some (after_calls t (w.get key s.queue))
  ]

  unfoldable pub run : List ControllerEvent → System → Option System
  unfolding step
  run [] s = some s
  run (e ∷ es) s = elim (step e s) [ none ↦ none | some t ↦ run es t ]
