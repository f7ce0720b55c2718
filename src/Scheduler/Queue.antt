-- ===== src/Scheduler/Queue.antt =====
-- pkg/scheduler/controller.go as it runs: the events that `NewController` subscribes to, the ticker of
-- `pendingInsurance`, and the workers. The work queue is the client library's, so it is an interface.
-- Workers meet only in the queue and, under its mutex, in the pending list, to which `syncHandler`
-- adds at most once, as its last step: the item of a worker is one event.
pub mod Steps
pub mod Run
mod Tests
use faas_share.Common.{String, Option, none, some, List, [], ◌∷◌}
use faas_share.Kube.{Float64}
use faas_share.Kube.WorkQueue.{WorkQueue}
use faas_share.Scheduler.Controller.{
  Api, Call, add, add_rate_limited, forget, done, patch, synced_event, Controller, process_item,
  enqueue_pod, resource_changed,
}

-- What the informers report, what the ticker does, and a worker that gets a key; the key of a pod is
-- what `MetaNamespaceKeyFunc` answers.
pub data SchedulerEvent : Type 0 where
  pod_added : Option String → SchedulerEvent
  pod_updated pod_deleted share_pod_added share_pod_updated share_pod_deleted : SchedulerEvent
  node_added node_updated node_deleted : SchedulerEvent
  tick : SchedulerEvent
  worked : Api → String → SchedulerEvent

module _ (fl : Float64) (w : WorkQueue) where
  pub record System : Type 0 where
    pub pending : List String
    pub queue : w.Queue

  unfoldable pub perform_call : Call → w.Queue → w.Queue
  perform_call (add k) q = w.add k q
  perform_call (add_rate_limited k) q = w.add_rate_limited k q
  perform_call (forget k) q = w.forget k q
  perform_call (done k) q = w.done k q
  perform_call (patch p a node) q = q
  perform_call (synced_event p) q = q

  unfoldable pub perform_all : List Call → w.Queue → w.Queue
  unfolding perform_call
  perform_all [] q = q
  perform_all (c ∷ cs) q = perform_all cs (perform_call c q)

  abbrev pub idle_controller : System → Controller
  idle_controller s = record { pending = s.pending; calls = [] }

  -- The system after a handler that leaves the controller so.
  abbrev pub after_calls : Controller → w.Queue → System
  after_calls c q = record { pending = c.pending; queue = perform_all c.calls q }

  abbrev pub changed : System → System
  changed s = after_calls (resource_changed (idle_controller s)) s.queue

  -- The handlers that `NewController` registers, and `pendingInsurance`. A worker whose `syncHandler`
  -- does not return keeps its key for ever.
  unfoldable pub step : SchedulerEvent → System → System
  unfolding perform_all process_item enqueue_pod resource_changed
  step (pod_added key) s = after_calls (enqueue_pod key (idle_controller s)) s.queue
  step pod_deleted s = changed s
  step share_pod_deleted s = changed s
  step node_deleted s = changed s
  step tick s = changed s
  step pod_updated s = s
  step share_pod_added s = s
  step share_pod_updated s = s
  step node_added s = s
  step node_updated s = s
  step (worked api key) s = elim (process_item fl api key (idle_controller s)) [
    | none ↦ record s { queue = w.get key s.queue }
    | some c ↦ after_calls c (w.get key s.queue)
  ]

  unfoldable pub run : List SchedulerEvent → System → System
  unfolding step
  run [] s = s
  run (e ∷ es) s = run es (step e s)
