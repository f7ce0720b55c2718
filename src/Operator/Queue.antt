-- ===== src/Operator/Queue.antt =====
-- pkg/controller/controller.go as it runs: the handlers that `NewController` registers for the
-- SharePods, and the workers. The handler of the cluster's events only logs. A worker has its key for
-- itself until `Done`, so that the item of a worker is one event.
pub mod Runs
pub mod Steps
mod Tests
use faas_share.Common.{String, Bool, Option, none, some, List, [], ◌∷◌}
use faas_share.Kube.WorkQueue.{WorkQueue}
use faas_share.Operator.Deployment.{Json, SharePod}
use faas_share.Operator.Sync.{
  Api, Call, create_deployment, update_deployment, create_service, update_service,
  delete_deployment, event, add_rate_limited, forget, done, process_item, handle_deleted,
}

-- The key of a SharePod is what `MetaNamespaceKeyFunc` answers; an object that is deleted need not be
-- a SharePod.
pub data OperatorEvent : Type 0 where
  share_pod_added share_pod_updated : Option String → OperatorEvent
  share_pod_deleted : Option SharePod → OperatorEvent
  worked : Api → String → OperatorEvent

-- `enqueueFunction`
unfoldable pub enqueue_function : Option String → List Call
enqueue_function none = []
enqueue_function (some key) = add_rate_limited key ∷ []

-- `handleDeletedSharePod` with the check of the type.
unfoldable pub handle_deleted_object : Option SharePod → List Call
unfolding handle_deleted
handle_deleted_object none = []
handle_deleted_object (some sp) = handle_deleted sp

module _ (json : Json) (set_non_root : Bool) (w : WorkQueue) where
  -- What a call does to the queue.
  unfoldable pub perform_call : Call → w.Queue → w.Queue
  perform_call (add_rate_limited k) q = w.add_rate_limited k q
  perform_call (forget k) q = w.forget k q
  perform_call (done k) q = w.done k q
  perform_call (create_deployment d) q = q
  perform_call (update_deployment d) q = q
  perform_call (create_service s) q = q
  perform_call (update_service s) q = q
  perform_call (delete_deployment namespace name) q = q
  perform_call (event text) q = q

  unfoldable pub perform_all : List Call → w.Queue → w.Queue
  unfolding perform_call
  perform_all [] q = q
  perform_all (c ∷ cs) q = perform_all cs (perform_call c q)

  -- The informer's handlers, and one item of `runWorker`; a panic runs the deferred `Done`.
  unfoldable pub step : OperatorEvent → w.Queue → w.Queue
  unfolding perform_all process_item enqueue_function handle_deleted_object
  step (share_pod_added key) q = perform_all (enqueue_function key) q
  step (share_pod_updated key) q = perform_all (enqueue_function key) q
  step (share_pod_deleted sp) q = perform_all (handle_deleted_object sp) q
  step (worked api key) q = elim (process_item json set_non_root api key) [
    | none ↦ w.done key (w.get key q)
    | some calls ↦ perform_all calls (w.get key q)
  ]

  unfoldable pub run : List OperatorEvent → w.Queue → w.Queue
  unfolding step
  run [] q = q
  run (e ∷ es) q = run es (step e q)
