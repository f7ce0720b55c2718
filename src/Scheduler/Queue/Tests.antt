-- ===== src/Scheduler/Queue/Tests.antt =====
-- A run in which the lister fails.
use faas_share.Common.{false, none, some, List, [], ◌∷◌, ◌++◌, In, ◌≡◌, refl, ◌⊎◌, inl}
use faas_share.Kube.{failed}
use faas_share.Kube.Thousandths.{thousandths}
use faas_share.Kube.WorkQueue.KeyList.{keys, keys-WorkQueueLaws}
use faas_share.Scheduler.Controller.{Api}
use faas_share.Scheduler.Queue.{SchedulerEvent, pod_added, worked, tick, System, run}
use faas_share.Scheduler.Queue.Steps.{Ended}
use faas_share.Scheduler.Queue.Run.{run-kept}

abbrev failing : Api
failing = record {
  split_key = λ key. some ("fn", key);
  get_pod = λ namespace name. failed;
  nodes = none;
  pods = none;
  share_pods_listed = false;
  patch_accepted = λ p a node. false;
  new_id = λ node. "abcde";
}

abbrev events : List SchedulerEvent
events = pod_added (some "a") ∷ worked failing "a" ∷ []

abbrev empty : System thousandths keys
empty = record { pending = []; queue = [] }

run-kept_example :
    let t = run thousandths keys events empty in
    ((In "a" t.pending ⊎ In "a" t.queue) ⊎ Ended thousandths "a" events)
    × (In "a" (run thousandths keys (events ++ tick ∷ []) empty).queue
        ⊎ Ended thousandths "a" events)
run-kept_example = run-kept thousandths keys keys-WorkQueueLaws "a" events empty (inl refl)

-- The failed key is in the queue again.
retried : (run thousandths keys events empty).queue ≡ "a" ∷ []
unfolding run
retried = refl
