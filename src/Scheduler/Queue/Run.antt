-- ===== src/Scheduler/Queue/Run.antt =====
-- No pod is lost over a run of the scheduler.
use faas_share.Common.{String, some, List, [], ◌∷◌, ◌++◌, In, ◌≡◌, refl, subst, ◌⊎◌, inl, inr}
use faas_share.Kube.{Float64}
use faas_share.Kube.WorkQueue.{WorkQueue, WorkQueueLaws}
use faas_share.Scheduler.Controller.{enqueue_pod}
use faas_share.Scheduler.Queue.{
  SchedulerEvent, pod_added, tick, System, perform_call, perform_all, step, run,
}
use faas_share.Scheduler.Queue.Steps.{Ended, Held, step-Held, changed-Holds}

module _ (fl : Float64) (w : WorkQueue) (laws : WorkQueueLaws w) (k : String) where
  pod_added-Holds : (s : System fl w) → Held fl w laws k (step fl w (pod_added (some k)) s)
  unfolding step enqueue_pod perform_all perform_call
  pod_added-Holds s = inr (laws.holds_add k s.queue)

  run-Held :
      (es : List SchedulerEvent) (s : System fl w)
      → Held fl w laws k s
      → Held fl w laws k (run fl w es s) ⊎ Ended fl k es
  unfolding run
  run-Held [] s h = inl h
  run-Held (e ∷ es) s h = elim (step-Held fl w laws k e s h) [
    | inr (api, is, ends) ↦ inr (api, inl is, ends)
    | inl held ↦ elim (run-Held es (step fl w e s) held) [
      | inl still ↦ inl still
      | inr (api, there, ends) ↦ inr (api, inr there, ends)
    ]
  ]

  run-added :
      (es : List SchedulerEvent) (s : System fl w)
      → In (pod_added (some k)) es
      → Held fl w laws k (run fl w es s) ⊎ Ended fl k es
  unfolding run
  run-added [] s h = elim h [ ]
  run-added (e ∷ es) s (inl is) =
      elim (run-Held es (step fl w e s)
        (subst (λ e. Held fl w laws k (step fl w e s)) is (pod_added-Holds s))) [
          | inl still ↦ inl still
          | inr (api, there, ends) ↦ inr (api, inr there, ends)
        ]
  run-added (e ∷ es) s (inr later) = elim (run-added es (step fl w e s) later) [
    | inl still ↦ inl still
    | inr (api, there, ends) ↦ inr (api, inr there, ends)
  ]

  run-append :
      (es : List SchedulerEvent) (e : SchedulerEvent) (s : System fl w)
      → run fl w (es ++ e ∷ []) s ≡ step fl w e (run fl w es s)
  unfolding run
  run-append [] e s = refl
  run-append (d ∷ es) e s = run-append es e (step fl w d s)

  -- The client library's queue does what it documents. Then no pod that was reported as added is
  -- lost, whatever happens and however the API answers each worker: after any run its key is in the
  -- pending list or the queue, or some worker of the run is done with it for good: it waits for
  -- ever, the API has accepted the pod with the name of a node, or the key was dropped for a stated
  -- reason. And if the ticker fires next, the key is in the queue, if no worker was done with it.
  pub run-kept :
      (es : List SchedulerEvent) (s : System fl w)
      → In (pod_added (some k)) es
      → let t = run fl w es s in
        ((In k t.pending ⊎ w.Holds k t.queue) ⊎ Ended fl k es)
        × (w.Holds k (run fl w (es ++ tick ∷ []) s).queue ⊎ Ended fl k es)
  unfolding step
  run-kept es s added = (
    run-added es s added,
    elim (run-added es s added) [
      | inr ends ↦ inr ends
      | inl held ↦ inl (rw (run-append es tick s) (changed-Holds fl w laws k (run fl w es s) held))
    ],
  )
