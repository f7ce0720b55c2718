-- ===== src/DeviceManager/Queue/Steps.antt =====
-- What one event of the device manager's controller does to a key.
use faas_share.Common.{
  String, Bool, true, false, none, some, Option, List, [], ◌∷◌, ◌++◌, str_eq, str_eq_iff, ◌≡◌, ◌≢◌,
  refl, sym, subst, ◌⊎◌, inl, inr, Bool-cases, Option-cases, arith,
}
use faas_share.Kube.{Float64, Pod, OwnerReference}
use faas_share.Kube.WorkQueue.{WorkQueue, WorkQueueLaws}
use faas_share.DeviceManager.State.{
  Call, write, close, go_create_dummy, create_pod, delete_pod, go_get_uuid, add, add_rate_limited,
  forget, done, annotate_node, patch, event, State, record_call,
}
use faas_share.DeviceManager.Controller.{Api, sync_handler, process_item, handle_pod}
use faas_share.DeviceManager.Pool.Removal.{Ended, returned, panicked, fatal, remove_pods}
use faas_share.DeviceManager.Queue.Nodes.{Then}
use faas_share.DeviceManager.Queue.{
  ControllerEvent, deployment_added, deployment_updated, deployment_deleted, pod_added, pod_updated,
  pod_deleted, worked, System, perform_call, perform_all, idle_state, after_calls,
  enqueue_deployment, pod_seen, removed, step,
}

-- The informer reports the deployment of a key as added or as changed.
abbrev pub reports : String → ControllerEvent → Bool
reports k (deployment_added none) = false
reports k (deployment_added (some j)) = str_eq j k
reports k (deployment_updated none) = false
reports k (deployment_updated (some j)) = str_eq j k
reports k (deployment_deleted rounds) = false
reports k (pod_added api owner p) = false
reports k (pod_updated api owner p) = false
reports k (pod_deleted api owner p) = false
reports k (worked api j) = false

-- `syncHandler` of the key returns no error, in some state.
abbrev pub Synced : (fl : Float64) → Api → String → Type 0
Synced fl api k = (s : State fl) × (t : State fl) × (sync_handler fl api k s ≡ some (t, false))

module _ (fl : Float64) (w : WorkQueue) (laws : WorkQueueLaws w) (k : String) where
  perform_call-keeps : (c : Call) (q : w.Queue) → w.Holds k q → w.Holds k (perform_call fl w c q)
  unfolding perform_call
  perform_call-keeps (add j) q h = laws.add_keeps j k q h
  perform_call-keeps (add_rate_limited j) q h = laws.add_rate_limited_keeps j k q h
  perform_call-keeps (forget j) q h = laws.forget_keeps j k q h
  perform_call-keeps (done j) q h = laws.done_keeps j k q h
  perform_call-keeps (write conn text) q h = h
  perform_call-keeps (close conn) q h = h
  perform_call-keeps (go_create_dummy node id) q h = h
  perform_call-keeps (create_pod name node id) q h = h
  perform_call-keeps (delete_pod name) q h = h
  perform_call-keeps (go_get_uuid node id name) q h = h
  perform_call-keeps (annotate_node node annotations) q h = h
  perform_call-keeps (patch namespace name containers volumes) q h = h
  perform_call-keeps (event text) q h = h

  perform_all-keeps :
      (cs : List Call) (q : w.Queue) → w.Holds k q → w.Holds k (perform_all fl w cs q)
  unfolding perform_all
  perform_all-keeps [] q h = h
  perform_all-keeps (c ∷ cs) q h =
      perform_all-keeps cs (perform_call fl w c q) (perform_call-keeps c q h)

  -- Calls that end with those of a failed item.
  perform_all-retry :
      (cs : List Call) (q : w.Queue)
      → w.Holds k (perform_all fl w ((cs ++ add_rate_limited k ∷ []) ++ done k ∷ []) q)
  unfolding perform_all perform_call
  perform_all-retry [] q = laws.done_keeps k k _ (laws.holds_add_rate_limited k q)
  perform_all-retry (c ∷ cs) q = perform_all-retry cs (perform_call fl w c q)

  -- A key that is reported is in the queue then.
  pub step-adds :
      (e : ControllerEvent) (s : System fl w)
      → reports k e ≡ true
      → Then fl w (λ t. w.Holds k t.queue) (step fl w e s)
  unfolding step enqueue_deployment record_call perform_all perform_call
  step-adds (deployment_added none) s is = absurd (ground arith)
  step-adds (deployment_added (some j)) s is =
      subst (λ i. w.Holds k (w.add i s.queue)) (sym ((str_eq_iff j k).0 is))
        (laws.holds_add k s.queue)
  step-adds (deployment_updated none) s is = absurd (ground arith)
  step-adds (deployment_updated (some j)) s is =
      subst (λ i. w.Holds k (w.add i s.queue)) (sym ((str_eq_iff j k).0 is))
        (laws.holds_add k s.queue)
  step-adds (deployment_deleted rounds) s is = absurd (ground arith)
  step-adds (pod_added api owner p) s is = absurd (ground arith)
  step-adds (pod_updated api owner p) s is = absurd (ground arith)
  step-adds (pod_deleted api owner p) s is = absurd (ground arith)
  step-adds (worked api j) s is = absurd (ground arith)

  -- The key is still in the queue, or this event was a worker that synced it.
  abbrev pub StillOr : ControllerEvent → System fl w → Type 0
  StillOr e t = w.Holds k t.queue ⊎ ((api : Api) × (worked api k ≡ e) × Synced fl api k)

  pod_seen-keeps :
      (api : Api) (owner : Option OwnerReference) (p : Pod) (s : System fl w)
      → w.Holds k s.queue
      → Then fl w (λ t. w.Holds k t.queue) (pod_seen fl w api owner p s)
  pod_seen-keeps api owner p s h =
      elim (Option-cases (handle_pod fl api owner p (idle_state fl w s.state))) [
        | inl e ↦ rw (e, Then, pod_seen) refl
        | inr (t, e) ↦ rw (e, Then, pod_seen) (perform_all-keeps t.calls s.queue h)
      ]

  removed-keeps :
      (rounds : List (Pod × Bool)) (s : System fl w)
      → w.Holds k s.queue
      → Then fl w (λ t. w.Holds k t.queue) (removed fl w rounds s)
  removed-keeps rounds s h = by_end (remove_pods fl rounds (idle_state fl w s.state))
    where
      by_end :
          (r : Ended (State fl))
          → Then fl w
              (λ t. w.Holds k t.queue)
              (elim r [
                | returned t ↦ some (after_calls fl w t s.queue)
                | panicked t ↦ none
                | fatal t ↦ none
              ])
      by_end (returned t) = perform_all-keeps t.calls s.queue h
      by_end (panicked t) = refl
      by_end (fatal t) = refl

  worked-keeps :
      (api : Api) (j : String) (s : System fl w)
      → w.Holds k (w.get j s.queue)
      → Then fl w (λ t. w.Holds k t.queue) (step fl w (worked api j) s)
  unfolding step
  worked-keeps api j s h = elim (Option-cases (process_item fl api j (idle_state fl w s.state))) [
    | inl e ↦ rw (e, step) refl
    | inr (t, e) ↦ rw (e, step) (perform_all-keeps t.calls (w.get j s.queue) h)
  ]

  -- The item of the key itself.
  worked_self :
      (api : Api) (s : System fl w)
      → Then fl w (StillOr (worked api k)) (step fl w (worked api k) s)
  unfolding step process_item record_call
  worked_self api s = elim (Option-cases (sync_handler fl api k (idle_state fl w s.state))) [
    | inl e ↦ rw (e, process_item, step) refl
    | inr ((t, true), e) ↦
        rw (e, process_item, step) (inl (perform_all-retry t.calls (w.get k s.queue)))
    | inr ((t, false), e) ↦
        rw (e, process_item, step) (inr (api, refl, (idle_state fl w s.state, t, e)))
  ]

  step-waits :
      (e : ControllerEvent) (s : System fl w) (r : Option (System fl w))
      → Then fl w (λ t. w.Holds k t.queue) r
      → Then fl w (StillOr e) r
  step-waits e s none h = h
  step-waits e s (some t) h = inl h

  -- What an event does to a key in the queue.
  pub step-StillOr :
      (e : ControllerEvent) (s : System fl w)
      → w.Holds k s.queue
      → Then fl w (StillOr e) (step fl w e s)
  unfolding step enqueue_deployment record_call
  step-StillOr (deployment_added none) s h = inl h
  step-StillOr (deployment_added (some j)) s h = inl (perform_all-keeps (add j ∷ []) s.queue h)
  step-StillOr (deployment_updated none) s h = inl h
  step-StillOr (deployment_updated (some j)) s h = inl (perform_all-keeps (add j ∷ []) s.queue h)
  step-StillOr (deployment_deleted none) s h = inl h
  step-StillOr (deployment_deleted (some rounds)) s h =
      step-waits (deployment_deleted (some rounds)) s (removed fl w rounds s)
        (removed-keeps rounds s h)
  step-StillOr (pod_added api owner p) s h =
      step-waits (pod_added api owner p) s (pod_seen fl w api owner p s)
        (pod_seen-keeps api owner p s h)
  step-StillOr (pod_updated api owner p) s h =
      step-waits (pod_updated api owner p) s (pod_seen fl w api owner p s)
        (pod_seen-keeps api owner p s h)
  step-StillOr (pod_deleted api owner p) s h =
      step-waits (pod_deleted api owner p) s (pod_seen fl w api owner p s)
        (pod_seen-keeps api owner p s h)
  step-StillOr (worked api j) s h = elim (Bool-cases (str_eq j k)) [
    | inl same ↦
        subst (λ i. Then fl w (StillOr (worked api i)) (step fl w (worked api i) s))
          (sym ((str_eq_iff j k).0 same)) (worked_self api s)
    | inr other ↦
        let ne : j ≢ k = ground (arith, str_eq_iff j k) in
        step-waits (worked api j) s (step fl w (worked api j) s)
          (worked-keeps api j s (laws.get_keeps j k s.queue ne h))
  ]
