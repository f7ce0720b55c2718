-- ===== src/Operator/Queue/Steps.antt =====
-- What one event does to the keys of the operator.
use faas_share.Common.{
  String, Bool, true, false, none, some, List, [], ◌∷◌, any, str_eq, str_eq_iff, ◌≡◌, ◌≢◌, ap, refl,
  sym, subst, ◌⊎◌, inl, inr, Bool-cases, Option-cases, arith,
}
use faas_share.Kube.WorkQueue.{WorkQueue, WorkQueueLaws}
use faas_share.Operator.Deployment.{Json}
use faas_share.Operator.Sync.{
  Api, Call, create_deployment, update_deployment, create_service, update_service,
  delete_deployment, event, add_rate_limited, forget, done, process_item, handle_deleted,
}
use faas_share.Operator.Sync.Requeue.{requeues, process_item-requeues}
use faas_share.Operator.Queue.{
  OperatorEvent, share_pod_added, share_pod_updated, share_pod_deleted, worked, enqueue_function,
  handle_deleted_object, perform_call, perform_all, step,
}

-- An informer reports the SharePod of a key as added or as changed.
abbrev pub reports : String → OperatorEvent → Bool
reports k (share_pod_added none) = false
reports k (share_pod_added (some j)) = str_eq j k
reports k (share_pod_updated none) = false
reports k (share_pod_updated (some j)) = str_eq j k
reports k (share_pod_deleted sp) = false
reports k (worked api j) = false

module _ (json : Json) (b : Bool) (w : WorkQueue) (laws : WorkQueueLaws w) (k : String) where
  perform_call-only :
      (c : Call) (q : w.Queue)
      → requeues c ≡ false
      → w.Holds k (perform_call json b w c q)
      → w.Holds k q
  unfolding perform_call
  perform_call-only (add_rate_limited j) q h held = absurd (ground arith)
  perform_call-only (forget j) q h held = laws.forget_only j k q held
  perform_call-only (done j) q h held = laws.done_only j k q held
  perform_call-only (create_deployment d) q h held = held
  perform_call-only (update_deployment d) q h held = held
  perform_call-only (create_service s) q h held = held
  perform_call-only (update_service s) q h held = held
  perform_call-only (delete_deployment namespace name) q h held = held
  perform_call-only (event text) q h held = held

  perform_all-only :
      (cs : List Call) (q : w.Queue)
      → any requeues cs ≡ false
      → w.Holds k (perform_all json b w cs q)
      → w.Holds k q
  unfolding perform_all
  perform_all-only [] q h held = held
  perform_all-only (c ∷ cs) q h held = elim (Bool-cases (requeues c)) [
    | inl e ↦ absurd (ground arith)
    | inr e ↦
        perform_call-only c q e
          (perform_all-only cs (perform_call json b w c q) (ground arith) held)
  ]

  -- A key that is not reported is not put in.
  pub step-only :
      (e : OperatorEvent) (q : w.Queue)
      → reports k e ≡ false
      → w.Holds k (step json b w e q)
      → w.Holds k q
  unfolding step perform_all perform_call enqueue_function handle_deleted_object handle_deleted
  step-only (share_pod_added none) q other held = held
  step-only (share_pod_added (some j)) q other held = elim (laws.add_rate_limited_only j k q held) [
    | inl is ↦ absurd (ground (arith, str_eq_iff j k))
    | inr was ↦ was
  ]
  step-only (share_pod_updated none) q other held = held
  step-only (share_pod_updated (some j)) q other held =
      elim (laws.add_rate_limited_only j k q held) [
        | inl is ↦ absurd (ground (arith, str_eq_iff j k))
        | inr was ↦ was
      ]
  step-only (share_pod_deleted none) q other held = held
  step-only (share_pod_deleted (some sp)) q other held = held
  step-only (worked api j) q other held = elim (Option-cases (process_item json b api j)) [
    | inl e ↦
        let after : step json b w (worked api j) q ≡ w.done j (w.get j q) = rw (e, step) refl in
        laws.get_only j k q (laws.done_only j k (w.get j q) (subst (w.Holds k) after held))
    | inr (calls, e) ↦
        let after : step json b w (worked api j) q ≡ perform_all json b w calls (w.get j q) =
          rw (e, step) refl in
        laws.get_only j k q (
          perform_all-only calls (w.get j q) (process_item-requeues json b api j calls e)
            (subst (w.Holds k) after held))
  ]

  perform_call-keeps :
      (c : Call) (q : w.Queue) → w.Holds k q → w.Holds k (perform_call json b w c q)
  unfolding perform_call
  perform_call-keeps (add_rate_limited j) q h = laws.add_rate_limited_keeps j k q h
  perform_call-keeps (forget j) q h = laws.forget_keeps j k q h
  perform_call-keeps (done j) q h = laws.done_keeps j k q h
  perform_call-keeps (create_deployment d) q h = h
  perform_call-keeps (update_deployment d) q h = h
  perform_call-keeps (create_service s) q h = h
  perform_call-keeps (update_service s) q h = h
  perform_call-keeps (delete_deployment namespace name) q h = h
  perform_call-keeps (event text) q h = h

  perform_all-keeps :
      (cs : List Call) (q : w.Queue) → w.Holds k q → w.Holds k (perform_all json b w cs q)
  unfolding perform_all
  perform_all-keeps [] q h = h
  perform_all-keeps (c ∷ cs) q h =
      perform_all-keeps cs (perform_call json b w c q) (perform_call-keeps c q h)

  -- A key that is reported is in the queue then.
  pub step-adds :
      (e : OperatorEvent) (q : w.Queue) → reports k e ≡ true → w.Holds k (step json b w e q)
  unfolding step perform_all perform_call enqueue_function
  step-adds (share_pod_added none) q is = absurd (ground arith)
  step-adds (share_pod_added (some j)) q is =
      subst (λ i. w.Holds k (w.add_rate_limited i q)) (sym ((str_eq_iff j k).0 is))
        (laws.holds_add_rate_limited k q)
  step-adds (share_pod_updated none) q is = absurd (ground arith)
  step-adds (share_pod_updated (some j)) q is =
      subst (λ i. w.Holds k (w.add_rate_limited i q)) (sym ((str_eq_iff j k).0 is))
        (laws.holds_add_rate_limited k q)
  step-adds (share_pod_deleted sp) q is = absurd (ground arith)
  step-adds (worked api j) q is = absurd (ground arith)

  worked-keeps :
      (api : Api) (j : String) (q : w.Queue)
      → w.Holds k (w.get j q)
      → w.Holds k (step json b w (worked api j) q)
  unfolding step
  worked-keeps api j q h = elim (Option-cases (process_item json b api j)) [
    | inl e ↦ rw (e, step) (laws.done_keeps j k (w.get j q) h)
    | inr (calls, e) ↦ rw (e, step) (perform_all-keeps calls (w.get j q) h)
  ]

  -- Only a worker takes a key out.
  pub step-keeps :
      (e : OperatorEvent) (q : w.Queue)
      → w.Holds k q
      → w.Holds k (step json b w e q) ⊎ ((api : Api) × (worked api k ≡ e))
  unfolding step perform_all perform_call enqueue_function handle_deleted_object handle_deleted
  step-keeps (share_pod_added none) q h = inl h
  step-keeps (share_pod_added (some j)) q h = inl (laws.add_rate_limited_keeps j k q h)
  step-keeps (share_pod_updated none) q h = inl h
  step-keeps (share_pod_updated (some j)) q h = inl (laws.add_rate_limited_keeps j k q h)
  step-keeps (share_pod_deleted none) q h = inl h
  step-keeps (share_pod_deleted (some sp)) q h = inl h
  step-keeps (worked api j) q h = elim (Bool-cases (str_eq j k)) [
    | inl same ↦ inr (api, ap (worked api) (sym ((str_eq_iff j k).0 same)))
    | inr other ↦
        let ne : j ≢ k = ground (arith, str_eq_iff j k) in
        inl (worked-keeps api j q (laws.get_keeps j k q ne h))
  ]
