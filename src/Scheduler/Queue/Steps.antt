-- ===== src/Scheduler/Queue/Steps.antt =====
-- What one event does to a key that waits.
use faas_share.Common.{
  String, Bool, true, false, none, some, List, [], ◌∷◌, ◌++◌, map, In, str_eq, str_eq_iff, is_empty,
  ap, if◌then◌else◌, ◌≡◌, ◌≢◌, refl, sym, subst, ◌⊎◌, inl, inr, Bool-cases, Option-cases, arith,
}
use faas_share.Kube.{Float64, Pod}
use faas_share.Kube.WorkQueue.{WorkQueue, WorkQueueLaws}
use faas_share.Scheduler.Controller.{
  Api, Call, add, add_rate_limited, forget, done, patch, synced_event, Controller, sync_handler,
  bound_annotations, record_call, enqueue_pod, resource_changed,
}
use faas_share.Scheduler.Controller.Fate.{
  Dropped, FoundFor, sync_handler-Fate, process_item-calls, process_item-waits,
}
use faas_share.Scheduler.Queue.{
  SchedulerEvent, pod_added, pod_updated, pod_deleted, share_pod_added, share_pod_updated,
  share_pod_deleted, node_added, node_updated, node_deleted, tick, worked, System, perform_call,
  perform_all, idle_controller, changed, step,
}

-- How a worker may be done with a key for good: it waits for ever, the pod of the key has been
-- bound to a node, or the key is dropped for one of the stated reasons.
abbrev pub Ends : (fl : Float64) → Api → String → Type 0
Ends fl api k =
    ((c : Controller) × (sync_handler fl api k c ≡ none))
    ⊎ (((p : Pod) × FoundFor api k p
          × (node : String) × (id : String) × (is_empty node ≡ false)
          × (api.patch_accepted p (bound_annotations id p.annotations) node ≡ true))
        ⊎ Dropped fl api k)

-- Some worker among the events is done with the key for good.
abbrev pub Ended : (fl : Float64) → String → List SchedulerEvent → Type 0
Ended fl k es = (api : Api) × In (worked api k) es × Ends fl api k

module _ (fl : Float64) (w : WorkQueue) (laws : WorkQueueLaws w) (k : String) where
  perform_call-keeps : (c : Call) (q : w.Queue) → w.Holds k q → w.Holds k (perform_call fl w c q)
  unfolding perform_call
  perform_call-keeps (add j) q h = laws.add_keeps j k q h
  perform_call-keeps (add_rate_limited j) q h = laws.add_rate_limited_keeps j k q h
  perform_call-keeps (forget j) q h = laws.forget_keeps j k q h
  perform_call-keeps (done j) q h = laws.done_keeps j k q h
  perform_call-keeps (patch p a node) q h = h
  perform_call-keeps (synced_event p) q h = h

  perform_all-keeps :
      (cs : List Call) (q : w.Queue) → w.Holds k q → w.Holds k (perform_all fl w cs q)
  unfolding perform_all
  perform_all-keeps [] q h = h
  perform_all-keeps (c ∷ cs) q h =
      perform_all-keeps cs (perform_call fl w c q) (perform_call-keeps c q h)

  perform_all-adds :
      (ks : List String) (q : w.Queue) → In k ks → w.Holds k (perform_all fl w (map add ks) q)
  unfolding perform_all perform_call
  perform_all-adds [] q h = elim h [ ]
  perform_all-adds (j ∷ ks) q (inl e) =
      perform_all-keeps (map add ks) (w.add j q)
        (subst (λ i. w.Holds k (w.add i q)) e (laws.holds_add k q))
  perform_all-adds (j ∷ ks) q (inr later) = perform_all-adds ks (w.add j q) later

  -- Calls that end with those of a failed item.
  perform_all-retry :
      (cs : List Call) (q : w.Queue)
      → w.Holds k (perform_all fl w (cs ++ add_rate_limited k ∷ done k ∷ []) q)
  unfolding perform_all perform_call
  perform_all-retry [] q = laws.done_keeps k k _ (laws.holds_add_rate_limited k q)
  perform_all-retry (c ∷ cs) q = perform_all-retry cs (perform_call fl w c q)

  abbrev pub Held : System fl w → Type 0
  Held s = In k s.pending ⊎ w.Holds k s.queue

  pub changed-Holds : (s : System fl w) → Held s → w.Holds k (changed fl w s).queue
  unfolding resource_changed
  changed-Holds s (inl waits) = perform_all-adds s.pending s.queue waits
  changed-Holds s (inr held) = perform_all-keeps (map add s.pending) s.queue held

  In-append : (xs ys : List String) → In k xs → In k (xs ++ ys)
  In-append [] ys h = elim h [ ]
  In-append (x ∷ xs) ys (inl e) = inl e
  In-append (x ∷ xs) ys (inr h) = inr (In-append xs ys h)

  In-last : (xs : List String) → In k (xs ++ k ∷ [])
  In-last [] = inl refl
  In-last (x ∷ xs) = inr (In-last xs)

  -- `syncHandler` takes nothing out of the pending list.
  sync_handler-pending :
      (api : Api) (j : String) (c : Controller) (r : Controller × Bool)
      → sync_handler fl api j c ≡ some r
      → In k c.pending
      → In k r.0.pending
  unfolding record_call
  sync_handler-pending api j c r e h = elim (sync_handler-Fate fl api j c r e) [
    | inl (_, same) ↦ subst (In k) (sym same) h
    | inr (inl (p, _, inl (_, same))) ↦ subst (In k) (sym same) h
    | inr (inl (p, _, inr (inl is))) ↦ rw is (In-append c.pending (j ∷ []) h)
    | inr (inl (p, _, inr (inr (node, id, _, _, is)))) ↦ rw is h
    | inr (inr (is, _)) ↦ rw is h
  ]

  -- The calls at the end of an item.
  abbrev last_calls : Bool → String → List Call
  last_calls error j = (if error then add_rate_limited j else forget j) ∷ done j ∷ []

  -- A key in the pending list, or in the queue without the key of the worker, stays held.
  worked-keeps :
      (api : Api) (j : String) (s : System fl w)
      → In k s.pending ⊎ w.Holds k (w.get j s.queue)
      → Held (step fl w (worked api j) s)
  unfolding step
  worked-keeps api j s h = elim (Option-cases (sync_handler fl api j (idle_controller fl w s))) [
    | inl waits ↦ rw (process_item-waits fl api j (idle_controller fl w s) waits, step) h
    | inr ((c, error), e) ↦
        rw (process_item-calls fl api j (idle_controller fl w s) c error e, step)
          (elim h [
            | inl waits ↦
                inl (sync_handler-pending api j (idle_controller fl w s) (c, error) e waits)
            | inr held ↦
                inr (perform_all-keeps (c.calls ++ last_calls error j) (w.get j s.queue) held)
          ])
  ]

  -- The item of the key itself: the key is held afterwards, or this worker is done with it.
  worked_self : (api : Api) (s : System fl w) → Held (step fl w (worked api k) s) ⊎ Ends fl api k
  unfolding step
  worked_self api s = elim (Option-cases (sync_handler fl api k (idle_controller fl w s))) [
    | inl waits ↦ inr (inl (idle_controller fl w s, waits))
    | inr ((c, error), e) ↦
        elim (sync_handler-Fate fl api k (idle_controller fl w s) (c, error) e) [
          | inl (failed, _) ↦ inl (
              rw (process_item-calls fl api k (idle_controller fl w s) c error e, step)
                (rw failed (inr (perform_all-retry c.calls (w.get k s.queue)))))
          | inr (inl (p, _, inl (failed, _))) ↦ inl (
              rw (process_item-calls fl api k (idle_controller fl w s) c error e, step)
                (rw failed (inr (perform_all-retry c.calls (w.get k s.queue)))))
          | inr (inl (p, _, inr (inl is))) ↦ inl (
              rw (process_item-calls fl api k (idle_controller fl w s) c error e, step)
                (inl (rw (ap (λ (r : Controller × Bool). r.0.pending) is) (In-last s.pending))))
          | inr (inl (p, here, inr (inr (node, id, full, accepted, _)))) ↦
              inr (inr (inl (p, here, node, id, full, accepted)))
          | inr (inr (_, dropped)) ↦ inr (inr (inr dropped))
        ]
  ]

  -- What an event does to a key that is held.
  pub step-Held :
      (e : SchedulerEvent) (s : System fl w)
      → Held s
      → Held (step fl w e s) ⊎ ((api : Api) × (worked api k ≡ e) × Ends fl api k)
  unfolding step enqueue_pod
  step-Held (pod_added none) s h = inl h
  step-Held (pod_added (some j)) s h =
      inl (elim h [ inl p ↦ inl p | inr q ↦ inr (perform_all-keeps (add j ∷ []) s.queue q) ])
  step-Held pod_updated s h = inl h
  step-Held share_pod_added s h = inl h
  step-Held share_pod_updated s h = inl h
  step-Held node_added s h = inl h
  step-Held node_updated s h = inl h
  step-Held pod_deleted s h = inl (inr (changed-Holds s h))
  step-Held share_pod_deleted s h = inl (inr (changed-Holds s h))
  step-Held node_deleted s h = inl (inr (changed-Holds s h))
  step-Held tick s h = inl (inr (changed-Holds s h))
  step-Held (worked api j) s h = elim (Bool-cases (str_eq j k)) [
    | inl same ↦
        let is : j ≡ k = (str_eq_iff j k).0 same in
        subst
          (λ i.
            Held (step fl w (worked api i) s)
            ⊎ ((a : Api) × (worked a k ≡ worked api i) × Ends fl a k))
          (sym is)
          (elim (worked_self api s) [ inl held ↦ inl held | inr ends ↦ inr (api, refl, ends) ])
    | inr other ↦
        let ne : j ≢ k = ground (arith, str_eq_iff j k) in
        inl (
          worked-keeps api j s
            (elim h [ inl p ↦ inl p | inr q ↦ inr (laws.get_keeps j k s.queue ne q) ]))
  ]
