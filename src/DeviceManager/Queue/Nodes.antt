-- ===== src/DeviceManager/Queue/Nodes.antt =====
-- What one event of the device manager's controller does to the nodes.
use faas_share.Common.{Bool, true, false}
use faas_share.Common.{
  String, true, none, some, Option, lookup, str_eq, ◌≡◌, ◌∙◌, refl, subst, inl, inr, Bool-cases,
  Option-cases, arith,
}
use faas_share.Kube.{Float64, Pod, OwnerReference, Lookup-cases, gpuid_key}
use faas_share.Kube.WorkQueue.{WorkQueue}
use faas_share.DeviceManager.State.{State, record_call}
use faas_share.DeviceManager.Controller.{
  Api, sync_handler, process_item, handle_dummy, enqueue_owner, handle_pod,
}
use faas_share.DeviceManager.Controller.Laws.{sync_handler-nodes}
use faas_share.DeviceManager.Queue.{
  ControllerEvent, deployment_added, deployment_updated, deployment_deleted, pod_added, pod_updated,
  pod_deleted, worked, System, idle_state, enqueue_deployment, pod_seen, step,
}

-- Whether an event removes the pods of a deployment.
abbrev pub removes_pods : ControllerEvent → Bool
removes_pods (deployment_deleted (some rounds)) = true
removes_pods (deployment_deleted none) = false
removes_pods (deployment_added key) = false
removes_pods (deployment_updated key) = false
removes_pods (pod_added api owner p) = false
removes_pods (pod_updated api owner p) = false
removes_pods (pod_deleted api owner p) = false
removes_pods (worked api key) = false

module _ (fl : Float64) where
  handle_dummy-nodes : (p : Pod) (s : State fl) → (handle_dummy fl p s).nodes ≡ s.nodes
  unfolding handle_dummy record_call
  handle_dummy-nodes p s = elim (Option-cases (lookup gpuid_key p.labels)) [
    | inl e ↦ ground arith
    | inr (id, e) ↦ ground arith
  ]

  abbrev SameNodes : State fl → Option (State fl) → Type 0
  SameNodes s none = s ≡ s
  SameNodes s (some t) = t.nodes ≡ s.nodes

  enqueue_owner-SameNodes :
      (api : Api) (namespace : String) (o : Option OwnerReference) (s : State fl)
      → SameNodes s (enqueue_owner fl api namespace o s)
  unfolding enqueue_owner record_call
  enqueue_owner-SameNodes api namespace none s = refl
  enqueue_owner-SameNodes api namespace (some o) s =
      elim (Bool-cases (str_eq o.kind "ReplicaSet")) [
        | inr other ↦ rw (other, enqueue_owner) refl
        | inl is ↦ elim (Option-cases (api.get_replica_set namespace o.name)) [
          | inl e ↦ rw (is, e, enqueue_owner) refl
          | inr (none, e) ↦ rw (is, e, enqueue_owner) refl
          | inr (some r, e) ↦ elim (Bool-cases (str_eq r.kind "Deployment")) [
            | inr other ↦ rw (is, e, other, enqueue_owner) refl
            | inl of ↦ elim (Lookup-cases (api.get_deployment namespace o.name)) [
              | inr (inl d) ↦ rw (is, e, of, d, enqueue_owner) refl
              | inr (inr d) ↦ rw (is, e, of, d, enqueue_owner) refl
              | inl (dep, d) ↦ elim (Option-cases dep.owner) [
                | inl n ↦ rw (is, e, of, d, n, enqueue_owner) refl
                | inr (c, n) ↦ elim (Bool-cases (str_eq c.kind "SharePod")) [
                  | inl k ↦ rw (is, e, of, d, n, k, enqueue_owner) refl
                  | inr k ↦ rw (is, e, of, d, n, k, enqueue_owner) refl
                ]
              ]
            ]
          ]
        ]
      ]

  SameNodes-trans :
      (s u : State fl) (r : Option (State fl)) → u.nodes ≡ s.nodes → SameNodes u r → SameNodes s r
  SameNodes-trans s u none e h = refl
  SameNodes-trans s u (some t) e h = h ∙ e

  handle_pod-SameNodes :
      (api : Api) (owner : Option OwnerReference) (p : Pod) (s : State fl)
      → SameNodes s (handle_pod fl api owner p s)
  unfolding handle_pod
  handle_pod-SameNodes api owner p s =
      SameNodes-trans s (handle_dummy fl p s)
        (enqueue_owner fl api p.namespace owner (handle_dummy fl p s)) (handle_dummy-nodes p s)
        (enqueue_owner-SameNodes api p.namespace owner (handle_dummy fl p s))

  process_item-SameNodes :
      (api : Api) (key : String) (s : State fl) → SameNodes s (process_item fl api key s)
  unfolding process_item record_call
  process_item-SameNodes api key s = elim (Option-cases (sync_handler fl api key s)) [
    | inl e ↦ rw (e, process_item) refl
    | inr ((t, error), e) ↦ rw (e, process_item) (sync_handler-nodes fl api key s t error e)
  ]

module _ (fl : Float64) (w : WorkQueue) where
  -- What holds of the system after an event that does not end the program.
  abbrev pub Then : (System fl w → Type 0) → Option (System fl w) → Type 0
  Then P none = true ≡ true
  Then P (some t) = P t

  abbrev pub NodesOf : System fl w → System fl w → Type 0
  NodesOf s t = t.state.nodes ≡ s.state.nodes

  pod_seen-NodesOf :
      (api : Api) (owner : Option OwnerReference) (p : Pod) (s : System fl w)
      → Then (NodesOf s) (pod_seen fl w api owner p s)
  pod_seen-NodesOf api owner p s =
      elim (Option-cases (handle_pod fl api owner p (idle_state fl w s.state))) [
        | inl e ↦ rw (e, Then, pod_seen) refl
        | inr (t, e) ↦
            rw (e, Then, pod_seen)
              (subst (SameNodes fl (idle_state fl w s.state)) e
                (handle_pod-SameNodes fl api owner p (idle_state fl w s.state)))
      ]

  pub step-NodesOf :
      (e : ControllerEvent) (s : System fl w)
      → removes_pods e ≡ false
      → Then (NodesOf s) (step fl w e s)
  unfolding step enqueue_deployment record_call
  step-NodesOf (deployment_added none) s no_removal = refl
  step-NodesOf (deployment_added (some k)) s no_removal = refl
  step-NodesOf (deployment_updated none) s no_removal = refl
  step-NodesOf (deployment_updated (some k)) s no_removal = refl
  step-NodesOf (deployment_deleted none) s no_removal = refl
  step-NodesOf (deployment_deleted (some rounds)) s no_removal = absurd (cc no_removal)
  step-NodesOf (pod_added api owner p) s no_removal = pod_seen-NodesOf api owner p s
  step-NodesOf (pod_updated api owner p) s no_removal = pod_seen-NodesOf api owner p s
  step-NodesOf (pod_deleted api owner p) s no_removal = pod_seen-NodesOf api owner p s
  step-NodesOf (worked api key) s no_removal =
      elim (Option-cases (process_item fl api key (idle_state fl w s.state))) [
        | inl e ↦ rw (e, step) refl
        | inr (t, e) ↦
            rw (e, step)
              (subst (SameNodes fl (idle_state fl w s.state)) e
                (process_item-SameNodes fl api key (idle_state fl w s.state)))
      ]
