-- ===== src/DeviceManager/Controller/Laws.antt =====
-- What `syncHandler` and `handleObject` of the device manager leave alone.
use faas_share.Common.{
  List-cases, String, ℤ, pos, Bool, true, false, Option, none, some, List, [], ◌∷◌, lookup,
  value_at, str_eq, is_empty, Bool-cases, Option-cases, ◌≡◌, ◌∙◌, refl, sym, subst, ◌⊎◌, inl, inr,
  arith,
}
use faas_share.Kube.{Float64, Pod, OwnerReference, Lookup-cases, not_found, gpuid_key}
use faas_share.Kube.GpuSpec.{parse_spec, names_gpu}
use faas_share.DeviceManager.State.{State, record_call, event}
use faas_share.DeviceManager.Controller.{
  Api, Next, next_pod, back, crash, patch_pod, new_pod, sync_pod, sync_pods, sync_handler,
  enqueue_owner,
}

module _ (fl : Float64) where
  abbrev Keeps : State fl → Next (State fl) → Type 0
  Keeps s (next_pod t) = t.nodes ≡ s.nodes
  Keeps s (back t error) = t.nodes ≡ s.nodes
  Keeps s crash = s ≡ s

  patch_pod-Keeps :
      (api : Api) (namespace : String) (p : Pod) (b : Bool) (port : ℤ) (device : String)
      (s : State fl)
      → Keeps s (patch_pod fl api namespace p b port device s)
  unfolding patch_pod record_call
  patch_pod-Keeps api namespace p b port device s =
      elim (Option-cases (lookup p.node_name s.nodes)) [
        | inl e ↦ rw (e, patch_pod) refl
        | inr (n, e) ↦
            let answer = api.patch_result (new_pod p b n.pod_ip port device) in
            elim (List-cases answer.volumes) [
              | inl v ↦ rw (e, v, patch_pod) refl
              | inr (_, _, v) ↦ elim (List-cases answer.containers) [
                | inl c ↦ rw (e, v, c, patch_pod) refl
                | inr (_, _, c) ↦ rw (e, v, c, patch_pod) refl
              ]
            ]
      ]

  -- A pod with a GPU annotation but no GPU identifier is refused: an event is recorded, and the
  -- next pod is looked at.
  pub sync_pod-refused :
      (api : Api) (key namespace : String) (p : Pod) (s : State fl)
      → is_empty p.node_name ≡ false
      → is_empty (value_at gpuid_key p.annotations) ≡ true
      → names_gpu p.annotations ≡ true
      → sync_pod fl api key namespace p s ≡ next_pod (record_call fl (event "Value error") s)
  unfolding sync_pod
  sync_pod-refused api key namespace p s node no_id gpu =
      elim (Option-cases (parse_spec fl p.annotations)) [
        | inl e ↦ ground arith
        | inr (spec, e) ↦ ground arith
      ]

  sync_pod-Keeps :
      (api : Api) (key namespace : String) (p : Pod) (s : State fl)
      → Keeps s (sync_pod fl api key namespace p s)
  unfolding sync_pod record_call
  sync_pod-Keeps api key namespace p s = elim (Bool-cases (is_empty p.node_name)) [
    | inl e ↦ rw (e, sync_pod) refl
    | inr e ↦ elim (Bool-cases (is_empty (value_at gpuid_key p.annotations))) [
      | inr id ↦ rw (e, id, sync_pod) refl
      | inl id ↦ elim (Bool-cases (names_gpu p.annotations)) [
        | inl gpu ↦ subst (Keeps s) (sym (sync_pod-refused api key namespace p s e id gpu)) refl
        | inr plain ↦
            rw (e, id, plain, sync_pod) (patch_pod-Keeps api namespace p false (pos 0) "" s)
      ]
    ]
  ]

  abbrev Kept : State fl → Option (State fl × Bool) → Type 0
  Kept s none = s ≡ s
  Kept s (some (t, error)) = t.nodes ≡ s.nodes

  Kept-trans :
      (s u : State fl) (r : Option (State fl × Bool)) → u.nodes ≡ s.nodes → Kept u r → Kept s r
  Kept-trans s u none e k = refl
  Kept-trans s u (some (t, error)) e k = k ∙ e

  Next-cases :
      (r : Next (State fl))
      → ((t : State fl) × (r ≡ next_pod t))
        ⊎ (((t : State fl) × (error : Bool) × (r ≡ back t error)) ⊎ (r ≡ crash))
  Next-cases (next_pod t) = inl (t, refl)
  Next-cases (back t error) = inr (inl (t, error, refl))
  Next-cases crash = inr (inr refl)

  sync_pods-Kept :
      (api : Api) (key namespace : String) (ps : List Pod) (s : State fl)
      → Kept s (sync_pods fl api key namespace ps s)
  unfolding sync_pods
  sync_pods-Kept api key namespace [] s = refl
  sync_pods-Kept api key namespace (p ∷ ps) s =
      let kept = sync_pod-Keeps api key namespace p s in
      elim (Next-cases (sync_pod fl api key namespace p s)) [
        | inl (t, e) ↦
            rw (e, sync_pods)
              (Kept-trans s t (sync_pods fl api key namespace ps t) (subst (Keeps s) e kept)
                (sync_pods-Kept api key namespace ps t))
        | inr (inl (t, error, e)) ↦ rw (e, sync_pods) (subst (Keeps s) e kept)
        | inr (inr e) ↦ rw (e, sync_pods) refl
      ]

  sync_handler-Kept : (api : Api) (key : String) (s : State fl) → Kept s (sync_handler fl api key s)
  unfolding sync_handler
  sync_handler-Kept api key s = elim (Option-cases (api.split_key key)) [
    | inl e ↦ rw (e, sync_handler) refl
    | inr ((namespace, name), e) ↦ elim (Lookup-cases (api.get_deployment namespace name)) [
      | inr (inl d) ↦ rw (e, d, sync_handler) refl
      | inr (inr d) ↦ rw (e, d, sync_handler) refl
      | inl (dep, d) ↦ elim (Option-cases dep.owner) [
        | inl o ↦ rw (e, d, o, sync_handler) refl
        | inr (owner, o) ↦ elim (Bool-cases (str_eq owner.kind "SharePod")) [
          | inr k ↦ rw (e, d, o, k, sync_handler) refl
          | inl k ↦ elim (Option-cases (api.pods_of dep)) [
            | inl ps ↦ rw (e, d, o, k, ps, sync_handler) refl
            | inr (pods, ps) ↦
                rw (e, d, o, k, ps, sync_handler) (sync_pods-Kept api key namespace pods s)
          ]
        ]
      ]
    ]
  ]

  -- `syncHandler` of the device manager leaves all nodes, GPUs and ports as they are, whatever the
  -- deployment and its pods: it never comes to `getPhysicalGPUuuid`.
  pub sync_handler-nodes :
      (api : Api) (key : String) (s t : State fl) (error : Bool)
      → sync_handler fl api key s ≡ some (t, error)
      → t.nodes ≡ s.nodes
  sync_handler-nodes api key s t error h = subst (Kept s) h (sync_handler-Kept api key s)

  -- For a pod that a ReplicaSet owns, itself owned by any controller, `handleObject` looks a
  -- deployment up under the name of the ReplicaSet; without one of that name nothing is enqueued.
  pub enqueue_owner-not_found :
      (api : Api) (namespace : String) (o r : OwnerReference) (s : State fl)
      → api.get_replica_set namespace o.name ≡ some (some r)
      → api.get_deployment namespace o.name ≡ not_found
      → enqueue_owner fl api namespace (some o) s ≡ some s
  unfolding enqueue_owner
  enqueue_owner-not_found api namespace o r s owned absent = ground arith
