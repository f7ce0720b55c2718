-- ===== src/Scheduler/Controller/Fate.antt =====
-- What becomes of a key that a worker takes from the queue.
use faas_share.Common.{
  String, ◌≡◌, refl, ◌⊎◌, inl, inr, subst, append_assoc, Bool-cases, Option-cases, Bool, true,
  false, none, some, List, [], ◌∷◌, ◌++◌, arith, any, is_empty, value_at, if◌then◌else◌,
}
use faas_share.Kube.{
  Lookup, found, not_found, failed, Float64, Pod, Node, gpu_request_key, gpuid_key,
}
use faas_share.Kube.GpuSpec.{GpuSpec, parse_spec}
use faas_share.Scheduler.Resources.{is_tainted, sync_cluster_resources}
use faas_share.Scheduler.Resources.Waiting.{sync_node_resources-hangs}
use faas_share.Scheduler.BestFit.{schedule_share_pod}
use faas_share.Scheduler.Controller.{
  Api, Controller, record_call, bound_annotations, place, schedule_pod, handle_pod, sync_handler,
  process_item, patch, synced_event, forget, done, add_rate_limited,
}

-- A pod that is not, or no longer, to be scheduled.
abbrev pub IsSettled : (fl : Float64) → Pod → Type 0
IsSettled fl p =
    (is_empty (value_at gpu_request_key p.annotations) ≡ true)
    ⊎ ((is_empty p.node_name ≡ false)
        ⊎ ((parse_spec fl p.annotations ≡ none)
            ⊎ (is_empty (value_at gpuid_key p.annotations) ≡ false)))

-- The reasons for which a key is forgotten without being placed.
abbrev pub Dropped : (fl : Float64) → Api → String → Type 0
Dropped fl api key =
    (api.split_key key ≡ none)
    ⊎ ((namespace : String) × (name : String) × (api.split_key key ≡ some (namespace, name))
        × ((api.get_pod namespace name ≡ not_found)
            ⊎ ((p : Pod) × (api.get_pod namespace name ≡ found p) × IsSettled fl p)))

-- An error, which leaves the pending list as it was.
abbrev pub Failed : Controller → Controller × Bool → Type 0
Failed c r = (r.1 ≡ true) × (r.0.pending ≡ c.pending)

-- How `syncHandler` may leave the controller `c`, with whether it returns an error, for a pod that
-- is to be scheduled: an error, the key kept in the pending list, or the pod patched with a node,
-- which the API has accepted.
abbrev pub Placed : Api → String → Pod → Controller → Controller × Bool → Type 0
Placed api key p c r =
    Failed c r
    ⊎ ((r ≡ (record c { pending = c.pending ++ key ∷ [] }, false))
        ⊎ ((node : String) × (id : String) × (is_empty node ≡ false)
            × (api.patch_accepted p (bound_annotations id p.annotations) node ≡ true)
            × (r ≡ (
              record_call (synced_event p)
                  (record_call (patch p (bound_annotations id p.annotations) node) c),
              false,
            ))))

-- The pod that the lister has for the key.
abbrev pub FoundFor : Api → String → Pod → Type 0
FoundFor api key p =
    (namespace : String) × (name : String) × (api.split_key key ≡ some (namespace, name))
    × (api.get_pod namespace name ≡ found p)

abbrev pub Fate : (fl : Float64) → Api → String → Controller → Controller × Bool → Type 0
Fate fl api key c r =
    Failed c r
    ⊎ (((p : Pod) × FoundFor api key p × Placed api key p c r)
        ⊎ ((r ≡ (c, false)) × Dropped fl api key))

place-Placed :
    (api : Api) (key : String) (p : Pod) (chosen : String × String) (c : Controller)
    → Placed api key p c (place api key p chosen c)
unfolding place
place-Placed api key p (node, id) c = elim (Bool-cases (is_empty node)) [
  | inl nowhere ↦ inr (inl (ground arith))
  | inr somewhere ↦
      elim (Bool-cases (api.patch_accepted p (bound_annotations id p.annotations) node)) [
        | inl accepted ↦ inr (inr (node, id, somewhere, accepted, ground arith))
        | inr refused ↦ inl (ground arith, ground arith)
      ]
]

module _ (fl : Float64) (api : Api) (key : String) where
  schedule_pod-Placed :
      (p : Pod) (spec : GpuSpec fl) (c : Controller) (r : Controller × Bool)
      → schedule_pod fl api key p spec c ≡ some r
      → Placed api key p c r
  unfolding schedule_pod
  schedule_pod-Placed p spec c r e = elim (Option-cases api.nodes) [
    | inl no_nodes ↦ inl (ground arith, ground arith)
    | inr (ns, nodes) ↦ elim (Option-cases api.pods) [
      | inl no_pods ↦ inl (ground arith, ground arith)
      | inr (ps, pods) ↦ elim (Bool-cases api.share_pods_listed) [
        | inr not_listed ↦ inl (ground arith, ground arith)
        | inl listed ↦
            elim (Option-cases
              (schedule_share_pod fl true spec.request spec.mem p api.new_id ns ps)) [
                | inl waits ↦ absurd (ground arith)
                | inr (chosen, scheduled) ↦
                    let result : place api key p chosen c ≡ r = ground arith in
                    subst (Placed api key p c) result (place-Placed api key p chosen c)
              ]
      ]
    ]
  ]

  handle_pod-Fate :
      (p : Pod) (c : Controller) (r : Controller × Bool)
      → handle_pod fl api key p c ≡ some r
      → Placed api key p c r ⊎ ((r ≡ (c, false)) × IsSettled fl p)
  unfolding handle_pod
  handle_pod-Fate p c r e = elim (Bool-cases (is_empty (value_at gpu_request_key p.annotations))) [
    | inl no_request ↦ inr (ground arith, inl no_request)
    | inr requests ↦ elim (Bool-cases (is_empty p.node_name)) [
      | inr bound ↦ inr (ground arith, inr (inl bound))
      | inl unbound ↦ elim (Option-cases (parse_spec fl p.annotations)) [
        | inl ill_formed ↦ inr (ground arith, inr (inr (inl ill_formed)))
        | inr (spec, parsed) ↦ elim (Bool-cases (is_empty (value_at gpuid_key p.annotations))) [
          | inr has_id ↦ inr (ground arith, inr (inr (inr has_id)))
          | inl no_id ↦ inl (schedule_pod-Placed p spec c r (ground arith))
        ]
      ]
    ]
  ]

-- Unless the worker waits for ever, no key is lost: `syncHandler` returns an error with the pending
-- list as it was (and then `processNextWorkItem` puts the key back), keeps the key in the pending
-- list, has the pod of the key patched with the name of a node, which the API has accepted, or
-- leaves all as it is for one of the reasons in `Dropped`.
pub sync_handler-Fate :
    (fl : Float64) (api : Api) (key : String) (c : Controller) (r : Controller × Bool)
    → sync_handler fl api key c ≡ some r
    → Fate fl api key c r
unfolding sync_handler
sync_handler-Fate fl api key c r e = elim (Option-cases (api.split_key key)) [
  | inl invalid ↦ inr (inr (ground arith, inl invalid))
  | inr ((namespace, name), split) ↦ by_pod namespace name split (api.get_pod namespace name) refl
]
  where
    by_pod :
        (namespace name : String)
        → api.split_key key ≡ some (namespace, name)
        → (answer : Lookup Pod) → api.get_pod namespace name ≡ answer
        → Fate fl api key c r
    by_pod namespace name split not_found got =
        inr (inr (ground arith, inr (namespace, name, split, inl got)))
    by_pod namespace name split failed got = inl (ground arith, ground arith)
    by_pod namespace name split (found p) got =
        elim (handle_pod-Fate fl api key p c r (ground arith)) [
          | inl placed ↦ inr (inl (p, (namespace, name, split, got), placed))
          | inr (same, settled) ↦
              inr (inr (same, inr (namespace, name, split, inr (p, got, settled))))
        ]

-- An error puts the key back into the queue, and any other result forgets it; both finish it.
pub process_item-calls :
    (fl : Float64) (api : Api) (key : String) (c s : Controller) (error : Bool)
    → sync_handler fl api key c ≡ some (s, error)
    → process_item fl api key c
      ≡ some (record s {
        calls = s.calls ++ (if error then add_rate_limited key else forget key) ∷ done key ∷ [];
      })
unfolding process_item record_call
process_item-calls fl api key c s error e = ground (
  arith,
  append_assoc s.calls ((if error then add_rate_limited key else forget key) ∷ []) (done key ∷ []),
)

pub process_item-waits :
    (fl : Float64) (api : Api) (key : String) (c : Controller)
    → sync_handler fl api key c ≡ none
    → process_item fl api key c ≡ none
unfolding process_item
process_item-waits fl api key c e = rw (e, process_item) refl

-- A pod that is ready to be scheduled blocks its worker for ever as soon as some node carries the
-- NoSchedule taint.
pub sync_handler-hangs :
    (fl : Float64) (api : Api) (key namespace name : String) (p : Pod) (spec : GpuSpec fl)
    (ns : List Node) (ps : List Pod) (c : Controller)
    → api.split_key key ≡ some (namespace, name)
    → api.get_pod namespace name ≡ found p
    → is_empty (value_at gpu_request_key p.annotations) ≡ false
    → is_empty p.node_name ≡ true
    → parse_spec fl p.annotations ≡ some spec
    → is_empty (value_at gpuid_key p.annotations) ≡ true
    → api.nodes ≡ some ns
    → api.pods ≡ some ps
    → api.share_pods_listed ≡ true
    → any is_tainted ns ≡ true
    → sync_handler fl api key c ≡ none
unfolding sync_handler schedule_share_pod sync_cluster_resources
sync_handler-hangs fl api key namespace name p spec ns ps c a b d e f g h i j t =
    ground (arith, sync_node_resources-hangs ns t)
