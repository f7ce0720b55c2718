-- ===== src/Scheduler/Resources/Sharing.antt =====
-- What `syncPodResources` does for the pods that share a GPU.
use faas_share.Common.{
  String, ◌≡◌, refl, inl, inr, Bool-cases, Option-cases, List, [], ◌∷◌, arith, true, false, ◌||◌,
  none, some, lookup, value_at, is_empty, contains, Values, Values-insert, Values-lookup,
  if◌then◌else◌, Map, subst, length, ◌==◌, ℤ, sub64,
}
use faas_share.Kube.{Float64, Pod, Node, Container, gpu_request_key, dummy_pod_name}
use faas_share.Kube.GpuSpec.{parse_spec, names_gpu}
use faas_share.Scheduler.Resources.{
  NodeResource, NodeResources, SyncState, is_tainted, fresh_resource, sync_node, sync_nodes,
  sync_node_resources, charge_cpu_mem, charge_all, charge_share_pod, charge_pod, sync_pod,
  sync_pods, sync_cluster_resources, owned_by_share_pod, is_finished,
}

abbrev started : List Node → SyncState
started ns = record { resources = []; waiting = length ns }

-- No GPU of the node is recorded as shared.
abbrev pub NoGpus : NodeResource → Type 0
NoGpus r = r.gpu_free ≡ []

charge_cpu_mem-NoGpus :
    (cs : List Container) (r : NodeResource) → NoGpus r → NoGpus (charge_cpu_mem r cs)
unfolding charge_cpu_mem
charge_cpu_mem-NoGpus [] r h = h
charge_cpu_mem-NoGpus (c ∷ cs) r h = charge_cpu_mem-NoGpus cs _ h

charge_all-NoGpus : (cs : List Container) (r : NodeResource) → NoGpus r → NoGpus (charge_all r cs)
unfolding charge_all
charge_all-NoGpus [] r h = h
charge_all-NoGpus (c ∷ cs) r h = charge_all-NoGpus cs _ h

empty-of_is_empty : (s : String) → is_empty s ≡ true → s ≡ ""
empty-of_is_empty String.[] h = refl
empty-of_is_empty (String.◌∷◌ c s) h = cc

fresh-NoGpus :
    (s : SyncState) (ns : List Node)
    → Values NoGpus s.resources
    → Values NoGpus (sync_nodes s ns).resources
unfolding sync_nodes sync_node fresh_resource
fresh-NoGpus s [] h = h
fresh-NoGpus s (n ∷ ns) h = fresh-NoGpus (sync_node s n) ns (elim (Bool-cases (is_tainted n)) [
  | inl t ↦ rw t h
  | inr f ↦ rw f (Values-insert NoGpus n.name (fresh_resource n) s.resources refl h)
])

module _ (fl : Float64) (empty_refused : fl.parse "" ≡ none) where
  no_request :
      (a : Map String) → is_empty (value_at gpu_request_key a) ≡ true → parse_spec fl a ≡ none
  unfolding parse_spec
  no_request a h = ground (arith, empty_refused, empty-of_is_empty (value_at gpu_request_key a) h)

  charge_share_pod-NoGpus :
      (r : NodeResource) (p : Pod)
      → is_empty (value_at gpu_request_key p.annotations) ≡ true
      → NoGpus r
      → NoGpus (charge_share_pod fl r p).0
  unfolding charge_share_pod
  charge_share_pod-NoGpus r p e h =
      ground (arith, no_request p.annotations e, charge_cpu_mem-NoGpus p.containers r h)

  charge_pod-NoGpus : (r : NodeResource) (p : Pod) → NoGpus r → NoGpus (charge_pod fl r p)
  unfolding charge_pod
  charge_pod-NoGpus r p h = ground (
    arith,
    charge_share_pod-NoGpus r p,
    charge_all-NoGpus p.containers r h,
    charge_all-NoGpus p.containers (charge_share_pod fl r p).0,
  )

  sync_pod-NoGpus :
      (rs : NodeResources) (p : Pod) → Values NoGpus rs → Values NoGpus (sync_pod fl rs p)
  unfolding sync_pod
  sync_pod-NoGpus rs p h =
      elim (Bool-cases (is_empty p.node_name || contains p.name dummy_pod_name)) [
        | inl skip ↦ rw skip h
        | inr goes_on ↦ rw goes_on (elim (Option-cases (lookup p.node_name rs)) [
          | inl absent ↦ rw absent h
          | inr (r, found) ↦ rw found (
              Values-insert NoGpus p.node_name (charge_pod fl r p) rs
                (charge_pod-NoGpus r p (Values-lookup NoGpus p.node_name r rs h found)) h)
        ])
      ]

  sync_pods-NoGpus :
      (rs : NodeResources) (ps : List Pod) → Values NoGpus rs → Values NoGpus (sync_pods fl rs ps)
  unfolding sync_pods
  sync_pods-NoGpus rs [] h = h
  sync_pods-NoGpus rs (p ∷ ps) h = sync_pods-NoGpus (sync_pod fl rs p) ps (sync_pod-NoGpus rs p h)

  sync_cluster_resources-cases :
      (ns : List Node) (ps : List Pod) (rs : NodeResources)
      → sync_cluster_resources fl ns ps ≡ some rs
      → Values NoGpus rs
  unfolding sync_cluster_resources sync_node_resources
  sync_cluster_resources-cases ns ps rs e =
      elim (Bool-cases ((sync_nodes (started ns) ns).waiting == 0)) [
        | inl done ↦
            let same : sync_pods fl (sync_nodes (started ns) ns).resources ps ≡ rs = ground arith in
            subst (Values NoGpus) same (sync_pods-NoGpus _ ps (fresh-NoGpus (started ns) ns tt))
        | inr waits ↦ absurd (ground arith)
      ]

-- `strconv.ParseFloat` refuses the empty text. Then, whatever pods the cluster runs, the scheduler
-- records no GPU as shared: the block that would do so is only reached by pods without a GPU
-- request, whose request does not parse.
pub sync_cluster_resources-NoGpus :
    (fl : Float64)
    → fl.parse "" ≡ none
    → (ns : List Node) (ps : List Pod) (rs : NodeResources)
    → sync_cluster_resources fl ns ps ≡ some rs
    → Values NoGpus rs
sync_cluster_resources-NoGpus fl empty ns ps rs e = sync_cluster_resources-cases fl empty ns ps rs e

-- What is left of an amount after a list of containers has been charged.
abbrev pub less_cpu : ℤ → List Container → ℤ
less_cpu free [] = free
less_cpu free (c ∷ cs) = less_cpu (sub64 free c.cpu_milli) cs

cpu_free-charge_cpu_mem :
    (cs : List Container) (r : NodeResource)
    → (charge_cpu_mem r cs).cpu_free ≡ less_cpu r.cpu_free cs
unfolding charge_cpu_mem
cpu_free-charge_cpu_mem [] r = refl
cpu_free-charge_cpu_mem (c ∷ cs) r = cpu_free-charge_cpu_mem cs _

cpu_free-charge_all :
    (cs : List Container) (r : NodeResource) → (charge_all r cs).cpu_free ≡ less_cpu r.cpu_free cs
unfolding charge_all
cpu_free-charge_all [] r = refl
cpu_free-charge_all (c ∷ cs) r = cpu_free-charge_all cs _

-- A running pod without GPU annotations takes its CPU requests off its node once; if a SharePod
-- owns it, it takes them off twice.
pub cpu_free-charge_pod :
    (fl : Float64) (r : NodeResource) (p : Pod)
    → names_gpu p.annotations ≡ false
    → is_finished p ≡ false
    → (charge_pod fl r p).cpu_free ≡ (
        if owned_by_share_pod p
        then less_cpu (less_cpu r.cpu_free p.containers) p.containers
        else less_cpu r.cpu_free p.containers)
unfolding charge_pod charge_share_pod names_gpu
cpu_free-charge_pod fl r p no_gpu runs = ground (
  arith,
  cpu_free-charge_cpu_mem p.containers r,
  cpu_free-charge_all p.containers r,
  cpu_free-charge_all p.containers (charge_cpu_mem r p.containers),
)
