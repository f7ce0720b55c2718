-- ===== src/Scheduler/Resources/Waiting.antt =====
-- When `syncNodeResources` returns, and what it has then recorded.
use faas_share.Common.{
  ℕ, ◌+◌, ◌≤◌, String, ◌≡◌, refl, ◌∙◌, ◌≢◌, inl, inr, List, [], ◌∷◌, arith, true, false, none, some,
  length, any, lookup, lookup-insert, str_eq_refl, str_eq_ne, if◌then◌else◌, All, In,
}
use faas_share.Kube.{Node}
use faas_share.Scheduler.Resources.{
  NodeResource, NodeResources, SyncState, is_tainted, fresh_resource, sync_node, sync_nodes,
  sync_node_resources,
}

abbrev pub tainted_count : List Node → ℕ
tainted_count [] = 0
tainted_count (n ∷ ns) = (if is_tainted n then 1 else 0) + tainted_count ns

-- Every tainted node keeps the counter of the `WaitGroup` up by one.
waiting-sync_nodes :
    (s : SyncState) (ns : List Node)
    → length ns ≤ s.waiting
    → (sync_nodes s ns).waiting + length ns ≡ s.waiting + tainted_count ns
unfolding sync_nodes sync_node
waiting-sync_nodes s [] h = omega arith
waiting-sync_nodes s (n ∷ ns) h = ground (arith, waiting-sync_nodes (sync_node s n) ns)

tainted_count-pos : (ns : List Node) → any is_tainted ns ≡ true → tainted_count ns ≢ 0
tainted_count-pos [] h = cc
tainted_count-pos (n ∷ ns) h = ground (arith, tainted_count-pos ns)

tainted_count-zero : (ns : List Node) → any is_tainted ns ≡ false → tainted_count ns ≡ 0
tainted_count-zero [] h = refl
tainted_count-zero (n ∷ ns) h = ground (arith, tainted_count-zero ns)

abbrev started : List Node → SyncState
started ns = record { resources = []; waiting = length ns }

-- With one tainted node in the list, in whatever order the goroutines run, `Wait` never returns.
pub sync_node_resources-hangs :
    (ns : List Node) → any is_tainted ns ≡ true → sync_node_resources ns ≡ none
unfolding sync_node_resources
sync_node_resources-hangs ns h =
    ground (arith, waiting-sync_nodes (started ns) ns (omega arith), tainted_count-pos ns h)

-- The names of the nodes differ.
abbrev pub DistinctNames : List Node → Type 0
DistinctNames [] = Unit {0}
DistinctNames (n ∷ ns) = All (λ m. m.name ≢ n.name) ns × DistinctNames ns

lookup-sync_nodes_other :
    (s : SyncState) (k : String) (ns : List Node)
    → All (λ m. m.name ≢ k) ns
    → lookup k (sync_nodes s ns).resources ≡ lookup k s.resources
unfolding sync_nodes sync_node
lookup-sync_nodes_other s k [] h = refl
lookup-sync_nodes_other s k (n ∷ ns) h =
    lookup-sync_nodes_other (sync_node s n) k ns h.1
    ∙ ground (arith, lookup-insert n.name k (fresh_resource n) s.resources, str_eq_ne n.name k h.0)

sync_node_self :
    (s : SyncState) (n : Node)
    → is_tainted n ≡ false
    → lookup n.name (sync_node s n).resources ≡ some (fresh_resource n)
unfolding sync_node
sync_node_self s n t = rw t (
    lookup-insert n.name n.name (fresh_resource n) s.resources ∙ ground (arith, str_eq_refl n.name))

lookup-sync_nodes :
    (s : SyncState) (n : Node) (ns : List Node)
    → DistinctNames ns
    → any is_tainted ns ≡ false
    → In n ns
    → lookup n.name (sync_nodes s ns).resources ≡ some (fresh_resource n)
unfolding sync_nodes
lookup-sync_nodes s n [] d t m = elim m [ ]
lookup-sync_nodes s n (n' ∷ ns) d t (inl e) =
    rw e (
      lookup-sync_nodes_other (sync_node s n') n'.name ns d.0
      ∙ (sync_node_self s n' (ground arith)))
lookup-sync_nodes s n (n' ∷ ns) d t (inr m) =
    lookup-sync_nodes (sync_node s n') n ns d.1 (ground arith) m

-- The entry of a node has its allocatable CPU, memory and number of GPUs, as totals and as free, and
-- no GPU in use.
abbrev pub Full : Node → NodeResource → Type 0
Full n r =
    (r.cpu_total ≡ n.cpu_milli)
    × (r.cpu_free ≡ n.cpu_milli)
    × (r.mem_total ≡ n.mem_milli)
    × (r.mem_free ≡ n.mem_milli)
    × (r.gpu_total ≡ n.gpus)
    × (r.gpu_free_count ≡ n.gpus)
    × (r.gpu_free ≡ [])

fresh_resource-Full : (n : Node) → Full n (fresh_resource n)
unfolding fresh_resource
fresh_resource-Full n = (refl, refl, refl, refl, refl, refl, refl)

-- With no tainted node and distinct names it returns, and then each node has an entry under its
-- name with its full allocatable amounts: CPU, memory and number of GPUs, as totals and as free,
-- and no GPU in use.
pub sync_node_resources-returns :
    (ns : List Node)
    → any is_tainted ns ≡ false
    → DistinctNames ns
    → (rs : NodeResources) × (sync_node_resources ns ≡ some rs)
      × ((n : Node) → In n ns → (r : NodeResource) × (lookup n.name rs ≡ some r) × Full n r)
unfolding sync_node_resources
sync_node_resources-returns ns t d = (
  (sync_nodes (started ns) ns).resources,
  ground (arith, waiting-sync_nodes (started ns) ns (omega arith), tainted_count-zero ns t),
  λ n m. (fresh_resource n, lookup-sync_nodes (started ns) n ns d t m, fresh_resource-Full n),
)
