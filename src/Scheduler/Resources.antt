-- ===== src/Scheduler/Resources.antt =====
-- pkg/scheduler/resource_type.go and sync_resources.go: what is free on each node. The maps of Go
-- are association lists, so a deep copy is the value itself.
pub mod Waiting
pub mod Sharing
pub mod Memory
use faas_share.Common.{
  ℕ, suc, ◌-◌, String, ℤ, pos, negsuc, Bool, true, false, ◌||◌, ◌&&◌, not, Option, none, some, List,
  [], ◌∷◌, ◌++◌, Map, lookup, insert, value_at, is_empty, str_eq, contains, split, first_part,
  parse_int, length, any, add64, sub64, scale64, ltb_ℤ, ◌==◌, if◌then◌else◌,
}
use faas_share.Kube.{
  Float64, Pod, Node, Container, OwnerReference, gpu_request_key, gpuid_key, gpu_info_key,
  dummy_pod_name,
}
use faas_share.Kube.GpuSpec.{GpuSpec, parse_spec, names_gpu}

pub record GpuInfo : Type 0 where
  pub free_req : ℤ
  pub free_mem : ℤ
  pub affinity_tags : List String
  pub anti_affinity_tags : List String
  pub exclusion_tags : List String

pub record NodeResource : Type 0 where
  pub cpu_total : ℤ
  pub mem_total : ℤ
  pub gpu_total : ℤ
  pub gpu_mem_total : ℤ
  pub cpu_free : ℤ
  pub mem_free : ℤ
  pub gpu_free_count : ℤ
  pub gpu_free : Map GpuInfo

abbrev pub NodeResources : Type 0
NodeResources = Map NodeResource

abbrev pub affinity_key : String
affinity_key = "kubeshare/sched_affinity"

abbrev pub anti_affinity_key : String
anti_affinity_key = "kubeshare/sched_anti-affinity"

abbrev pub exclusion_key : String
exclusion_key = "kubeshare/sched_exclusion"

-- The second part of "uuid:mem", in a list of exactly two.
abbrev mem_part : List String → ℤ
mem_part (id ∷ mem ∷ []) = elim (parse_int mem) [ none ↦ pos 0 | some m ↦ m ]
mem_part parts = pos 0

-- The memory of the first GPU that the annotation lists; 0 where it is missing or ill-formed.
unfoldable pub gpu_mem : Node → ℤ
gpu_mem n = elim (lookup gpu_info_key n.annotations) [
  | none ↦ pos 0
  | some info ↦ mem_part (split b':' (first_part (split b',' info)))
]

unfoldable pub is_tainted : Node → Bool
is_tainted n = any (λ e. str_eq e "NoSchedule") n.taint_effects

-- The entry that `syncNode` makes for a node.
unfoldable pub fresh_resource : Node → NodeResource
fresh_resource n = record {
  cpu_total = n.cpu_milli;
  mem_total = n.mem_milli;
  gpu_total = n.gpus;
  gpu_mem_total = scale64 (scale64 (gpu_mem n) 1024) 1024;
  cpu_free = n.cpu_milli;
  mem_free = n.mem_milli;
  gpu_free_count = n.gpus;
  gpu_free = [];
}

-- The shared map, and the counter of the `WaitGroup`.
pub record SyncState : Type 0 where
  pub resources : NodeResources
  pub waiting : ℕ

-- One goroutine `syncNode`. A tainted node returns before `wait.Done()`.
unfoldable pub sync_node : SyncState → Node → SyncState
sync_node s n = if is_tainted n then s else record s {
  resources = insert n.name (fresh_resource n) s.resources;
  waiting = s.waiting - 1;
}

unfoldable pub sync_nodes : SyncState → List Node → SyncState
sync_nodes s [] = s
sync_nodes s (n ∷ ns) = sync_nodes (sync_node s n) ns

-- `syncNodeResources`, with the nodes in the order in which their goroutines take the mutex;
-- `none` where `wait.Wait()` never returns.
unfoldable pub sync_node_resources : List Node → Option NodeResources
sync_node_resources ns =
    let s = sync_nodes (record { resources = []; waiting = length ns }) ns in
    if s.waiting == 0 then some s.resources else none

-- The loop that takes the requests of CPU and memory off a node.
unfoldable pub charge_cpu_mem : NodeResource → List Container → NodeResource
charge_cpu_mem r [] = r
charge_cpu_mem r (c ∷ cs) =
    charge_cpu_mem
      (record r {
        cpu_free = sub64 r.cpu_free c.cpu_milli;
        mem_free = sub64 r.mem_free c.mem_milli;
      })
      cs

-- The last loop of `syncPodResources`, which also counts whole GPUs.
unfoldable pub charge_all : NodeResource → List Container → NodeResource
charge_all r [] = r
charge_all r (c ∷ cs) =
    charge_all
      (record r {
        cpu_free = sub64 r.cpu_free c.cpu_milli;
        mem_free = sub64 r.mem_free c.mem_milli;
        gpu_free_count = sub64 r.gpu_free_count c.gpus;
      })
      cs

-- A tag that is not empty is appended once.
unfoldable pub add_tag : String → List String → List String
add_tag t ts = if is_empty t || any (λ v. str_eq v t) ts then ts else ts ++ t ∷ []

unfoldable pub owned_by_share_pod : Pod → Bool
owned_by_share_pod p = any (λ o. str_eq o.kind "SharePod") p.owner_references

-- A pod that has ended and is not restarted.
unfoldable pub is_finished : Pod → Bool
is_finished p =
    (str_eq p.restart_policy "OnFailure" && str_eq p.phase "Succeeded")
    || (str_eq p.restart_policy "Never" && (str_eq p.phase "Succeeded" || str_eq p.phase "Failed"))

-- The three tags of a pod on a GPU.
unfoldable pub tag_gpu : Pod → GpuInfo → GpuInfo
tag_gpu p g = record g {
  affinity_tags = add_tag (value_at affinity_key p.annotations) g.affinity_tags;
  anti_affinity_tags = add_tag (value_at anti_affinity_key p.annotations) g.anti_affinity_tags;
  exclusion_tags = add_tag (value_at exclusion_key p.annotations) g.exclusion_tags;
}

module _ (fl : Float64) where
  -- A pod's share of a GPU; `none` where no GPU is left for a new identifier.
  unfoldable pub charge_gpu : NodeResource → Pod → GpuSpec fl → Option NodeResource
  unfolding tag_gpu
  charge_gpu r p spec =
      let id = value_at gpuid_key p.annotations in
      let opened : NodeResource = record r {
        gpu_free_count = sub64 r.gpu_free_count (pos 1);
        gpu_free =
            insert id
              (tag_gpu p (record {
                free_req = sub64 (pos 1000) (fl.milli spec.request);
                free_mem = sub64 r.gpu_mem_total spec.mem;
                affinity_tags = [];
                anti_affinity_tags = [];
                exclusion_tags = [];
              }))
              r.gpu_free;
      } in
      elim (lookup id r.gpu_free) [
        | none ↦ if ltb_ℤ (pos 0) r.gpu_free_count then some opened else none
        | some g ↦ some (record r {
          gpu_free =
              insert id
                (tag_gpu p (record g {
                  free_req = sub64 g.free_req (fl.milli spec.request);
                  free_mem = sub64 g.free_mem spec.mem;
                }))
                r.gpu_free;
        })
      ]

  -- The block for a pod of a SharePod: the node after it, and whether the loop goes on to the
  -- last part for this pod (`false` for a `continue`).
  unfoldable pub charge_share_pod : NodeResource → Pod → NodeResource × Bool
  unfolding charge_gpu
  charge_share_pod r p =
      let charged = charge_cpu_mem r p.containers in
      let gpu : NodeResource × Bool = elim (parse_spec fl p.annotations) [
        | none ↦ (charged, false)
        | some spec ↦ elim (charge_gpu charged p spec) [
          | none ↦ (charged, false)
          | some s ↦ (s, true)
        ]
      ] in
      if names_gpu p.annotations then gpu else (charged, true)

  -- The rest of the loop body, for a pod on a known node.
  unfoldable pub charge_pod : NodeResource → Pod → NodeResource
  unfolding charge_share_pod
  charge_pod r p =
      let has_request = not (is_empty (value_at gpu_request_key p.annotations)) in
      let (s, goes_on) =
        if owned_by_share_pod p || has_request then charge_share_pod r p else (r, true) in
      if has_request
      then r
      else if not goes_on || is_finished p
      then s
      else charge_all s p.containers

  -- One round of the loop of `syncPodResources`.
  unfoldable pub sync_pod : NodeResources → Pod → NodeResources
  unfolding charge_pod
  sync_pod rs p =
      if is_empty p.node_name || contains p.name dummy_pod_name
      then rs
      else elim (lookup p.node_name rs) [
        | none ↦ rs
        | some r ↦ insert p.node_name (charge_pod r p) rs
      ]

  unfoldable pub sync_pods : NodeResources → List Pod → NodeResources
  sync_pods rs [] = rs
  sync_pods rs (p ∷ ps) = sync_pods (sync_pod rs p) ps

  -- `syncClusterResources`
  unfoldable pub sync_cluster_resources : List Node → List Pod → Option NodeResources
  unfolding sync_pods
  sync_cluster_resources ns ps = elim (sync_node_resources ns) [
    | none ↦ none
    | some rs ↦ some (sync_pods rs ps)
  ]
