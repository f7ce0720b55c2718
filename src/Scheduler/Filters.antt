-- ===== src/Scheduler/Filters.antt =====
-- pkg/scheduler/filters.go. The list of a node's GPUs stands in the order in which the loop visits
-- the map; deleting the GPU at hand does not change the rest of the visit.
pub mod Laws
use faas_share.Common.{
  String, Bool, true, false, ◌||◌, ◌&&◌, not, Option, none, some, List, [], ◌∷◌, Map, lookup,
  value_at, is_empty, str_eq, any, keep, length, map, ◌==◌, if◌then◌else◌,
}
use faas_share.Kube.{Pod}
use faas_share.Scheduler.Resources.{
  GpuInfo, NodeResource, NodeResources, affinity_key, anti_affinity_key, exclusion_key,
}

abbrev pub has_tag : String → List String → Bool
has_tag t = any (λ u. str_eq t u)

-- The body of a filter, at every node.
unfoldable pub on_gpus : (Map GpuInfo → Map GpuInfo) → NodeResources → NodeResources
on_gpus f [] = []
on_gpus f ((name, r) ∷ rs) = (name, record r { gpu_free = f r.gpu_free }) ∷ on_gpus f rs

abbrev pub affine : String → String × GpuInfo → Bool
affine t (id, g) = has_tag t g.affinity_tags

abbrev pub not_anti_affine : String → String × GpuInfo → Bool
not_anti_affine t (id, g) = not (has_tag t g.anti_affinity_tags)

-- `GPUAffinityFilter`
unfoldable pub affinity_filter : Pod → NodeResources → NodeResources
affinity_filter p rs = elim (lookup affinity_key p.annotations) [
  | none ↦ rs
  | some t ↦ on_gpus (keep (affine t)) rs
]

-- `GPUAntiAffinityFilter`
unfoldable pub anti_affinity_filter : Pod → NodeResources → NodeResources
anti_affinity_filter p rs = elim (lookup anti_affinity_key p.annotations) [
  | none ↦ rs
  | some t ↦ on_gpus (keep (not_anti_affine t)) rs
]

-- Some tag of the GPU is not the pod's.
abbrev pub has_other_tag : String → List String → Bool
has_other_tag t = any (λ u. not (str_eq t u))

abbrev pub no_tags : List String → Bool
no_tags [] = true
no_tags (t ∷ ts) = false

-- The inner loop of `GPUExclusionFilter`. The `break` after the first deletion leaves the loop
-- over the GPUs; the other one leaves only the loop over the tags.
unfoldable pub exclude_gpus : String → Map GpuInfo → Map GpuInfo
exclude_gpus t [] = []
exclude_gpus t ((id, g) ∷ gs) =
    let rest = exclude_gpus t gs in
    if not (is_empty t) && no_tags g.exclusion_tags
    then gs
    else if has_other_tag t g.exclusion_tags
    then rest
    else (id, g) ∷ rest

-- `GPUExclusionFilter`
unfoldable pub exclusion_filter : Pod → NodeResources → NodeResources
unfolding exclude_gpus
exclusion_filter p rs = on_gpus (exclude_gpus (value_at exclusion_key p.annotations)) rs

-- The loop over `filters`.
unfoldable pub run_filters : Pod → NodeResources → NodeResources
unfolding affinity_filter anti_affinity_filter exclusion_filter
run_filters p rs = exclusion_filter p (anti_affinity_filter p (affinity_filter p rs))
