-- ===== src/Scheduler/BestFit.antt =====
-- pkg/scheduler/scheduler.go. The goroutines of the nodes only meet in `tryBestNode`, under a
-- mutex, so a run is a sequence of its calls.
pub mod Choice
pub mod Fits
pub mod Fresh
use faas_share.Common.{
  ℕ, String, ℤ, pos, Bool, true, false, ◌||◌, Option, none, some, List, [], ◌∷◌, ◌++◌, Map, add64,
  sub64, ltb_ℤ, if◌then◌else◌,
}
use faas_share.Kube.{Float64, Pod, Node, Container}
use faas_share.Scheduler.Resources.{GpuInfo, NodeResource, NodeResources, sync_cluster_resources}
use faas_share.Scheduler.Filters.{run_filters}

-- `candidateNodeGPU`
pub record Candidate : Type 0 where
  pub node_name : String
  pub gpuid : String
  pub point : ℤ

abbrev pub no_node : Candidate
no_node = record { node_name = ""; gpuid = ""; point = pos 2147483647 }

-- `tryBestNode`
unfoldable pub try_best_node : Candidate → Candidate → Candidate
try_best_node best c = if ltb_ℤ c.point best.point then c else best

-- What the pod asks for; `new_id` is what `NewGPUID(5)` returns in the goroutine of a node.
pub record Request : Type 0 where
  pub is_gpu_pod : Bool
  pub cpu : ℤ
  pub mem : ℤ
  pub gpu_milli : ℤ
  pub gpu_mem : ℤ
  pub new_id : String → String

unfoldable pub total_cpu : ℤ → List Container → ℤ
total_cpu acc [] = acc
total_cpu acc (c ∷ cs) = total_cpu (add64 acc c.cpu_milli) cs

unfoldable pub total_mem : ℤ → List Container → ℤ
total_mem acc [] = acc
total_mem acc (c ∷ cs) = total_mem (add64 acc c.mem_milli) cs

-- `gpu.GPUFreeReq < gpu_request_millivalue || gpu.GPUFreeMem < gpu_mem`
abbrev pub too_small : Request → GpuInfo → Bool
too_small q g = ltb_ℤ g.free_req q.gpu_milli || ltb_ℤ g.free_mem q.gpu_mem

-- The calls for the GPUs in use that still have room.
unfoldable pub gpu_candidates : Request → String → Map GpuInfo → List Candidate
gpu_candidates q name [] = []
gpu_candidates q name ((id, g) ∷ gs) =
    let rest = gpu_candidates q name gs in
    if too_small q g
    then rest
    else record { node_name = name; gpuid = id; point = sub64 g.free_req q.gpu_milli } ∷ rest

-- The call for a GPU that is not in use.
unfoldable pub new_gpu_candidates : Request → String → NodeResource → List Candidate
new_gpu_candidates q name r =
    if ltb_ℤ (pos 0) r.gpu_free_count
    then record { node_name = name; gpuid = q.new_id name; point = sub64 (pos 1000) q.gpu_milli }
      ∷ []
    else []

-- `findTheHole`
abbrev pub or_new : List Candidate → List Candidate → List Candidate
or_new [] fresh = fresh
or_new (c ∷ cs) fresh = c ∷ cs

-- The calls that `scheduleNode` makes for one node.
unfoldable pub node_candidates : Request → String → NodeResource → List Candidate
unfolding gpu_candidates new_gpu_candidates
node_candidates q name r =
    let on_gpu = or_new (gpu_candidates q name r.gpu_free) (new_gpu_candidates q name r) in
    let on_cpu = record { node_name = name; gpuid = ""; point = sub64 r.cpu_free q.cpu } ∷ [] in
    if ltb_ℤ r.cpu_free q.cpu || ltb_ℤ r.mem_free q.mem
    then []
    else if q.is_gpu_pod
    then on_gpu
    else on_cpu

-- The calls for all nodes, one node after another.
unfoldable pub candidates : Request → NodeResources → List Candidate
unfolding node_candidates
candidates q [] = []
candidates q ((name, r) ∷ rs) = node_candidates q name r ++ candidates q rs

-- The candidate that a sequence of calls leaves.
unfoldable pub best_of : Candidate → List Candidate → Candidate
unfolding try_best_node
best_of best [] = best
best_of best (c ∷ cs) = best_of (try_best_node best c) cs

-- `ScheduleAlgorithmBestFit`
unfoldable pub best_fit : Request → NodeResources → String × String
unfolding candidates best_of
best_fit q rs = let b = best_of no_node (candidates q rs) in (b.node_name, b.gpuid)

module _ (fl : Float64) where
  unfoldable pub request_of : Bool → fl.F → ℤ → Pod → (String → String) → Request
  unfolding total_cpu total_mem
  request_of is_gpu_pod gpu_request gpu_mem p new_id = record {
    is_gpu_pod = is_gpu_pod;
    cpu = total_cpu (pos 0) p.containers;
    mem = total_mem (pos 0) p.containers;
    gpu_milli = fl.milli gpu_request;
    gpu_mem = gpu_mem;
    new_id = new_id;
  }

  -- `scheduleSharePod`; `none` where it waits for ever.
  unfoldable pub schedule_share_pod :
      Bool → fl.F → ℤ → Pod → (String → String) → List Node → List Pod → Option (String × String)
  unfolding request_of best_fit
  schedule_share_pod is_gpu_pod gpu_request gpu_mem p new_id ns ps =
      elim (sync_cluster_resources fl ns ps) [
        | none ↦ none
        | some rs ↦
            some (best_fit (request_of is_gpu_pod gpu_request gpu_mem p new_id) (run_filters p rs))
      ]
