-- ===== src/DeviceManager/Tests.antt =====
-- A node with one GPU and one pod on it.
use faas_share.DeviceManager.Pool.Freeing.{remove_request-frees}
use faas_share.Common.{not, ◌&&◌, ◌==◌}
use faas_share.Common.{
  ℤ, Option, List, str_eq, String, pos, true, false, none, some, [], ◌∷◌, lookup, insert, All, ◌≡◌,
  refl, arith,
}
use faas_share.Kube.{Pod, found, not_found, OwnerReference, gpuid_key, gpu_request_key}
use faas_share.Kube.Thousandths.{thousandths}
use faas_share.Common.{◌+ℤ◌, ◌-ℤ◌, ℕ, erase}
use faas_share.Bitmap.{find_next_from_current_and_set, is_masked, rr_unmask}
use faas_share.Common.{map, ◌++◌, Bool, In, ◌⊎◌, ◌≢◌}
use faas_share.DeviceManager.Pool.{clean_orphans}
use faas_share.DeviceManager.Pool.Orphans.{used_only, deleted, all_orphans, clean_orphans-cleaned}
use faas_share.DeviceManager.State.{not_ready}
use faas_share.DeviceManager.State.{
  PodRequest, GpuInfo, NodeInfo, State, NodeStatus, ready, fresh_ports,
}
use faas_share.DeviceManager.Pool.{Claim, get_physical_gpu, find_in_queue}
use faas_share.DeviceManager.Pool.Removal.{remove_pods, remove_request}
use faas_share.DeviceManager.Pool.Codes.{Outcome, get_physical_gpu-Outcome}
use faas_share.DeviceManager.Pool.Invariant.{get_physical_gpu-retry}
use faas_share.DeviceManager.Pool.Leaving.{entry_of_pod, remove_pods-returned}
use faas_share.DeviceManager.Controller.{Api, Deployment}

abbrev claim : Claim thousandths
claim = record { key = "ns/a"; request = 300; limit = 500; memory = pos 1024 }

abbrev other_claim : Claim thousandths
other_claim = record { key = "ns/b"; request = 300; limit = 500; memory = pos 1024 }

abbrev n1 : NodeInfo thousandths
n1 = record { gpus = []; uuid2port = []; bitmap = fresh_ports; pod_ip = "10.0.0.1" }

abbrev client : NodeStatus
client = record { conn = "c1"; last_heartbeat = pos 0; client_status = ready }

abbrev empty_pool : State thousandths
empty_pool = record { nodes = ("n1", n1) ∷ []; statuses = ("n1", client) ∷ []; calls = [] }

-- One pod has registered.
abbrev pool : State thousandths
pool = (get_physical_gpu thousandths "n1" "gpu" claim (pos 0) empty_pool).0

get_physical_gpu-Outcome_example :
    Outcome thousandths "n1" "gpu" other_claim
      (pos 0)
      pool
      (get_physical_gpu thousandths "n1" "gpu" other_claim (pos 0) pool)
get_physical_gpu-Outcome_example =
    get_physical_gpu-Outcome thousandths "n1" "gpu" other_claim (pos 0) pool

get_physical_gpu-retry_example :
    let a = get_physical_gpu thousandths "n1" "gpu" other_claim (pos 0) pool in
    let b = get_physical_gpu thousandths "n1" "gpu" other_claim (pos 0) a.0 in
    (b.0.nodes ≡ a.0.nodes) × (b.1 ≡ a.1)
unfolding get_physical_gpu lookup ◌+ℤ◌ find_next_from_current_and_set fresh_ports is_masked insert
get_physical_gpu-retry_example =
    let a = get_physical_gpu thousandths "n1" "gpu" other_claim (pos 0) pool in
    get_physical_gpu-retry thousandths "n1" "gpu" other_claim other_claim (pos 0) (pos 0) pool a.0
      a.1 refl refl (λ e. omega (arith, e)) (λ e. omega (arith, e))

abbrev running : Pod
running = record {
  namespace = "ns";
  name = "p";
  labels = [];
  annotations = (gpu_request_key, "300") ∷ [];
  owner_references = [];
  node_name = "n1";
  restart_policy = "Always";
  phase = "Running";
  containers = [];
  volumes = [];
}

abbrev with_id : Pod
with_id = record running { annotations = (gpuid_key, "gpu") ∷ [] }

remove_pods-returned_example :
    ((pool ≡ pool)
      × All (λ (r : Pod × Bool). entry_of_pod thousandths r.0 pool ≡ none) ((with_id, false) ∷ []))
    ⊎ ((r : Pod × Bool) × In r ((with_id, false) ∷ [])
        × (r.1 ≡ true)
        × (entry_of_pod thousandths r.0 pool ≢ none))
unfolding get_physical_gpu lookup ◌+ℤ◌ find_next_from_current_and_set fresh_ports is_masked insert
    remove_pods
remove_pods-returned_example =
    remove_pods-returned thousandths ((with_id, false) ∷ []) pool pool refl

abbrev owner : OwnerReference
owner = record { kind = "ReplicaSet"; name = "fn-5d8"; controller = true }

abbrev share_pod : OwnerReference
share_pod = record { kind = "SharePod"; name = "fn"; controller = true }

abbrev deployment : Deployment
deployment = record { namespace = "ns"; name = "fn"; owner = some share_pod }

abbrev api : Api
api = record {
  split_key = λ k. some ("ns", "fn");
  get_deployment = λ ns n. elim (str_eq n "fn") [ true ↦ found deployment | false ↦ not_found ];
  pods_of = λ d. some (running ∷ with_id ∷ []);
  patch_result = λ p. p;
  get_replica_set =
      λ ns n. some (some (record { kind = "Deployment"; name = "fn"; controller = true }));
}

abbrev entry : PodRequest thousandths
entry = record { key = "ns/a"; request = 300; limit = 500; memory = pos 1024; port = pos 50051 }

abbrev used_gpu : GpuInfo thousandths
used_gpu = record { uuid = "GPU-a"; usage = 300; mem = pos 1024; pod_list = entry ∷ [] }

abbrev used_node : NodeInfo thousandths
used_node = record n1 { gpus = ("gpu", used_gpu) ∷ [] }

-- The state after the removal of the only entry.
abbrev emptied : State thousandths
emptied = record empty_pool {
  nodes =
      (
        "n1",
        record n1 { bitmap = record { bitmap = record { bits = 1 ∷ [] }; l = 512; current = 0 } },
      )
      ∷ [];
}

-- Two good lines, and then the connection ends.
abbrev stream : List (ℤ × Option String)
stream = (pos 10, some "heartbeat!\n") ∷ (pos 20, some "heartbeat!\n") ∷ (pos 30, none) ∷ []

abbrev after_stream : State thousandths
after_stream = record empty_pool {
  statuses =
      ("n1", record { conn = "c1"; last_heartbeat = pos 20; client_status = not_ready }) ∷ [];
}

remove_request-frees_example :
    (m : NodeInfo thousandths) × (lookup "n1" emptied.nodes ≡ some m)
    × ((q : ℕ) → is_masked m.bitmap.bitmap q ≡ (not (1 == q) && is_masked n1.bitmap.bitmap q))
unfolding remove_request fresh_ports insert rr_unmask ◌-ℤ◌ find_in_queue erase
remove_request-frees_example =
    remove_request-frees thousandths "n1" "gpu" entry used_node used_gpu empty_pool emptied
      (some "GPU-a") 1 refl refl

-- Beside the GPU of the registered pod one without requests.
abbrev with_orphan : State thousandths
with_orphan = record pool {
  nodes =
      map
        (λ (x : String × NodeInfo thousandths). (
          x.0,
          record x.1 {
            gpus =
                ("free", record { uuid = "GPU-2"; usage = 0; mem = pos 0; pod_list = [] })
                ∷ x.1.gpus;
          },
        ))
        pool.nodes;
}

clean_orphans-cleaned_example :
    ((clean_orphans thousandths with_orphan).nodes ≡ map (used_only thousandths) with_orphan.nodes)
    × (deleted (clean_orphans thousandths with_orphan).calls
        ≡ deleted with_orphan.calls ++ all_orphans thousandths with_orphan.nodes)
clean_orphans-cleaned_example = clean_orphans-cleaned thousandths with_orphan
