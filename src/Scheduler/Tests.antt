-- ===== src/Scheduler/Tests.antt =====
-- The scheduler on small clusters, and its properties there.
use faas_share.Common.{
  ◌≡◌, refl, inl, inr, ◌≢◌, true, false, none, some, List, [], ◌∷◌, arith, In, Values, lookup, pos,
  str_eq_iff, insert, sub64, add64, parse_int, contains, show_int, count_char,
}
use faas_share.Kube.{found, Pod, Node, Container, gpu_request_key, gpu_limit_key, gpu_mem_key}
use faas_share.Kube.GpuSpec.{GpuSpec, parse_spec, names_gpu}
use faas_share.Kube.Thousandths.{thousandths}
use faas_share.Scheduler.Resources.{
  GpuInfo, NodeResource, NodeResources, is_tainted, fresh_resource, sync_node, sync_nodes, sync_pod,
  sync_node_resources, sync_cluster_resources, charge_pod, charge_all, charge_cpu_mem,
  owned_by_share_pod, is_finished, affinity_key, anti_affinity_key,
}
use faas_share.DeviceManager.Config.{gpu_info_text}
use faas_share.Scheduler.Resources.Memory.{fresh_resource-gpu_mem}
use faas_share.Scheduler.Resources.{NodeResource}
use faas_share.Scheduler.Resources.Waiting.{
  Full, sync_node_resources-hangs, sync_node_resources-returns,
}
use faas_share.Scheduler.Resources.Sharing.{NoGpus, sync_cluster_resources-NoGpus}
use faas_share.Scheduler.Filters.{run_filters, on_gpus, affinity_filter}
use faas_share.Scheduler.Filters.Laws.{Offers, affinity_filter-Offers}
use faas_share.Scheduler.BestFit.{Candidate, Request, best_fit, schedule_share_pod}
use faas_share.Scheduler.BestFit.Choice.{SameOrTied, best_of-order}
use faas_share.Scheduler.BestFit.Fits.{Fits, best_fit-Fits}
use faas_share.Scheduler.Controller.{Api, Controller, bind_share_pod, sync_handler}
use faas_share.Scheduler.Controller.Fate.{Fate, sync_handler-Fate}

abbrev worker : Node
worker = record {
  name = "n1";
  annotations = ("kubeshare/gpu_info", "GPU-a:16,GPU-b:16,") ∷ [];
  taint_effects = [];
  cpu_milli = pos 4000;
  mem_milli = pos 8000;
  gpus = pos 2;
}

abbrev control_plane : Node
control_plane = record worker { name = "n0"; taint_effects = "NoSchedule" ∷ [] }

abbrev job : Container
job = record {
  name = "job";
  cpu_milli = pos 500;
  mem_milli = pos 100;
  gpus = pos 0;
  env = [];
  volume_mounts = [];
}

-- A pod that asks for half a GPU.
abbrev gpu_pod : Pod
gpu_pod = record {
  namespace = "fn";
  name = "a";
  labels = [];
  annotations =
      (gpu_request_key, "500")
      ∷ (gpu_limit_key, "900")
      ∷ (gpu_mem_key, "4")
      ∷ (affinity_key, "red")
      ∷ (anti_affinity_key, "blue")
      ∷ [];
  owner_references = [];
  node_name = "";
  restart_policy = "Always";
  phase = "Pending";
  containers = job ∷ [];
  volumes = [];
}

abbrev owned_pod : Pod
owned_pod = record gpu_pod {
  annotations = [];
  owner_references = record { kind = "SharePod"; name = "s"; controller = true } ∷ [];
  node_name = "n1";
}

abbrev red_gpu : GpuInfo
red_gpu = record {
  free_req = pos 600;
  free_mem = pos 10;
  affinity_tags = "red" ∷ [];
  anti_affinity_tags = [];
  exclusion_tags = [];
}

abbrev on_n1 : NodeResource
on_n1 = record {
  cpu_total = pos 4000;
  mem_total = pos 8000;
  gpu_total = pos 2;
  gpu_mem_total = pos 16;
  cpu_free = pos 4000;
  mem_free = pos 8000;
  gpu_free_count = pos 1;
  gpu_free = ("g1", red_gpu) ∷ ("g2", record red_gpu { free_req = pos 550 }) ∷ [];
}

abbrev half_gpu : Request
half_gpu = record {
  is_gpu_pod = true;
  cpu = pos 500;
  mem = pos 100;
  gpu_milli = pos 500;
  gpu_mem = pos 4;
  new_id = λ n. "new";
}

tightest_gpu : best_fit half_gpu (("n1", on_n1) ∷ []) ≡ ("n1", "g2")
unfolding best_fit sub64
tightest_gpu = refl

resources_of_worker : sync_node_resources (worker ∷ []) ≡ some (("n1", fresh_resource worker) ∷ [])
unfolding sync_node_resources sync_nodes sync_node is_tainted insert
resources_of_worker = refl

sync_node_resources-hangs_example : sync_node_resources (worker ∷ control_plane ∷ []) ≡ none
unfolding is_tainted
sync_node_resources-hangs_example = sync_node_resources-hangs (worker ∷ control_plane ∷ []) refl

sync_node_resources-returns_example :
    (rs : NodeResources) × (sync_node_resources (worker ∷ []) ≡ some rs)
    × ((n : Node)
        → In n (worker ∷ [])
        → (r : NodeResource) × (lookup n.name rs ≡ some r) × Full n r)
unfolding is_tainted
sync_node_resources-returns_example = sync_node_resources-returns (worker ∷ []) refl (tt, tt)

abbrev one_pod_resources : NodeResources
one_pod_resources = ("n1", charge_pod thousandths (fresh_resource worker) owned_pod) ∷ []

one_pod_synced :
    sync_cluster_resources thousandths (worker ∷ []) (owned_pod ∷ []) ≡ some one_pod_resources
unfolding sync_cluster_resources sync_node_resources sync_nodes sync_node is_tainted insert lookup
    contains sync_pod
one_pod_synced = refl

sync_cluster_resources-NoGpus_example : Values NoGpus one_pod_resources
unfolding parse_int
sync_cluster_resources-NoGpus_example =
    sync_cluster_resources-NoGpus thousandths refl (worker ∷ []) (owned_pod ∷ []) one_pod_resources
      one_pod_synced

affinity_filter-Offers_example :
    Offers (affinity_filter gpu_pod (("n1", on_n1) ∷ [])) "n1" "g1" red_gpu
unfolding lookup
affinity_filter-Offers_example =
    (affinity_filter-Offers gpu_pod (("n1", on_n1) ∷ []) "red" "n1" "g1" red_gpu refl).1
      ((on_n1, inl refl, inl refl), inl refl)

abbrev two_candidates : List Candidate
two_candidates =
    record { node_name = "n1"; gpuid = "g1"; point = pos 100 }
    ∷ record { node_name = "n2"; gpuid = "g2"; point = pos 50 }
    ∷ []

abbrev other_order : List Candidate
other_order =
    record { node_name = "n2"; gpuid = "g2"; point = pos 50 }
    ∷ record { node_name = "n1"; gpuid = "g1"; point = pos 100 }
    ∷ []

best_of-order_example : SameOrTied two_candidates other_order
best_of-order_example =
    best_of-order two_candidates other_order
      (λ c m. elim m [ inl e ↦ inr (inl e) | inr (inl e) ↦ inl e | inr (inr e) ↦ elim e [ ] ])
      (λ c m. elim m [ inl e ↦ inr (inl e) | inr (inl e) ↦ inl e | inr (inr e) ↦ elim e [ ] ])

n1_named : (best_fit half_gpu (("n1", on_n1) ∷ [])).0 ≢ ""
n1_named e = ground (arith, str_eq_iff "n1" "", tightest_gpu)

best_fit-Fits_example :
    Fits half_gpu
      (("n1", on_n1) ∷ [])
      (best_fit half_gpu (("n1", on_n1) ∷ [])).0
      (best_fit half_gpu (("n1", on_n1) ∷ [])).1
best_fit-Fits_example = best_fit-Fits half_gpu (("n1", on_n1) ∷ []) n1_named

abbrev huge : Request
huge = record half_gpu { cpu = pos 9000 }

huge_nowhere : (best_fit huge (("n1", on_n1) ∷ [])).0 ≡ ""
unfolding best_fit
huge_nowhere = refl

abbrev cluster : Api
cluster = record {
  split_key = λ key. some ("fn", key);
  get_pod = λ namespace name. found gpu_pod;
  nodes = some (worker ∷ []);
  pods = some (owned_pod ∷ []);
  share_pods_listed = true;
  patch_accepted = λ p a node. true;
  new_id = λ node. "abcde";
}

abbrev tainted_cluster : Api
tainted_cluster = record cluster { nodes = some (worker ∷ control_plane ∷ []) }

abbrev half_spec : GpuSpec thousandths
half_spec = record { request = 500; limit = 900; mem = pos 4 }

abbrev idle : Controller
idle = record { pending = []; calls = [] }

placed_on_n1 :
    schedule_share_pod thousandths true 500
      (pos 4)
      gpu_pod
      cluster.new_id
      (worker ∷ [])
      (owned_pod ∷ [])
    ≡ some ("n1", "abcde")
unfolding schedule_share_pod sync_cluster_resources sync_node_resources sync_nodes sync_node
    is_tainted insert lookup contains sync_pod fresh_resource sub64 run_filters on_gpus
    owned_by_share_pod names_gpu is_finished charge_all charge_cpu_mem add64
placed_on_n1 = refl

abbrev after_binding : Controller
after_binding = (bind_share_pod cluster gpu_pod "n1" "abcde" idle).0

handled : sync_handler thousandths cluster "a" idle ≡ some (after_binding, false)
unfolding sync_handler parse_spec parse_int schedule_share_pod sync_cluster_resources
    sync_node_resources sync_nodes sync_node is_tainted insert lookup contains sync_pod
    fresh_resource sub64 run_filters on_gpus owned_by_share_pod names_gpu is_finished charge_all
    charge_cpu_mem add64
handled = refl

sync_handler-Fate_example : Fate thousandths cluster "a" idle (after_binding, false)
sync_handler-Fate_example =
    sync_handler-Fate thousandths cluster "a" idle (after_binding, false) handled

abbrev big_gpu : Node
big_gpu = record worker { annotations = ("kubeshare/gpu_info", "GPU-a:16160,") ∷ [] }

fresh_resource-gpu_mem_example : (fresh_resource big_gpu).gpu_mem_total ≡ pos 16944988160
unfolding insert gpu_info_text show_int count_char
fresh_resource-gpu_mem_example =
    fresh_resource-gpu_mem ("GPU-a", 16160) [] [] big_gpu (refl, refl) (omega arith) refl
