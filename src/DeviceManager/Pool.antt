-- ===== src/DeviceManager/Pool.antt =====
-- pkg/devicemanager/gpupool.go: which pods share a physical GPU, and the ports that they get.
pub mod Orphans
pub mod Removal
pub mod Codes
pub mod Invariant
pub mod Ports
pub mod Leaving
pub mod Freeing
pub mod Dummy
use faas_share.Common.{
  ℕ, String, ℤ, pos, negsuc, ◌+ℤ◌, ◌-ℤ◌, add64, Bool, true, false, Option, none, some, List, [],
  ◌∷◌, ◌++◌, Map, lookup, str_eq, is_empty, if◌then◌else◌,
}
use faas_share.Kube.{Float64}
use faas_share.Bitmap.{find_next_from_current_and_set}
use faas_share.DeviceManager.State.{
  Call, go_create_dummy, delete_pod, PodRequest, GpuInfo, NodeInfo, State, record_call, set_node,
  set_gpu, port_start, dummy_name,
}
use faas_share.DeviceManager.Config.{sync_config}

-- What `getPhysicalGPUuuid` leaves: the port behind its pointer, and its two results.
pub record Reply : Type 0 where
  pub port : ℤ
  pub uuid : String
  pub code : ℕ

abbrev pub reply : ℤ → String → ℕ → Reply
reply port uuid code = record { port = port; uuid = uuid; code = code }

-- `tmp == -1`
unfoldable pub is_minus_one : ℤ → Bool
is_minus_one (pos n) = false
is_minus_one (negsuc ℕ.zero) = true
is_minus_one (negsuc (ℕ.suc n)) = false

-- What a pod asks for when it registers with a GPU.
pub record Claim (fl : Float64) : Type 0 where
  pub key : String
  pub request : fl.F
  pub limit : fl.F
  pub memory : ℤ

module _ (fl : Float64) where
  -- `FindInQueue`
  unfoldable pub find_in_queue : String → List (PodRequest fl) → Option (PodRequest fl)
  find_in_queue key [] = none
  find_in_queue key (p ∷ ps) = if str_eq p.key key then some p else find_in_queue key ps

  abbrev pub request_at : Claim fl → ℤ → PodRequest fl
  request_at c port = record {
    key = c.key;
    request = c.request;
    limit = c.limit;
    memory = c.memory;
    port = port;
  }

  -- `FindNextFromCurrentAndSet() + PodManagerPortStart`
  unfoldable pub take_port : NodeInfo fl → NodeInfo fl × ℤ
  take_port n =
      let found = find_next_from_current_and_set n.bitmap in
      (record n { bitmap = found.0 }, found.1 +ℤ port_start)

  -- The end of `getPhysicalGPUuuid` for a GPU that is known.
  unfoldable pub reply_known : String → GpuInfo fl → ℤ → State fl → State fl × Reply
  unfolding sync_config
  reply_known name g port s =
      if is_empty g.uuid
      then (s, reply port "" 1)
      else ((sync_config fl name g.uuid g.pod_list s).0, reply port g.uuid 0)

  -- A GPU identifier that the node does not know.
  unfoldable pub open_gpu :
      String → String → Claim fl → ℤ → NodeInfo fl → State fl → State fl × Reply
  unfolding take_port is_minus_one set_gpu set_node record_call
  open_gpu name id c port n s =
      let taken = take_port n in
      let g : GpuInfo fl = record {
        uuid = "";
        usage = c.request;
        mem = c.memory;
        pod_list = request_at c taken.1 ∷ [];
      } in
      if is_minus_one taken.1 then (set_node fl name taken.0 s, reply port "" 3) else (
        record_call fl (go_create_dummy name id) (set_node fl name (set_gpu fl id g taken.0) s),
        reply taken.1 "" 1,
      )

  -- A pod that is not on the list of a known GPU.
  unfoldable pub join_gpu :
      String → String → Claim fl → ℤ → NodeInfo fl → GpuInfo fl → State fl → State fl × Reply
  unfolding take_port is_minus_one set_gpu set_node reply_known
  join_gpu name id c port n g s =
      let taken = take_port n in
      let charged = record g { usage = fl.add g.usage c.request; mem = add64 g.mem c.memory } in
      let joined = record charged { pod_list = g.pod_list ++ request_at c taken.1 ∷ [] } in
      if fl.gt (fl.add g.usage c.request) fl.one
      then (s, reply port "" 2)
      else if is_minus_one taken.1
      then (set_node fl name (set_gpu fl id charged taken.0) s, reply port "" 3)
      else reply_known name joined taken.1 (set_node fl name (set_gpu fl id joined taken.0) s)

  -- `getPhysicalGPUuuid`
  unfoldable pub get_physical_gpu : String → String → Claim fl → ℤ → State fl → State fl × Reply
  unfolding find_in_queue open_gpu join_gpu reply_known
  get_physical_gpu name id c port s = elim (lookup name s.nodes) [
    | none ↦ (s, reply port "" 255)
    | some n ↦ elim (lookup id n.gpus) [
      | none ↦ open_gpu name id c port n s
      | some g ↦ elim (find_in_queue c.key g.pod_list) [
        | none ↦ join_gpu name id c port n g s
        | some p ↦ reply_known name g p.port s
      ]
    ]
  ]

  -- `deleteDummyPod`
  unfoldable pub delete_dummy_pod : String → String → String → State fl → State fl
  unfolding record_call sync_config
  delete_dummy_pod name id uuid s =
      (sync_config fl name uuid [] (record_call fl (delete_pod (dummy_name name id)) s)).0

  -- The inner loop of `cleanOrphanDummyPod`: the GPUs that stay, and the state.
  unfoldable pub clean_gpus : String → Map (GpuInfo fl) → State fl → Map (GpuInfo fl) × State fl
  unfolding delete_dummy_pod
  clean_gpus name [] s = ([], s)
  clean_gpus name ((id, g) ∷ gs) s = elim g.pod_list [
    | [] ↦ clean_gpus name gs (delete_dummy_pod name id g.uuid s)
    | p ∷ ps ↦ let rest = clean_gpus name gs s in ((id, g) ∷ rest.0, rest.1)
  ]

  unfoldable pub clean_nodes : Map (NodeInfo fl) → State fl → Map (NodeInfo fl) × State fl
  unfolding clean_gpus
  clean_nodes [] s = ([], s)
  clean_nodes ((name, n) ∷ ns) s =
      let cleaned = clean_gpus name n.gpus s in
      let rest = clean_nodes ns cleaned.1 in
      ((name, record n { gpus = cleaned.0 }) ∷ rest.0, rest.1)

  -- `cleanOrphanDummyPod`
  unfoldable pub clean_orphans : State fl → State fl
  unfolding clean_nodes
  clean_orphans s = let cleaned = clean_nodes s.nodes s in record cleaned.1 { nodes = cleaned.0 }
