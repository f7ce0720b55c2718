-- ===== src/DeviceManager/State.antt =====
-- The state of pkg/devicemanager: `nodesInfo` (gpupool.go), `nodeStatus` (config.go), and the calls
-- that leave the process, in order. A pointer to an entry of a map is only used to change that
-- entry, so an entry is a value that is written back. A handler holds `nodesInfoMux` over each
-- part that reads or writes `nodesInfo`, so the functions here are those parts, one after another.
use faas_share.Common.{
  String, ℤ, pos, Option, none, some, List, [], ◌∷◌, ◌++◌, Map, lookup, insert, ◌+++◌,
}
use faas_share.Kube.{Float64, Volume, Container, dummy_pod_name}
use faas_share.Bitmap.{RrBitmap, new_rr, rr_mask}

-- `PodManagerPortStart`
abbrev pub port_start : ℤ
port_start = pos 50050

pub data ClientStatus : Type 0 where
  ready not_ready : ClientStatus

-- `NodeStatus`; a connection is named by a text, and the time by the seconds.
pub record NodeStatus : Type 0 where
  pub conn : String
  pub last_heartbeat : ℤ
  pub client_status : ClientStatus

pub data Call : Type 0 where
  -- `Conn.Write`
  write : String → String → Call
  -- `Conn.Close`
  close : String → Call
  -- `go c.createDummyPod(nodeName, GPUID)`
  go_create_dummy : String → String → Call
  -- `Pods("kube-system").Create` and `Delete`
  create_pod : String → String → String → Call
  delete_pod : String → Call
  -- `go c.getAndSetUUIDFromDummyPod(nodeName, GPUID, podName, pod)`
  go_get_uuid : String → String → String → Call
  -- `workqueue.Add`, `AddRateLimited`, `Forget` and `Done`
  add add_rate_limited forget done : String → Call
  -- `Nodes().Update` with the annotations
  annotate_node : String → Map String → Call
  -- `Pods(namespace).Patch` of containers and volumes
  patch : String → String → List Container → List Volume → Call
  event : String → Call

module _ (fl : Float64) where
  pub record PodRequest : Type 0 where
    pub key : String
    pub request : fl.F
    pub limit : fl.F
    pub memory : ℤ
    pub port : ℤ

  pub record GpuInfo : Type 0 where
    pub uuid : String
    pub usage : fl.F
    pub mem : ℤ
    pub pod_list : List PodRequest

  pub record NodeInfo : Type 0 where
    pub gpus : Map GpuInfo
    pub uuid2port : Map String
    pub bitmap : RrBitmap
    pub pod_ip : String

  pub record State : Type 0 where
    pub nodes : Map NodeInfo
    pub statuses : Map NodeStatus
    pub calls : List Call

  unfoldable pub record_call : Call → State → State
  record_call call s = record s { calls = s.calls ++ call ∷ [] }

  unfoldable pub set_node : String → NodeInfo → State → State
  set_node name n s = record s { nodes = insert name n s.nodes }

  unfoldable pub set_gpu : String → GpuInfo → NodeInfo → NodeInfo
  set_gpu id g n = record n { gpus = insert id g n.gpus }

  -- The GPU of a node, if both are known.
  abbrev pub gpu_at : String → String → State → Option (NodeInfo × GpuInfo)
  gpu_at name id s = elim (lookup name s.nodes) [
    | none ↦ none
    | some n ↦ elim (lookup id n.gpus) [ none ↦ none | some g ↦ some (n, g) ]
  ]

-- `bitmap.NewRRBitmap(512)`, with port 50050 itself taken.
unfoldable pub fresh_ports : RrBitmap
unfolding new_rr rr_mask
fresh_ports = elim (rr_mask (new_rr 512) (pos 0)) [ none ↦ new_rr 512 | some r ↦ r ]

-- `fmt.Sprintf("%s-%s-%s", KubeShareDummyPodName, nodeName, GPUID)`
abbrev pub dummy_name : String → String → String
dummy_name node id = dummy_pod_name +++ "-" +++ node +++ "-" +++ id
