-- ===== src/DeviceManager/Config.antt =====
-- pkg/devicemanager/config.go: the message that a node gets, the registration of a node, and its
-- heartbeats. Reading a line, the client of the pod that registers and `Conn.Write` are library
-- calls; their results are arguments, and `write` records an attempt to write.
pub mod Laws
use faas_share.Common.{
  String, ℤ, pos, Bool, true, false, Option, none, some, List, [], ◌∷◌, Map, lookup, insert, str_eq,
  is_empty, ◌+++◌, show_int, split, first_part, get_elem?, ltb_ℤ, ◌+ℤ◌, ◌-ℤ◌, if◌then◌else◌,
}
use faas_share.Kube.{Float64, gpu_info_key}
use faas_share.DeviceManager.State.{
  ready, not_ready, NodeStatus, write, annotate_node, PodRequest, GpuInfo, State, record_call,
  set_node, fresh_ports,
}

module _ (fl : Float64) where
  -- The part of the message that lists keys, requests, limits and memory.
  unfoldable pub config_part : List (PodRequest fl) → String
  config_part [] = ""
  config_part (p ∷ ps) =
      (p.key
        +++ " "
        +++ fl.print p.request
        +++ " "
        +++ fl.print p.limit
        +++ " "
        +++ show_int p.memory)
      +++ ","
      +++ config_part ps

  -- The part that lists keys and ports.
  unfoldable pub port_part : List (PodRequest fl) → String
  port_part [] = ""
  port_part (p ∷ ps) = (p.key +++ " " +++ show_int p.port) +++ "," +++ port_part ps

  -- The text that `syncConfig` writes, without the newline at its end; a nil list is empty.
  unfoldable pub config_message : String → List (PodRequest fl) → String
  unfolding config_part port_part
  config_message uuid ps = uuid +++ ":" +++ config_part ps +++ ":" +++ port_part ps

  -- `syncConfig`: the test is whether it returns an error before it writes; after a write it
  -- returns what `Conn.Write` does, and no caller looks at it.
  unfoldable pub sync_config : String → String → List (PodRequest fl) → State fl → State fl × Bool
  unfolding config_message record_call
  sync_config node uuid ps s = elim (lookup node s.statuses) [
    | none ↦ (s, true)
    | some client ↦ elim client.client_status [
      | not_ready ↦ (s, true)
      | ready ↦ (record_call fl (write client.conn (config_message uuid ps +++ "\n")) s, false)
    ]
  ]

  -- `syncConfig` for every GPU of a node.
  unfoldable pub sync_gpus : String → Map (GpuInfo fl) → State fl → State fl
  unfolding sync_config
  sync_gpus node [] s = s
  sync_gpus node ((id, g) ∷ gs) s = sync_gpus node gs (sync_config node g.uuid g.pod_list s).0

-- The loop of `clientHandler` over the devices: the memory and the port of each; `none` where an
-- entry has no colon, which panics.
unfoldable pub read_devices :
    List String → ℤ → Map String → Map String → Option (Map String × Map String)
read_devices [] port mems ports = some (mems, ports)
read_devices (d ∷ ds) port mems ports =
    let skip = read_devices ds port mems ports in
    let id = first_part (split b':' d) in
    let read : Option (Map String × Map String) = elim (get_elem? (split b':' d) 1) [
      | none ↦ none
      | some mem ↦
          read_devices ds (port +ℤ pos 1) (insert id mem mems) (insert id (show_int port) ports)
    ] in
    if is_empty d then skip else read

-- The annotation that `UpdateNodeGPUInfo` writes.
unfoldable pub gpu_info_text : Map String → String
gpu_info_text [] = ""
gpu_info_text ((id, mem) ∷ m) = id +++ ":" +++ mem +++ "," +++ gpu_info_text m

-- `UpdateNodeGPUInfo`, with the annotations that `Get` of the node answers.
unfoldable pub update_node_gpu_info :
    (fl : Float64) → String → Map String → Map String → State fl → State fl
unfolding gpu_info_text record_call
update_node_gpu_info fl node mems annotations s =
    record_call fl (annotate_node node (insert gpu_info_key (gpu_info_text mems) annotations)) s

module _ (fl : Float64) where
  -- The entry of `nodesInfo` after a registration: a known node keeps its GPUs and its ports.
  unfoldable pub register_node : String → Map String → String → State fl → State fl
  unfolding set_node fresh_ports
  register_node node ports ip s = elim (lookup node s.nodes) [
    | none ↦
        set_node fl node
          (record { gpus = []; uuid2port = ports; pod_ip = ip; bitmap = fresh_ports }) s
    | some n ↦ set_node fl node (record n { uuid2port = ports; pod_ip = ip }) s
  ]

  -- The entry of `nodeStatus` after it.
  unfoldable pub register_status : String → String → State fl → State fl
  register_status node conn s = record s {
    statuses =
        insert node (record { conn = conn; last_heartbeat = pos 0; client_status = ready })
          s.statuses;
  }

  -- `clientHandler` up to its loop, from the list of devices on: the three parts under a mutex,
  -- with the annotation between them.
  unfoldable pub register_client :
      String → String → String → String → Map String → State fl → Option (State fl)
  unfolding read_devices register_node register_status update_node_gpu_info sync_gpus
  register_client node conn ip devices annotations s =
      elim (read_devices (split b',' devices) (pos 50051) [] []) [
        | none ↦ none
        | some (mems, ports) ↦
            let t =
              update_node_gpu_info fl node mems annotations
                (register_status node conn (register_node node ports ip s)) in
            elim (lookup node t.nodes) [ none ↦ none | some n ↦ some (sync_gpus fl node n.gpus t) ]
      ]

  -- One line of the loop of `clientHandler`, at a time; the test is whether the loop goes on.
  -- The line is `none` where it could not be read. The entry is there since the registration.
  unfoldable pub heartbeat : String → ℤ → Option String → State fl → Option (State fl × Bool)
  heartbeat node now line s =
      let good : Bool = elim line [ none ↦ false | some text ↦ str_eq text "heartbeat!\n" ] in
      elim (lookup node s.statuses) [
        | none ↦ none
        | some st ↦
            let seen = record st { last_heartbeat = now; client_status = ready } in
            let lost = record st { client_status = not_ready } in
            some
              (record s { statuses = insert node (if good then seen else lost) s.statuses }, good)
      ]

  -- The loop of `clientHandler` over the lines that arrive.
  unfoldable pub heartbeats : String → List (ℤ × Option String) → State fl → Option (State fl)
  unfolding heartbeat
  heartbeats node [] s = some s
  heartbeats node ((now, line) ∷ rest) s = elim (heartbeat node now line s) [
    | none ↦ none
    | some (t, good) ↦ let more = heartbeats node rest t in if good then more else some t
  ]

-- One status in a round of `periodicallyCheckHeartbeats`, where times are seconds.
unfoldable pub check_status : ℤ → NodeStatus → NodeStatus
unfolding ◌-ℤ◌
check_status now st =
    if ltb_ℤ (pos 60) (now -ℤ st.last_heartbeat)
    then record st { client_status = not_ready }
    else st

unfoldable pub check_heartbeats : ℤ → Map NodeStatus → Map NodeStatus
unfolding check_status
check_heartbeats now [] = []
check_heartbeats now ((name, st) ∷ m) = (name, check_status now st) ∷ check_heartbeats now m
