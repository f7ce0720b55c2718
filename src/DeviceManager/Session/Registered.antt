-- ===== src/DeviceManager/Session/Registered.antt =====
-- What a registration leaves.
use faas_share.Common.{
  String, pos, Option, none, some, List, [], ◌∷◌, ◌++◌, In, Map, lookup, insert, lookup-insert_self,
  split, Option-cases, ◌≡◌, refl, ◌∙◌, inl, inr,
}
use faas_share.Kube.{Float64, gpu_info_key}
use faas_share.DeviceManager.State.{
  Call, annotate_node, ClientStatus, ready, not_ready, NodeStatus, GpuInfo, NodeInfo, State,
  record_call, set_node, fresh_ports,
}
use faas_share.DeviceManager.Config.{
  gpu_info_text, read_devices, register_node, register_status, register_client, sync_config,
  sync_gpus, update_node_gpu_info,
}

pub In-before : (c d : Call) (cs : List Call) → In c cs → In c (cs ++ d ∷ [])
In-before c d [] h = elim h [ ]
In-before c d (x ∷ xs) (inl e) = inl e
In-before c d (x ∷ xs) (inr h) = inr (In-before c d xs h)

In-end : (c : Call) (cs : List Call) → In c (cs ++ c ∷ [])
In-end c [] = inl refl
In-end c (x ∷ xs) = inr (In-end c xs)

module _ (fl : Float64) where
  -- The entry of a node: one that was known keeps its GPUs and its ports, a new one has none.
  abbrev pub registered : Option (NodeInfo fl) → Map String → String → NodeInfo fl
  registered none ports ip = record {
    gpus = [];
    uuid2port = ports;
    pod_ip = ip;
    bitmap = fresh_ports;
  }
  registered (some n) ports ip = record n { uuid2port = ports; pod_ip = ip }

  register_node-lookup :
      (node : String) (ports : Map String) (ip : String) (s : State fl)
      → lookup node (register_node fl node ports ip s).nodes
        ≡ some (registered (lookup node s.nodes) ports ip)
  unfolding register_node set_node
  register_node-lookup node ports ip s = elim (Option-cases (lookup node s.nodes)) [
    | inl new ↦ rw (new, register_node) (lookup-insert_self node (registered none ports ip) s.nodes)
    | inr (n, known) ↦
        rw (known, register_node) (lookup-insert_self node (registered (some n) ports ip) s.nodes)
  ]

  -- Only the calls differ, and none is taken back.
  abbrev pub Further : State fl → State fl → Type 0
  Further s t =
      (t.nodes ≡ s.nodes) × (t.statuses ≡ s.statuses) × ((c : Call) → In c s.calls → In c t.calls)

  sync_config-Further :
      (node uuid : String) (g : GpuInfo fl) (s : State fl)
      → Further s (sync_config fl node uuid g.pod_list s).0
  unfolding sync_config record_call
  sync_config-Further node uuid g s = elim (Option-cases (lookup node s.statuses)) [
    | inl unknown ↦ rw (unknown, sync_config) (refl, refl, λ c h. h)
    | inr (st, known) ↦ by_status st known st.client_status refl
  ]
    where
      by_status :
          (st : NodeStatus)
          → lookup node s.statuses ≡ some st
          → (cs : ClientStatus) → st.client_status ≡ cs
          → Further s (sync_config fl node uuid g.pod_list s).0
      by_status st known ready is =
          rw (known, is, sync_config) (refl, refl, λ c h. In-before c _ s.calls h)
      by_status st known not_ready is = rw (known, is, sync_config) (refl, refl, λ c h. h)

  pub sync_gpus-Further :
      (node : String) (gs : Map (GpuInfo fl)) (s : State fl) → Further s (sync_gpus fl node gs s)
  unfolding sync_gpus
  sync_gpus-Further node [] s = (refl, refl, λ c h. h)
  sync_gpus-Further node ((id, g) ∷ gs) s =
      let t = (sync_config fl node g.uuid g.pod_list s).0 in
      let (n1, s1, c1) = sync_config-Further node g.uuid g s in
      let (n2, s2, c2) = sync_gpus-Further node gs t in (n2 ∙ n1, s2 ∙ s1, λ c h. c2 c (c1 c h))

  -- The node is known with these ports, its status is fresh, and its annotation has been written.
  pub record Registered (node conn ip : String) (mems ports : Map String) (annotations : Map String)
      (s t : State fl) : Type 0 where
    pub known : lookup node t.nodes ≡ some (registered (lookup node s.nodes) ports ip)
    pub status :
        lookup node t.statuses
        ≡ some (record { conn = conn; last_heartbeat = pos 0; client_status = ready })
    pub annotated :
        In (annotate_node node (insert gpu_info_key (gpu_info_text mems) annotations)) t.calls

  pub register_client-Registered :
      (node conn ip ids : String) (mems ports annotations : Map String) (s : State fl)
      → read_devices (split b',' ids) (pos 50051) [] [] ≡ some (mems, ports)
      → (t : State fl) × (register_client fl node conn ip ids annotations s ≡ some t)
        × Registered node conn ip mems ports annotations s t
  unfolding register_client register_status update_node_gpu_info record_call
  register_client-Registered node conn ip ids mems ports annotations s read =
      let r = register_node fl node ports ip s in
      let t = update_node_gpu_info fl node mems annotations (register_status fl node conn r) in
      let n = registered (lookup node s.nodes) ports ip in
      let here : lookup node t.nodes ≡ some n = register_node-lookup node ports ip s in
      let (nodes, statuses, calls) = sync_gpus-Further node n.gpus t in
      (
        sync_gpus fl node n.gpus t,
        rw (read, register_client, here) refl,
        record {
          known = rw nodes here;
          status = rw statuses (
              lookup-insert_self node
                (record { conn = conn; last_heartbeat = pos 0; client_status = ready }) r.statuses);
          annotated = calls _ (In-end _ (register_status fl node conn r).calls);
        },
      )
