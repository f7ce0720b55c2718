-- ===== src/DeviceManager/Init.antt =====
-- pkg/devicemanager/gpupool.go: `initNodesInfo`, which rebuilds the pool from the cluster.
use faas_share.Common.{
  String, ℤ, pos, ◌-ℤ◌, add64, ◌&&◌, Option, none, some, List, [], ◌∷◌, ◌++◌, Map, lookup, any,
  str_eq, is_empty, ◌+++◌, if◌then◌else◌,
}
use faas_share.Kube.{Float64, Pod, EnvVar, Container, gpuid_key}
use faas_share.Kube.GpuSpec.{GpuSpec, parse_spec}
use faas_share.Bitmap.{rr_mask}
use faas_share.DeviceManager.State.{
  add, go_create_dummy, GpuInfo, NodeInfo, State, record_call, set_node, set_gpu, fresh_ports,
  port_start,
}

pub record SharePod : Type 0 where
  pub namespace : String
  pub name : String
  pub annotations : Map String
  pub node_name : String
  pub bound_device_id : String
  pub pod_manager_port : ℤ

-- What the listers answer for a SharePod: no deployment; an error of the selector or of the list;
-- or the pods.
pub data Answer : Type 0 where
  no_deployment : Answer
  list_error : Answer
  its_pods : List Pod → Answer

-- How `initNodesInfo` goes on after a SharePod: further, back with an error, or into a panic.
pub data Step {ℓ} (S : Type ℓ) : Type ℓ where
  further : S → Step S
  back : S → Step S
  crash : Step S

-- `processDummyPodLaterItem`
pub record LaterItem : Type 0 where
  pub node_name : String
  pub gpuid : String

-- The environment variable that the code picks: NVIDIA_VISIBLE_DEVICES, or the first where that
-- is missing; `none` where there is no variable at all, which panics.
unfoldable pub device_env : List EnvVar → Option EnvVar
device_env [] = none
device_env (e ∷ es) = some (named (e ∷ es) e)
  where
    named : List EnvVar → EnvVar → EnvVar
    named [] d = d
    named (e ∷ es) d = if str_eq e.name "NVIDIA_VISIBLE_DEVICES" then e else named es d

unfoldable pub device_value : List Container → Option String
unfolding device_env
device_value [] = none
device_value (c ∷ cs) = elim (device_env c.env) [ none ↦ none | some e ↦ some e.value ]

-- `notFound`, and the `append`.
unfoldable pub add_later : String → String → String → List LaterItem → List LaterItem
add_later pod_node node id later =
    if any (λ (i : LaterItem). str_eq i.node_name pod_node && str_eq i.gpuid id) later
    then later
    else later ++ record { node_name = node; gpuid = id } ∷ []

module _ (fl : Float64) where
  abbrev pub empty_gpu : GpuInfo fl
  empty_gpu = record { uuid = ""; usage = fl.zero; mem = pos 0; pod_list = [] }

  -- A dummy pod.
  unfoldable pub add_dummy : Pod → State fl → State fl
  unfolding set_node set_gpu fresh_ports
  add_dummy p s = elim (lookup gpuid_key p.labels) [
    | none ↦ s
    | some id ↦ elim (lookup p.node_name s.nodes) [
      | none ↦
          let n : NodeInfo fl = record {
            gpus = [];
            uuid2port = [];
            bitmap = fresh_ports;
            pod_ip = "";
          } in
          set_node fl p.node_name (set_gpu fl id empty_gpu n) s
      | some n ↦ elim (lookup id n.gpus) [
        | some g ↦ s
        | none ↦ set_node fl p.node_name (set_gpu fl id empty_gpu n) s
      ]
    ]
  ]

  unfoldable pub add_dummies : List Pod → State fl → State fl
  unfolding add_dummy
  add_dummies [] s = s
  add_dummies (p ∷ ps) s = add_dummies ps (add_dummy p s)

  -- The GPU with the request of a pod added.
  unfoldable pub charge : SharePod → GpuSpec fl → GpuInfo fl → GpuInfo fl
  charge sp spec g = record g {
    usage = fl.add g.usage spec.request;
    mem = add64 g.mem spec.mem;
    pod_list =
        g.pod_list
        ++ record {
          key = sp.namespace +++ "/" +++ sp.name;
          request = spec.request;
          limit = spec.limit;
          memory = spec.mem;
          port = sp.pod_manager_port;
        }
          ∷ [];
  }

  -- From the device of the pod on: the UUID is taken over, or the key is put into the queue, or a
  -- dummy pod is to be made.
  unfoldable pub bind_device :
      SharePod
      → Pod
      → String
      → String
      → NodeInfo fl
      → GpuInfo fl
      → List LaterItem
      → State fl
      → List LaterItem × State fl
  unfolding add_later set_node set_gpu record_call
  bind_device sp p id device n g later s =
      let key = sp.namespace +++ "/" +++ sp.name in
      let put = λ (g' : GpuInfo fl). set_node fl sp.node_name (set_gpu fl id g' n) s in
      if is_empty device
      then (if is_empty g.uuid
          then (add_later p.node_name sp.node_name id later, put g)
          else (later, record_call fl (add key) (put g)))
      else (later, put (if is_empty g.uuid then record g { uuid = sp.bound_device_id } else g))

  -- One pod of a SharePod.
  unfoldable pub add_pod :
      SharePod → Pod → List LaterItem → State fl → Step (List LaterItem × State fl)
  unfolding charge bind_device device_value
  add_pod sp p later s =
      let kept = further (later, s) in
      elim (parse_spec fl p.annotations) [
        | none ↦ kept
        | some spec ↦
            let placed : Step (List LaterItem × State fl) = elim (lookup gpuid_key sp.annotations) [
              | none ↦ kept
              | some id ↦ elim (lookup sp.node_name s.nodes) [
                | none ↦ kept
                | some n ↦ elim (lookup id n.gpus) [
                  | none ↦ kept
                  | some g ↦ elim (rr_mask n.bitmap (sp.pod_manager_port -ℤ port_start)) [
                    | none ↦ crash
                    | some taken ↦ elim (device_value p.containers) [
                      | none ↦ crash
                      | some device ↦ further (
                          bind_device sp p id device (record n { bitmap = taken })
                            (charge sp spec g) later s)
                    ]
                  ]
                ]
              ]
            ] in
            if is_empty p.node_name then kept else placed
      ]

  unfoldable pub add_pods :
      SharePod → List Pod → List LaterItem → State fl → Step (List LaterItem × State fl)
  unfolding add_pod
  add_pods sp [] later s = further (later, s)
  add_pods sp (p ∷ ps) later s = elim (add_pod sp p later s) [
    | further (l, t) ↦ add_pods sp ps l t
    | back r ↦ back r
    | crash ↦ crash
  ]

  -- The loop over the SharePods.
  unfoldable pub add_share_pods :
      (SharePod → Answer)
      → List SharePod
      → List LaterItem
      → State fl
      → Step (List LaterItem × State fl)
  unfolding add_pods
  add_share_pods ask [] later s = further (later, s)
  add_share_pods ask (sp ∷ sps) later s = elim (ask sp) [
    | no_deployment ↦ add_share_pods ask sps later s
    | list_error ↦ back (later, s)
    | its_pods ps ↦ elim (add_pods sp ps later s) [
      | further (l, t) ↦ add_share_pods ask sps l t
      | back r ↦ back r
      | crash ↦ crash
    ]
  ]

  unfoldable pub go_all : List LaterItem → State fl → State fl
  unfolding record_call
  go_all [] s = s
  go_all (i ∷ is) s = go_all is (record_call fl (go_create_dummy i.node_name i.gpuid) s)

  -- `initNodesInfo` with what the two lists of its start answer; `back` is a return of an error.
  unfoldable pub init_nodes_info :
      Option (List Pod) → Option (List SharePod) → (SharePod → Answer) → State fl → Step (State fl)
  unfolding add_dummies add_share_pods go_all
  init_nodes_info none sps ask s = back s
  init_nodes_info (some ps) none ask s = back s
  init_nodes_info (some ps) (some sps) ask s = elim (add_share_pods ask sps [] (add_dummies ps s)) [
    | further (later, t) ↦ further (go_all later t)
    | back (later, t) ↦ back t
    | crash ↦ crash
  ]
