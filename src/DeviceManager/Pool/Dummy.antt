-- ===== src/DeviceManager/Pool/Dummy.antt =====
-- pkg/devicemanager/gpupool.go: `createDummyPod` and `getAndSetUUIDFromDummyPod`, which call each
-- other. Each `Get` of the dummy pod takes the next of the answers that the cluster gives.
use faas_share.Common.{
  String, Bool, true, false, ◌||◌, Option, none, some, List, [], ◌∷◌, ◌++◌, map, lookup, str_eq,
  trim, if◌then◌else◌,
}
use faas_share.Kube.{Float64, Pod, Lookup, found, not_found, failed}
use faas_share.DeviceManager.State.{
  go_create_dummy, create_pod, delete_pod, add, PodRequest, State, record_call, set_node, set_gpu,
  dummy_name,
}

module _ (fl : Float64) where
  abbrev pub enqueue_all : List (PodRequest fl) → State fl → State fl
  enqueue_all ps s = record s { calls = s.calls ++ map (λ (p : PodRequest fl). add p.key) ps }

  -- The end of `getAndSetUUIDFromDummyPod`, with the UUID that the log shows; the test is whether
  -- an error is returned, and `none` is a nil pointer that is read.
  unfoldable pub set_uuid : String → String → String → State fl → Option (State fl × Bool)
  unfolding set_node set_gpu record_call
  set_uuid name id uuid s = elim (lookup name s.nodes) [
    | none ↦ none
    | some n ↦ elim (lookup uuid n.uuid2port) [
      | none ↦ some (record_call fl (go_create_dummy name id) s, true)
      | some port ↦ elim (lookup id n.gpus) [
        | none ↦ none
        | some g ↦ some (
          enqueue_all g.pod_list (set_node fl name (set_gpu fl id (record g { uuid = uuid }) n) s),
          false,
        )
      ]
    ]
  ]

  -- `getAndSetUUIDFromDummyPod` of a pod in a phase. `log` is what `GetLogs` answers, and `retry`
  -- is the call of `createDummyPod` after a failed pod was deleted.
  unfoldable pub get_and_set_uuid :
      String
      → String
      → String
      → Option String
      → (State fl → Option (State fl × Bool))
      → State fl
      → Option (State fl × Bool)
  unfolding set_uuid record_call
  get_and_set_uuid name id phase log retry s =
      let retried : Option (State fl × Bool) =
        elim (retry (record_call fl (delete_pod (dummy_name name id)) s)) [
          | none ↦ none
          | some (t, error) ↦ some (t, true)
        ] in
      let read : Option (State fl × Bool) = elim log [
        | none ↦ some (s, true)
        | some text ↦ set_uuid name id (trim text) s
      ] in
      if str_eq phase "Failed" then retried else read

  -- `createDummyPod`; without an answer it still waits for one.
  unfoldable pub create_dummy :
      String → String → Option String → List (Lookup Pod) → State fl → Option (State fl × Bool)
  unfolding get_and_set_uuid record_call
  create_dummy name id log [] s = some (s, false)
  create_dummy name id log (failed ∷ rest) s = some (s, true)
  create_dummy name id log (not_found ∷ rest) s = elim (lookup name s.nodes) [
    | none ↦ none
    | some n ↦ elim (lookup id n.gpus) [
      | none ↦ some (s, false)
      | some g ↦ some (record_call fl (create_pod (dummy_name name id) name id) s, false)
    ]
  ]
  create_dummy name id log (found p ∷ rest) s =
      let got : Option (State fl × Bool) =
        elim (get_and_set_uuid name id p.phase log (create_dummy name id log rest) s) [
          | none ↦ none
          | some (t, error) ↦ some (t, false)
        ] in
      if str_eq p.phase "Running" || str_eq p.phase "Failed" then got else some (s, false)
