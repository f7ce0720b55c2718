-- ===== src/Operator/Sync.antt =====
-- pkg/controller/controller.go: `syncHandler`, `processNextWorkItem` and `handleObject` of the
-- operator, and `newService`.
pub mod Requeue
pub mod Settled
use faas_share.Common.{
  String, ℤ, pos, Bool, true, false, Option, none, some, List, [], ◌∷◌, ◌++◌, Map, str_eq, is_empty,
  if◌then◌else◌, ◌+++◌, ◌≡◌, refl, arith,
}
use faas_share.Kube.{Lookup, found, not_found, failed, OwnerReference}
use faas_share.Operator.Deployment.{
  Json, SharePod, Deployment, new_deployment, deployment_needs_update, make_annotations,
}

pub record Service : Type 0 where
  pub namespace : String
  pub name : String
  pub annotations : Map String
  pub selector : Map String
  pub controlled_by : Option String

-- `newService`
unfoldable pub new_service : SharePod → Service
new_service sp = record {
  namespace = sp.namespace;
  name = sp.name;
  annotations = ("prometheus.io.scrape", "false") ∷ [];
  selector = ("faas_function", sp.name) ∷ [];
  controlled_by = some sp.uid;
}

-- What `Create` of a service answers.
pub data Creation : Type 0 where
  created already_exists refused : Creation

pub record Api : Type 0 where
  pub split_key : String → Option (String × String)
  pub get_share_pod : String → String → Lookup SharePod
  pub get_deployment : String → String → Lookup Deployment
  pub create_deployment : Deployment → Option Deployment
  pub update_accepted : Deployment → Bool
  pub get_service : String → String → Lookup Service
  pub create_service : Service → Creation

pub data Call : Type 0 where
  create_deployment update_deployment : Deployment → Call
  create_service update_service : Service → Call
  delete_deployment : String → String → Call
  event : String → Call
  add_rate_limited forget done : String → Call

-- The calls of a handler, and whether it returns an error; `none` for a panic.
abbrev pub Result : Type 0
Result = Option (List Call × Bool)

abbrev pub after : List Call → Result → Result
after calls none = none
after calls (some (more, error)) = some (calls ++ more, error)

module _ (json : Json) (set_non_root : Bool) (api : Api) where
  -- From the update of the deployment on.
  unfoldable pub update : SharePod → Deployment → Result
  unfolding new_deployment make_annotations
  update sp d = elim (new_deployment json set_non_root sp (some d)) [
    | none ↦ none
    | some n ↦ elim (api.get_service sp.namespace sp.name) [
      | not_found ↦ some (update_deployment n ∷ [], true)
      | failed ↦ some (update_deployment n ∷ [], true)
      | found service ↦
          let annotated = record service { annotations = make_annotations json sp } in
          let calls = update_deployment n ∷ update_service annotated ∷ [] in
          if api.update_accepted n
          then some (calls ++ event "Synced" ∷ [], false)
          else some (calls, true)
    ]
  ]

  -- From the check of the owner on.
  unfoldable pub converge : SharePod → Deployment → Result
  unfolding update deployment_needs_update
  converge sp d =
      let controlled : Bool = elim d.controlled_by [
        | none ↦ false
        | some uid ↦ str_eq uid sp.uid
      ] in
      let updated = update sp d in
      if controlled
      then (if deployment_needs_update json sp d
          then updated
          else some (event "Synced" ∷ [], false))
      else some (event "ErrResourceExists" ∷ [], true)

  -- The service; then `rest`.
  unfoldable pub with_service : SharePod → Result → Result
  unfolding new_service
  with_service sp rest =
      let creating = after (create_service (new_service sp) ∷ []) in
      elim (api.get_service sp.namespace sp.name) [
        | found service ↦ rest
        | failed ↦ rest
        | not_found ↦ elim (api.create_service (new_service sp)) [
          | created ↦ creating rest
          | already_exists ↦ creating rest
          | refused ↦ creating (some ([], true))
        ]
      ]

  -- `syncHandler` from the deployment on.
  unfoldable pub sync_share_pod : SharePod → Result
  unfolding new_deployment with_service converge
  sync_share_pod sp = elim (api.get_deployment sp.namespace sp.name) [
    | found d ↦ with_service sp (converge sp d)
    | failed ↦ with_service sp (some ([], true))
    | not_found ↦ elim (new_deployment json set_non_root sp none) [
      | none ↦ none
      | some n ↦ elim (api.create_deployment n) [
        | none ↦ some (create_deployment n ∷ [], true)
        | some d ↦ after (create_deployment n ∷ []) (with_service sp (converge sp d))
      ]
    ]
  ]

  -- `syncHandler`
  unfoldable pub sync_handler : String → Result
  unfolding sync_share_pod
  sync_handler key = elim (api.split_key key) [
    | none ↦ some ([], false)
    | some (namespace, name) ↦ elim (api.get_share_pod namespace name) [
      | not_found ↦ some ([], false)
      | failed ↦ some ([], true)
      | found sp ↦
          let synced = sync_share_pod sp in if is_empty sp.name then some ([], false) else synced
    ]
  ]

  -- The item of `processNextWorkItem`; an error leaves without a call but `Done`.
  unfoldable pub process_item : String → Option (List Call)
  unfolding sync_handler
  process_item key = elim (sync_handler key) [
    | none ↦ none
    | some (calls, true) ↦ some (calls ++ done key ∷ [])
    | some (calls, false) ↦ some (calls ++ forget key ∷ done key ∷ [])
  ]

  -- `handleObject`, with the controller of the object.
  unfoldable pub handle_object : String → Option OwnerReference → List Call
  handle_object namespace none = []
  handle_object namespace (some o) =
      let enqueued : List Call = elim (api.get_share_pod namespace o.name) [
        | found sp ↦ add_rate_limited (sp.namespace +++ "/" +++ sp.name) ∷ []
        | not_found ↦ []
        | failed ↦ []
      ] in
      if str_eq o.kind "SharePod" then enqueued else []

-- `handleDeletedSharePod`
unfoldable pub handle_deleted : SharePod → List Call
handle_deleted sp = delete_deployment sp.namespace sp.name ∷ []
