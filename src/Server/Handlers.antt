-- ===== src/Server/Handlers.antt =====
-- apply.go, delete.go, list.go, replicas.go and health.go of pkg/server. A request without a body
-- is `none`.
use faas_share.Common.{
  ℕ, String, ◌&&◌, not, Option, none, some, List, [], ◌∷◌, ◌++◌, map, is_empty, str_eq, ◌+++◌,
  to_int32, if◌then◌else◌,
}
use faas_share.Operator.Deployment.{SharePod, Deployment}
use faas_share.Server.{
  ok, not_found, failed, parsed, malformed, ApplyRequest, SharepodStatus, ItemStatus, Item, Cluster,
  Codec, Event, header, write, http_error, create_share_pod, update_share_pod, delete_share_pod,
  scale_deployment, Handled, finished, panicked, lookup_namespace, to_uint64,
}

-- `makeHealthReader`
abbrev pub health_reader : List Event
health_reader = header 200 ∷ write "OK" ∷ []

-- The 500 or 400 of a handler with the text of an error.
abbrev pub error_reply : ℕ → String → List Event
error_reply code text = header code ∷ write text ∷ []

-- `toSharepod`: `none` for a panic, without labels.
unfoldable pub to_sharepod : ApplyRequest → String → Option SharePod
to_sharepod req namespace = elim req.labels [
  | none ↦ none
  | some labels ↦ some (record {
    namespace = namespace;
    name = req.service;
    uid = "";
    labels = labels;
    annotations = req.annotations;
    spec = record { containers = req.containers; volumes = []; node_name = "" };
  })
]

-- `toSharepodStatus`
abbrev pub to_sharepod_status : SharePod → SharepodStatus
to_sharepod_status sp = record {
  name = sp.name;
  labels = sp.labels;
  annotations = sp.annotations;
  containers = sp.spec.containers;
  replicas = 0;
  available_replicas = 0;
}

-- The deployment with another number of replicas.
abbrev pub scaled : Deployment → ℕ → Deployment
scaled d replicas = record d { replicas = some (to_int32 replicas) }

module _ (cluster : Cluster) (codec : Codec) (default : String) where
  -- The last step of a handler that answers 202.
  abbrev accept_unless : String → Option String → List Event
  accept_unless what none = header 202 ∷ []
  accept_unless what (some text) = error_reply 500 (what +++ text)

  -- The update or the creation.
  unfoldable pub apply_found : ApplyRequest → String → SharePod → Handled
  unfolding to_sharepod
  apply_found req ns got = elim (to_sharepod req ns) [
    | none ↦ panicked []
    | some new ↦
        let updated = record got { spec = new.spec; labels = new.labels } in
        finished (
          update_share_pod ns updated
          ∷ accept_unless "Error updating sharepod : " (cluster.update_error ns updated))
  ]

  unfoldable pub apply_missing : ApplyRequest → String → Handled
  unfolding to_sharepod
  apply_missing req ns = elim (to_sharepod req ns) [
    | none ↦ panicked []
    | some new ↦ finished (
        create_share_pod ns new
        ∷ accept_unless "Error creating sharepod: " (cluster.create_error ns new))
  ]

  -- `makeApplyHandler` with a request that was read.
  unfoldable pub apply_request : ApplyRequest → Handled
  unfolding apply_found apply_missing
  apply_request req =
      let ns = lookup_namespace default req.namespace in
      elim (cluster.get_share_pod ns req.service) [
        | ok got ↦ apply_found req ns got
        | not_found text ↦ apply_missing req ns
        | failed text ↦ finished (error_reply 500 text)
      ]

  -- `makeApplyHandler`
  unfoldable pub apply_handler : Option String → Handled
  unfolding apply_request
  apply_handler none = panicked []
  apply_handler (some body) = elim (codec.read_apply body) [
    | malformed text ↦ finished (error_reply 400 text)
    | parsed req ↦ apply_request req
  ]

  -- `makeDeleteHandler` from the body on. No error leaves the status to net/http.
  unfoldable pub delete_in : String → String → List Event
  delete_in ns body = elim (codec.read_delete body) [
    | malformed text ↦ error_reply 400 text
    | parsed name ↦
        let failure : List Event = elim (cluster.delete_error ns name) [
          | none ↦ []
          | some text ↦ error_reply 500 text
        ] in
        if is_empty name
        then error_reply 400 "No sharepod provided"
        else delete_share_pod ns name ∷ failure
  ]

  -- `makeDeleteHandler`: the namespace of the query is compared, not the one that is used.
  unfoldable pub delete_handler : String → Option String → Handled
  unfolding delete_in
  delete_handler query body =
      let ns = lookup_namespace default query in
      let rest : Handled = elim body [
        | none ↦ panicked []
        | some text ↦ finished (delete_in ns text)
      ] in
      if str_eq query "kube-system"
      then finished (http_error "unable to list within the kube-system namespace" 401 ∷ [])
      else rest

  -- `makeReplicaHandler` from the number of replicas on.
  unfoldable pub scale_to : String → String → ℕ → List Event
  scale_to ns name replicas = elim (cluster.get_deployment ns name) [
    | not_found text ↦ error_reply 500 text
    | failed text ↦ error_reply 500 text
    | ok d ↦
        scale_deployment ns (scaled d replicas)
        ∷ accept_unless "" (cluster.scale_error ns (scaled d replicas))
  ]

  -- `makeReplicaHandler` from the body on: without a body the replicas are 0.
  unfoldable pub scale_body : String → String → Option String → List Event
  unfolding scale_to
  scale_body ns name none = scale_to ns name 0
  scale_body ns name (some text) = elim (codec.read_scale text) [
    | malformed error ↦ error_reply 400 error
    | parsed replicas ↦ scale_to ns name replicas
  ]

  -- `makeReplicaHandler`
  unfoldable pub replica_handler : String → String → Option String → List Event
  unfolding scale_body
  replica_handler query name body =
      let ns = lookup_namespace default query in
      let rest = scale_body ns name body in
      if str_eq ns "kube-system"
      then http_error "unable to list within the kube-system namespace" 401 ∷ []
      else rest

  -- `getReplicas`; an error is logged, and leaves the zeros.
  unfoldable pub read_replicas : String → String → ℕ × ℕ
  read_replicas name ns = elim (cluster.status_replicas ns name) [
    | none ↦ (0, 0)
    | some (desired, available) ↦ (to_uint64 desired, to_uint64 available)
  ]

  -- The reply with a document, or 500.
  abbrev pub document_reply : String → Option String → List Event
  document_reply failure none = error_reply 500 failure
  document_reply failure (some text) = error_reply 200 text

  -- `makeReplicaReader`
  unfoldable pub replica_reader : String → String → List Event
  unfolding read_replicas
  replica_reader query name =
      let ns = lookup_namespace default query in
      elim (cluster.get_share_pod ns name) [
        | not_found text ↦ error_reply 404 text
        | failed text ↦ error_reply 404 text
        | ok sp ↦
            let (desired, available) = read_replicas name ns in
            document_reply "Failed to marshal sharepod status" (
              codec.write_status (record (to_sharepod_status sp) {
                replicas = desired;
                available_replicas = available;
              }))
      ]

  -- One entry of the list.
  unfoldable pub listed : String → Item → ItemStatus
  unfolding read_replicas
  listed ns item =
      let (desired, available) = read_replicas item.name ns in
      record item.status { replicas = desired; available_replicas = available }

  abbrev listing_error : Option String → List Event
  listing_error none = []
  listing_error (some text) = error_reply 400 text

  -- `makeListHandler` from the answer to the list on: after an error the handler goes on.
  unfoldable pub list_reply : String → List Item × Option String → List Event
  unfolding listed
  list_reply ns (items, error) =
      listing_error error
      ++ document_reply "Failed to marshal sharepods" (codec.write_items (map (listed ns) items))

  unfoldable pub list_in : String → List Event
  unfolding list_reply
  list_in ns = list_reply ns (cluster.list_share_pods ns)

  -- `makeListHandler`: the namespace `faas-share` of a query stands for the default namespace.
  unfoldable pub list_handler : String → List Event
  unfolding list_in
  list_handler query =
      let ns = if not (is_empty query) && not (str_eq query "faas-share") then query else default in
      if str_eq ns "kube-system"
      then http_error "unable to list within the kube-system" 401 ∷ []
      else list_in ns
