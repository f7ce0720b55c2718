-- ===== src/Server/Routes/Confined.antt =====
-- What each request of the server may change.
use faas_share.Common.{
  String, Bool, Option, none, some, List, [], ◌∷◌, ◌++◌, All, not, is_empty, str_eq, ◌&&◌, map,
  if◌then◌else◌, Bool-cases, Option-cases, ◌≡◌, ◌≢◌, ◌⊎◌, refl, inl, inr,
}
use faas_share.Server.{
  Answered-cases, Parsed-cases, Parsed, parsed, malformed, ApplyRequest, Item, Cluster, Codec,
  Event, lookup_namespace,
}
use faas_share.Operator.Deployment.{SharePod}
use faas_share.Server.Handlers.{
  apply_handler, apply_request, apply_found, apply_missing, to_sharepod, list_handler, list_in,
  list_reply, listed, replica_reader, document_reply,
}
use faas_share.Server.Namespaces
use faas_share.Server.Namespaces.{namespaces_lister}
use faas_share.Server.Places.{place_of, StaysIn, events_of, handlers-StaysIn}
use faas_share.Server.Routes.{
  Setup, Request, delete, deploy, read_functions, read_replicas, update_replicas, update, health,
  info, list_namespaces, sharepod_namespace, build_version, info_handler, serve,
}

-- An event of a deployment changes nothing outside the namespace of its request; `kube-system` is
-- not refused there.
abbrev pub DeploysIn : String → Event → Type 0
DeploysIn ns e = (place_of e ≡ none) ⊎ (place_of e ≡ some ns)

-- A request without a body, or with one that cannot be read, changes nothing.
abbrev pub DeploysBy : String → Parsed ApplyRequest → Event → Type 0
DeploysBy default (malformed text) e = place_of e ≡ none
DeploysBy default (parsed req) e = DeploysIn (lookup_namespace default req.namespace) e

abbrev pub Deploys : Codec → String → Option String → Event → Type 0
Deploys codec default none = λ e. place_of e ≡ none
Deploys codec default (some body) = DeploysBy default (codec.read_apply body)

-- What a request may do: a deletion and a change of the replicas stay in the namespace of the
-- query, a deployment in that of its body, and the others change nothing.
abbrev pub May : Codec → String → Request → Event → Type 0
May codec default (delete query body) e = StaysIn (lookup_namespace default query) e
May codec default (update_replicas query name body) e = StaysIn (lookup_namespace default query) e
May codec default (deploy body) e = Deploys codec default body e
May codec default (read_functions query) e = place_of e ≡ none
May codec default (read_replicas query name) e = place_of e ≡ none
May codec default update e = place_of e ≡ none
May codec default health e = place_of e ≡ none
May codec default info e = place_of e ≡ none
May codec default list_namespaces e = place_of e ≡ none

abbrev Quiet : List Event → Type 0
Quiet = All (λ (e : Event). place_of e ≡ none)

module _ (cluster : Cluster) (codec : Codec) (default : String) where
  document_reply-Quiet :
      (text : String) (o : Option String) → Quiet (document_reply cluster codec default text o)
  document_reply-Quiet text none = (refl, (refl, tt))
  document_reply-Quiet text (some t) = (refl, (refl, tt))

  apply_found-DeploysIn :
      (req : ApplyRequest) (ns : String) (got : SharePod)
      → All (DeploysIn ns) (events_of (apply_found cluster codec default req ns got))
  unfolding apply_found
  apply_found-DeploysIn req ns got = elim (Option-cases (to_sharepod req ns)) [
    | inl e ↦ rw (e, apply_found) tt
    | inr (new, e) ↦
        let updated = record got { spec = new.spec; labels = new.labels } in
        elim (Option-cases (cluster.update_error ns updated)) [
          | inl f ↦ rw (e, apply_found, f) (inr refl, (inl refl, tt))
          | inr (t, f) ↦ rw (e, apply_found, f) (inr refl, (inl refl, (inl refl, tt)))
        ]
  ]

  apply_missing-DeploysIn :
      (req : ApplyRequest) (ns : String)
      → All (DeploysIn ns) (events_of (apply_missing cluster codec default req ns))
  unfolding apply_missing
  apply_missing-DeploysIn req ns = elim (Option-cases (to_sharepod req ns)) [
    | inl e ↦ rw (e, apply_missing) tt
    | inr (new, e) ↦ elim (Option-cases (cluster.create_error ns new)) [
      | inl f ↦ rw (e, apply_missing, f) (inr refl, (inl refl, tt))
      | inr (t, f) ↦ rw (e, apply_missing, f) (inr refl, (inl refl, (inl refl, tt)))
    ]
  ]

  apply_request-DeploysIn :
      (req : ApplyRequest)
      → All
          (DeploysIn (lookup_namespace default req.namespace))
          (events_of (apply_request cluster codec default req))
  unfolding apply_request
  apply_request-DeploysIn req =
      let ns = lookup_namespace default req.namespace in
      elim (Answered-cases (cluster.get_share_pod ns req.service)) [
        | inl (got, e) ↦ rw (e, apply_request) (apply_found-DeploysIn req ns got)
        | inr (inl (t, e)) ↦ rw (e, apply_request) (apply_missing-DeploysIn req ns)
        | inr (inr (t, e)) ↦ rw (e, apply_request) (inl refl, (inl refl, tt))
      ]

  apply_handler-Deploys :
      (body : Option String)
      → All (Deploys codec default body) (events_of (apply_handler cluster codec default body))
  unfolding apply_handler
  apply_handler-Deploys none = tt
  apply_handler-Deploys (some body) = elim (Parsed-cases (codec.read_apply body)) [
    | inl (req, e) ↦ rw (e, apply_handler) (apply_request-DeploysIn req)
    | inr (t, e) ↦ rw (e, apply_handler) (refl, (refl, tt))
  ]

  Quiet-append : (xs ys : List Event) → Quiet xs → Quiet ys → Quiet (xs ++ ys)
  Quiet-append [] ys h g = g
  Quiet-append (x ∷ xs) ys h g = (h.0, Quiet-append xs ys h.1 g)

  list_reply-Quiet :
      (ns : String) (items : List Item) (error : Option String)
      → Quiet (list_reply cluster codec default ns (items, error))
  unfolding list_reply
  list_reply-Quiet ns items error =
      let written =
        document_reply-Quiet "Failed to marshal sharepods"
          (codec.write_items (map (listed cluster codec default ns) items)) in
      elim (Option-cases error) [
        | inl e ↦ rw (e, list_reply) written
        | inr (t, e) ↦ rw (e, list_reply) (refl, (refl, written))
      ]

  list_handler-Quiet : (query : String) → Quiet (list_handler cluster codec default query)
  unfolding list_handler list_in
  list_handler-Quiet query =
      let ns = if not (is_empty query) && not (str_eq query "faas-share") then query else default in
      let (items, error) = cluster.list_share_pods ns in
      elim (Bool-cases (str_eq ns "kube-system")) [
        | inl e ↦ rw (e, list_handler) (refl, tt)
        | inr e ↦ rw (e, list_handler) (list_reply-Quiet ns items error)
      ]

  replica_reader-Quiet :
      (query name : String) → Quiet (replica_reader cluster codec default query name)
  unfolding replica_reader
  replica_reader-Quiet query name =
      elim (Answered-cases (cluster.get_share_pod (lookup_namespace default query) name)) [
        | inl (sp, e) ↦ rw (e, replica_reader) (document_reply-Quiet _ _)
        | inr (inl (t, e)) ↦ rw (e, replica_reader) (refl, (refl, tt))
        | inr (inr (t, e)) ↦ rw (e, replica_reader) (refl, (refl, tt))
      ]

  namespaces_lister-Quiet : (b : Bool) → Quiet (namespaces_lister cluster codec default b)
  unfolding namespaces_lister
  namespaces_lister-Quiet b =
      let names =
        if b then Namespaces.list_namespaces default cluster.list_namespaces else default ∷ [] in
      elim (Option-cases (codec.write_names names)) [
        | inl e ↦ rw (e, namespaces_lister) (refl, tt)
        | inr (t, e) ↦ rw (e, namespaces_lister) (refl, (refl, tt))
      ]

module _ (setup : Setup) (cluster : Cluster) (codec : Codec) where
  info_handler-Quiet : Quiet (info_handler setup)
  unfolding info_handler
  info_handler-Quiet =
      elim (Option-cases (setup.write_info setup.git_commit (build_version setup.version))) [
        | inl e ↦ rw (e, info_handler) (refl, (refl, tt))
        | inr (t, e) ↦ rw (e, info_handler) (refl, (refl, tt))
      ]

  -- Let the default namespace of the server not be `kube-system`. Whatever a request is and however
  -- the API answers, a deletion and a change of the number of replicas change the cluster in the
  -- namespace of the query alone, or in the default one without a query, and never in
  -- `kube-system`; a deployment changes it in the namespace of its body alone, or in the default
  -- one, and nowhere if the body cannot be read; and no other request, also no update of a function,
  -- changes anything.
  pub serve-May :
      (r : Request)
      → sharepod_namespace setup ≢ "kube-system"
      → All (May codec (sharepod_namespace setup) r) (events_of (serve setup cluster codec r))
  unfolding serve
  serve-May (delete query body) ne =
      (handlers-StaysIn cluster codec (sharepod_namespace setup) ne query "" body).1
  serve-May (update_replicas query name body) ne =
      (handlers-StaysIn cluster codec (sharepod_namespace setup) ne query name body).0
  serve-May (deploy body) ne = apply_handler-Deploys cluster codec (sharepod_namespace setup) body
  serve-May (read_functions query) ne =
      list_handler-Quiet cluster codec (sharepod_namespace setup) query
  serve-May (read_replicas query name) ne =
      replica_reader-Quiet cluster codec (sharepod_namespace setup) query name
  serve-May update ne = (refl, (refl, tt))
  serve-May health ne = (refl, (refl, tt))
  serve-May info ne = info_handler-Quiet
  serve-May list_namespaces ne =
      namespaces_lister-Quiet cluster codec (sharepod_namespace setup) setup.cluster_role
