-- ===== src/Server/Places.antt =====
-- Where the handlers change the cluster.
use faas_share.Common.{
  ℕ, String, Option, none, some, List, All, is_empty, str_eq, str_eq_iff, Bool-cases, Option-cases,
  ◌≡◌, ◌≢◌, ◌⊎◌, refl, inl, inr, arith,
}
use faas_share.Server.{
  Answered-cases, Parsed-cases, Cluster, Codec, Event, header, write, http_error, create_share_pod,
  update_share_pod, delete_share_pod, scale_deployment, Handled, finished, panicked,
  lookup_namespace,
}
use faas_share.Server.Handlers.{
  delete_in, delete_handler, scale_to, replica_handler, scaled, scale_body,
}

-- The namespace that an event changes.
abbrev pub place_of : Event → Option String
place_of (header code) = none
place_of (write text) = none
place_of (http_error text code) = none
place_of (create_share_pod ns sp) = some ns
place_of (update_share_pod ns sp) = some ns
place_of (delete_share_pod ns name) = some ns
place_of (scale_deployment ns d) = some ns

-- Every change is in the namespace, and that is not `kube-system`.
abbrev pub StaysIn : String → Event → Type 0
StaysIn ns e = (place_of e ≡ none) ⊎ ((place_of e ≡ some ns) × (ns ≢ "kube-system"))

abbrev pub events_of : Handled → List Event
events_of (finished events) = events
events_of (panicked events) = events

module _ (cluster : Cluster) (codec : Codec) (default : String) where
  -- The events of a reply stay nowhere.
  scale_to-StaysIn :
      (ns name : String) (n : ℕ)
      → ns ≢ "kube-system"
      → All (StaysIn ns) (scale_to cluster codec default ns name n)
  unfolding scale_to
  scale_to-StaysIn ns name n ne = elim (Answered-cases (cluster.get_deployment ns name)) [
    | inr (inl (t, e)) ↦ rw (e, scale_to) (inl refl, (inl refl, tt))
    | inr (inr (t, e)) ↦ rw (e, scale_to) (inl refl, (inl refl, tt))
    | inl (d, e) ↦ elim (Option-cases (cluster.scale_error ns (scaled d n))) [
      | inl f ↦ rw (e, f, scale_to) (inr (refl, ne), (inl refl, tt))
      | inr (text, f) ↦ rw (e, f, scale_to) (inr (refl, ne), (inl refl, (inl refl, tt)))
    ]
  ]

  scale_body-StaysIn :
      (ns name : String) (body : Option String)
      → ns ≢ "kube-system"
      → All (StaysIn ns) (scale_body cluster codec default ns name body)
  unfolding scale_body
  scale_body-StaysIn ns name none ne = scale_to-StaysIn ns name 0 ne
  scale_body-StaysIn ns name (some text) ne = elim (Parsed-cases (codec.read_scale text)) [
    | inl (n, e) ↦ rw (e, scale_body) (scale_to-StaysIn ns name n ne)
    | inr (t, e) ↦ rw (e, scale_body) (inl refl, (inl refl, tt))
  ]

  replica_handler-StaysIn :
      (query name : String) (body : Option String)
      → All
          (StaysIn (lookup_namespace default query))
          (replica_handler cluster codec default query name body)
  unfolding replica_handler
  replica_handler-StaysIn query name body =
      let ns = lookup_namespace default query in
      elim (Bool-cases (str_eq ns "kube-system")) [
        | inl e ↦ rw (e, replica_handler) (inl refl, tt)
        | inr e ↦
            rw (e, replica_handler)
              (scale_body-StaysIn ns name body
                (λ q. absurd (ground (arith, e, str_eq_iff ns "kube-system", q))))
      ]

  delete_in-StaysIn :
      (ns body : String)
      → ns ≢ "kube-system"
      → All (StaysIn ns) (delete_in cluster codec default ns body)
  unfolding delete_in
  delete_in-StaysIn ns body ne = elim (Parsed-cases (codec.read_delete body)) [
    | inr (t, e) ↦ rw (e, delete_in) (inl refl, (inl refl, tt))
    | inl (name, e) ↦ elim (Bool-cases (is_empty name)) [
      | inl f ↦ rw (e, f, delete_in) (inl refl, (inl refl, tt))
      | inr f ↦ elim (Option-cases (cluster.delete_error ns name)) [
        | inl g ↦ rw (e, f, g, delete_in) (inr (refl, ne), tt)
        | inr (text, g) ↦ rw (e, f, g, delete_in) (inr (refl, ne), (inl refl, (inl refl, tt)))
      ]
    ]
  ]

  lookup_namespace-ne :
      (query : String)
      → default ≢ "kube-system"
      → query ≢ "kube-system"
      → lookup_namespace default query ≢ "kube-system"
  lookup_namespace-ne query ne other = elim (Bool-cases (is_empty query)) [
    | inl e ↦ rw e ne
    | inr e ↦ rw e other
  ]

  delete_handler-StaysIn :
      (query : String) (body : Option String)
      → default ≢ "kube-system"
      → All
          (StaysIn (lookup_namespace default query))
          (events_of (delete_handler cluster codec default query body))
  unfolding delete_handler
  delete_handler-StaysIn query body ne = elim (Bool-cases (str_eq query "kube-system")) [
    | inl e ↦ rw (e, delete_handler) (inl refl, tt)
    | inr e ↦
        let other = λ (q : query ≡ "kube-system").
          absurd (ground (arith, e, str_eq_iff query "kube-system", q)) in
        let ns_ne = lookup_namespace-ne query ne other in
        elim (Option-cases body) [
          | inl f ↦ rw (e, f, delete_handler) tt
          | inr (text, f) ↦
              rw (e, f, delete_handler)
                (delete_in-StaysIn (lookup_namespace default query) text ns_ne)
        ]
  ]

  -- With a default namespace other than `kube-system`, the handlers for replicas and deletion
  -- change the cluster in the namespace of the query alone, or in the default one without a query,
  -- and never in `kube-system`, whatever the request is and however the API answers.
  pub handlers-StaysIn :
      default ≢ "kube-system"
      → (query name : String) (body : Option String)
      → All
          (StaysIn (lookup_namespace default query))
          (replica_handler cluster codec default query name body)
        × All
            (StaysIn (lookup_namespace default query))
            (events_of (delete_handler cluster codec default query body))
  handlers-StaysIn ne query name body =
      (replica_handler-StaysIn query name body, delete_handler-StaysIn query body ne)
