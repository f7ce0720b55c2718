-- ===== src/Server/Status.antt =====
-- Whether the status of a reply tells what happened to the cluster.
use faas_share.Common.{
  ℕ, ◌+◌, String, Option, none, some, List, [], ◌∷◌, ◌++◌, is_empty, str_eq, ◌+++◌, map, Bool-cases,
  Option-cases, ◌≡◌, ◌⊎◌, ◌∙◌, refl, sym, ap, subst, inl, inr,
}
use text.Mathlib.TextLemmas.{append-nil}
use faas_share.Operator.Deployment.{SharePod}
use faas_share.Server.{
  Answered-cases, Parsed-cases, ApplyRequest, Item, Cluster, Codec, Event, header, write,
  http_error, create_share_pod, update_share_pod, delete_share_pod, scale_deployment, Handled,
  finished, panicked, status_of, lookup_namespace,
}
use faas_share.Server.Handlers.{
  to_sharepod, apply_found, apply_missing, apply_request, apply_handler, delete_in, delete_handler,
  scale_to, scale_body, replica_handler, scaled, listed, list_in, list_reply, error_reply,
}

abbrev one_if_none : Option String → ℕ
one_if_none none = 1
one_if_none (some text) = 0

module _ (cluster : Cluster) where
  -- The number of changes that the API has accepted.
  abbrev pub changes : List Event → ℕ
  changes [] = 0
  changes (header code ∷ events) = changes events
  changes (write text ∷ events) = changes events
  changes (http_error text code ∷ events) = changes events
  changes (create_share_pod ns sp ∷ events) =
      one_if_none (cluster.create_error ns sp) + changes events
  changes (update_share_pod ns sp ∷ events) =
      one_if_none (cluster.update_error ns sp) + changes events
  changes (delete_share_pod ns name ∷ events) =
      one_if_none (cluster.delete_error ns name) + changes events
  changes (scale_deployment ns d ∷ events) = one_if_none (cluster.scale_error ns d) + changes events

  -- The status is the one of success, and there was one change; or it is that of an error, and
  -- there was none.
  abbrev pub Told : ℕ → List Event → Type 0
  Told code events =
      ((status_of events ≡ code) × (changes events ≡ 1))
      ⊎ (((status_of events ≡ 400) ⊎ ((status_of events ≡ 401) ⊎ (status_of events ≡ 500)))
          × (changes events ≡ 0))

  -- A handler that panics has changed nothing.
  abbrev pub ToldBy : ℕ → Handled → Type 0
  ToldBy code (finished events) = Told code events
  ToldBy code (panicked events) = changes events ≡ 0

  module _ (codec : Codec) (default : String) where
    apply_found-ToldBy :
        (req : ApplyRequest) (ns : String) (got : SharePod)
        → ToldBy 202 (apply_found cluster codec default req ns got)
    unfolding apply_found
    apply_found-ToldBy req ns got = elim (Option-cases (to_sharepod req ns)) [
      | inl e ↦ rw (e, apply_found) refl
      | inr (new, e) ↦
          let updated = record got { spec = new.spec; labels = new.labels } in
          elim (Option-cases (cluster.update_error ns updated)) [
            | inl f ↦ rw (e, apply_found, f) (inl (refl, refl))
            | inr (text, f) ↦ rw (e, apply_found, f) (inr (inr (inr refl), refl))
          ]
    ]

    apply_missing-ToldBy :
        (req : ApplyRequest) (ns : String) → ToldBy 202 (apply_missing cluster codec default req ns)
    unfolding apply_missing
    apply_missing-ToldBy req ns = elim (Option-cases (to_sharepod req ns)) [
      | inl e ↦ rw (e, apply_missing) refl
      | inr (new, e) ↦ elim (Option-cases (cluster.create_error ns new)) [
        | inl f ↦ rw (e, apply_missing, f) (inl (refl, refl))
        | inr (text, f) ↦ rw (e, apply_missing, f) (inr (inr (inr refl), refl))
      ]
    ]

    apply_request-ToldBy :
        (req : ApplyRequest) → ToldBy 202 (apply_request cluster codec default req)
    unfolding apply_request
    apply_request-ToldBy req =
        let ns = lookup_namespace default req.namespace in
        elim (Answered-cases (cluster.get_share_pod ns req.service)) [
          | inl (got, e) ↦ rw (e, apply_request) (apply_found-ToldBy req ns got)
          | inr (inl (t, e)) ↦ rw (e, apply_request) (apply_missing-ToldBy req ns)
          | inr (inr (t, e)) ↦ rw (e, apply_request) (inr (inr (inr refl), refl))
        ]

    apply_handler-ToldBy :
        (body : Option String) → ToldBy 202 (apply_handler cluster codec default body)
    unfolding apply_handler
    apply_handler-ToldBy none = refl
    apply_handler-ToldBy (some text) = elim (Parsed-cases (codec.read_apply text)) [
      | inl (req, e) ↦ rw (e, apply_handler) (apply_request-ToldBy req)
      | inr (t, e) ↦ rw (e, apply_handler) (inr (inl refl, refl))
    ]

    scale_to-Told : (ns name : String) (n : ℕ) → Told 202 (scale_to cluster codec default ns name n)
    unfolding scale_to
    scale_to-Told ns name n = elim (Answered-cases (cluster.get_deployment ns name)) [
      | inr (inl (t, e)) ↦ rw (e, scale_to) (inr (inr (inr refl), refl))
      | inr (inr (t, e)) ↦ rw (e, scale_to) (inr (inr (inr refl), refl))
      | inl (d, e) ↦ elim (Option-cases (cluster.scale_error ns (scaled d n))) [
        | inl f ↦ rw (e, scale_to, f) (inl (refl, refl))
        | inr (text, f) ↦ rw (e, scale_to, f) (inr (inr (inr refl), refl))
      ]
    ]

    scale_body-Told :
        (ns name : String) (body : Option String)
        → Told 202 (scale_body cluster codec default ns name body)
    unfolding scale_body
    scale_body-Told ns name none = scale_to-Told ns name 0
    scale_body-Told ns name (some text) = elim (Parsed-cases (codec.read_scale text)) [
      | inl (n, e) ↦ rw (e, scale_body) (scale_to-Told ns name n)
      | inr (t, e) ↦ rw (e, scale_body) (inr (inl refl, refl))
    ]

    replica_handler-Told :
        (query name : String) (body : Option String)
        → Told 202 (replica_handler cluster codec default query name body)
    unfolding replica_handler
    replica_handler-Told query name body =
        let ns = lookup_namespace default query in
        elim (Bool-cases (str_eq ns "kube-system")) [
          | inl e ↦ rw (e, replica_handler) (inr (inr (inl refl), refl))
          | inr e ↦ rw (e, replica_handler) (scale_body-Told ns name body)
        ]

    delete_in-Told : (ns body : String) → Told 200 (delete_in cluster codec default ns body)
    unfolding delete_in
    delete_in-Told ns body = elim (Parsed-cases (codec.read_delete body)) [
      | inr (t, e) ↦ rw (e, delete_in) (inr (inl refl, refl))
      | inl (name, e) ↦ elim (Bool-cases (is_empty name)) [
        | inl f ↦ rw (e, f, delete_in) (inr (inl refl, refl))
        | inr f ↦ elim (Option-cases (cluster.delete_error ns name)) [
          | inl g ↦ rw (e, f, delete_in, g) (inl (refl, refl))
          | inr (text, g) ↦ rw (e, f, delete_in, g) (inr (inr (inr refl), refl))
        ]
      ]
    ]

    delete_handler-ToldBy :
        (query : String) (body : Option String)
        → ToldBy 200 (delete_handler cluster codec default query body)
    unfolding delete_handler
    delete_handler-ToldBy query body = elim (Bool-cases (str_eq query "kube-system")) [
      | inl e ↦ rw (e, delete_handler) (inr (inr (inl refl), refl))
      | inr e ↦ elim (Option-cases body) [
        | inl f ↦ rw (e, f, delete_handler) refl
        | inr (text, f) ↦
            rw (e, f, delete_handler) (delete_in-Told (lookup_namespace default query) text)
      ]
    ]

    -- However the API answers, the handlers for deployment, replicas and deletion tell the truth:
    -- they answer 202, 202 and 200 with exactly one change that the API has accepted, or 400, 401
    -- or 500 with none; a handler that panics has changed nothing.
    pub handlers-Told :
        (query name : String) (body : Option String)
        → ToldBy 202 (apply_handler cluster codec default body)
          × Told 202 (replica_handler cluster codec default query name body)
          × ToldBy 200 (delete_handler cluster codec default query body)
    handlers-Told query name body = (
      apply_handler-ToldBy body,
      replica_handler-Told query name body,
      delete_handler-ToldBy query body,
    )

    -- The text of a reply.
    abbrev pub text_of : List Event → String
    text_of [] = ""
    text_of (header code ∷ events) = text_of events
    text_of (write text ∷ events) = text +++ text_of events
    text_of (http_error text code ∷ events) = text +++ "\n" +++ text_of events
    text_of (create_share_pod ns sp ∷ events) = text_of events
    text_of (update_share_pod ns sp ∷ events) = text_of events
    text_of (delete_share_pod ns name ∷ events) = text_of events
    text_of (scale_deployment ns d ∷ events) = text_of events

    -- If the list of the SharePods fails and the items that came with the error can be written, the
    -- list handler answers 400 with the text of the error and the items after it.
    pub list_in-error :
        (ns text json : String) (items : List Item)
        → cluster.list_share_pods ns ≡ (items, some text)
        → codec.write_items (map (listed cluster codec default ns) items) ≡ some json
        → (status_of (list_in cluster codec default ns) ≡ 400)
          × (text_of (list_in cluster codec default ns) ≡ text +++ json)
    unfolding list_in list_reply
    list_in-error ns text json items answer written =
        let Answers =
          λ (events : List Event). (status_of events ≡ 400) × (text_of events ≡ text +++ json) in
        let replied : list_reply cluster codec default ns (items, some text)
            ≡ error_reply 400 text ++ error_reply 200 json =
          rw (written, list_reply) refl in
        subst Answers (sym replied ∙ ap (list_reply cluster codec default ns) (sym answer))
          (refl, rw append-nil refl)
