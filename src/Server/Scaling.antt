-- ===== src/Server/Scaling.antt =====
-- The number of replicas from a request to the deployment that the operator makes of it, and the
-- fields of a SharePod that a second deployment request changes.
use faas_share.Common.{
  ℕ, zero, suc, ◌^◌, ◌<◌, String, ℤ, pos, ◌≤ℤ◌, to_int32, false, Option, none, some, some_inj, List,
  [], ◌∷◌, Map, str_eq, Option-cases, ◌≡◌, ◌⊎◌, ◌↔◌, refl, ap, inl, inr, arith,
}
use faas_share.Operator.Deployment.{
  SharePod, Deployment, min_replicas, choose_replicas, get_replicas,
}
use faas_share.Server.{
  ok, parsed, ApplyRequest, Cluster, Codec, Event, header, write, http_error, create_share_pod,
  update_share_pod, delete_share_pod, scale_deployment, lookup_namespace,
}
use faas_share.Server.Handlers.{
  to_sharepod, apply_found, apply_request, scale_to, scale_body, replica_handler, scaled,
}

-- The deployment that is sent to the API first.
abbrev pub sent_by : List Event → Option Deployment
sent_by [] = none
sent_by (header code ∷ events) = sent_by events
sent_by (write text ∷ events) = sent_by events
sent_by (http_error text code ∷ events) = sent_by events
sent_by (create_share_pod ns sp ∷ events) = sent_by events
sent_by (update_share_pod ns sp ∷ events) = sent_by events
sent_by (delete_share_pod ns name ∷ events) = sent_by events
sent_by (scale_deployment ns d ∷ events) = some d

to_int32-small : (n : ℕ) → n < 2 ^ 31 → to_int32 n ≡ pos n
unfolding to_int32
to_int32-small n h = ground arith

to_int32-pos : (n : ℕ) → to_int32 n ≡ pos n → n < 2 ^ 31
unfolding to_int32
to_int32-pos n h = ground arith

-- Zero, or not below the minimum.
abbrev pub Floor : Option ℤ → ℕ → Type 0
Floor none n = Unit
Floor (some m) n = (n ≡ 0) ⊎ (m ≤ℤ pos n)

choose_replicas-Floor :
    (m : Option ℤ) (n : ℕ) → Floor m n → choose_replicas m (some (pos n)) ≡ some (pos n)
unfolding choose_replicas
choose_replicas-Floor none n h = refl
choose_replicas-Floor (some m) zero h = refl
choose_replicas-Floor (some m) (suc n) (inl e) = ground arith
choose_replicas-Floor (some m) (suc n) (inr le) = ground (arith, le)

module _ (cluster : Cluster) (codec : Codec) (default query name text : String) (n : ℕ)
    (d : Deployment) where
  -- A request for n replicas of a deployment that exists, outside `kube-system`: the API is sent
  -- the deployment with n replicas exactly if n is below 2^31.
  pub replica_handler-bounds :
      str_eq (lookup_namespace default query) "kube-system" ≡ false
      → codec.read_scale text ≡ parsed n
      → cluster.get_deployment (lookup_namespace default query) name ≡ ok d
      → (sent : Deployment) × (sent_by
            (replica_handler cluster codec default query name (some text))
          ≡ some sent)
        × ((sent.replicas ≡ some (pos n)) ↔ (n < 2 ^ 31))
  unfolding replica_handler scale_body scale_to
  replica_handler-bounds outside read here = (
    scaled d n,
    rw (outside, replica_handler, read, scale_body, here, scale_to) refl,
    (λ e. to_int32-pos n (some_inj (to_int32 n) (pos n) e), λ h. ap some (to_int32-small n h)),
  )

  -- If n is below 2^31, and 0 or not below the minimum in the labels of a SharePod, the operator
  -- keeps n for that SharePod when it makes the deployment that was sent anew.
  pub replica_handler-kept :
      (labels : Map String)
      → str_eq (lookup_namespace default query) "kube-system" ≡ false
      → codec.read_scale text ≡ parsed n
      → cluster.get_deployment (lookup_namespace default query) name ≡ ok d
      → n < 2 ^ 31
      → Floor (min_replicas labels) n
      → (sent : Deployment) × (sent_by
            (replica_handler cluster codec default query name (some text))
          ≡ some sent)
        × (get_replicas labels (some sent) ≡ some (pos n))
  unfolding get_replicas
  replica_handler-kept labels outside read here small floor =
      let (sent, first, bounds) = replica_handler-bounds outside read here in
      (sent, first, rw (bounds.1 small) (choose_replicas-Floor (min_replicas labels) n floor))

module _ (cluster : Cluster) (codec : Codec) (default : String) where
  -- For a SharePod that exists, the annotations in a deployment request have no effect: whatever
  -- they are, the handler does the same.
  pub apply_request-annotations :
      (req : ApplyRequest) (annotations : Map String) (got : SharePod)
      → cluster.get_share_pod (lookup_namespace default req.namespace) req.service ≡ ok got
      → apply_request cluster codec default (record req { annotations = annotations })
        ≡ apply_request cluster codec default req
  unfolding apply_request apply_found to_sharepod
  apply_request-annotations req annotations got here = elim (Option-cases req.labels) [
    | inl e ↦ rw (here, e, apply_request, apply_found) refl
    | inr (labels, e) ↦ rw (here, e, apply_request, apply_found) refl
  ]
