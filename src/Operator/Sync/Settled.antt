-- ===== src/Operator/Sync/Settled.antt =====
-- What the operator does for a SharePod that has its deployment.
use faas_share.Common.{
  String, Bool, true, false, Option, none, some, [], ◌∷◌, is_empty, str_eq_refl, Option-cases, ◌≡◌,
  ◌∙◌, refl, subst, inl, inr, map,
}
use faas_share.Kube.{found, not_found}
use faas_share.Operator.Deployment.{
  Json, SharePod, Deployment, new_deployment, configure_user_id, confined, deployment_needs_update,
}
use faas_share.Operator.Deployment.Laws.{deployment_needs_update-new}
use faas_share.Operator.Sync.{
  Api, Service, event, create_deployment, create_service, created, converge, with_service,
  sync_share_pod, new_service,
}

module _ (json : Json) (b : Bool) (sp : SharePod) (existing : Option Deployment) where
  abbrev Controlled : Option Deployment → Type 0
  Controlled none = sp ≡ sp
  Controlled (some d) = d.controlled_by ≡ some sp.uid

  new_deployment-Controlled : Controlled (new_deployment json b sp existing)
  unfolding new_deployment
  new_deployment-Controlled =
      let spec = record sp.spec { containers = map confined sp.spec.containers } in
      elim (Option-cases (configure_user_id b spec)) [
        | inl e ↦ rw (e, new_deployment) refl
        | inr (x, e) ↦ rw (e, new_deployment) refl
      ]

  module _ (d : Deployment) (made : new_deployment json b sp existing ≡ some d) (text : String)
      (written : json.marshal sp.spec ≡ some text) (full : is_empty text ≡ false)
      (back : json.unmarshal text ≡ some sp.spec)
      (reflexive : json.same sp.spec sp.spec ≡ true) where
    -- Nothing is to be done for the deployment as it was made.
    converge-made : (api : Api) → converge json b api sp d ≡ some (event "Synced" ∷ [], false)
    unfolding converge
    converge-made api =
        let owner : d.controlled_by ≡ some sp.uid =
          subst Controlled made new_deployment-Controlled in
        let needs : deployment_needs_update json sp d ≡ false =
          deployment_needs_update-new json b sp existing d made text sp.spec sp written full back
          ∙ rw reflexive refl in
        rw (owner, needs, converge) (rw (str_eq_refl sp.uid) refl)

module _ (json : Json) (b : Bool) (sp : SharePod) (d : Deployment) (s : Service) where
  -- Take a SharePod whose spec is written as a text and read back unchanged, an API that has neither
  -- its deployment nor its service and takes what it is sent, and later one that has both. The first
  -- `syncHandler` creates the deployment and the service and updates nothing; the second makes no
  -- call but its event.
  pub sync_share_pod-settled :
      (text : String) (api later : Api)
      → new_deployment json b sp none ≡ some d
      → json.marshal sp.spec ≡ some text
      → is_empty text ≡ false
      → json.unmarshal text ≡ some sp.spec
      → json.same sp.spec sp.spec ≡ true
      → api.get_deployment sp.namespace sp.name ≡ not_found
      → api.create_deployment d ≡ some d
      → api.get_service sp.namespace sp.name ≡ not_found
      → api.create_service (new_service sp) ≡ created
      → later.get_deployment sp.namespace sp.name ≡ found d
      → later.get_service sp.namespace sp.name ≡ found s
      → (sync_share_pod json b api sp
          ≡ some
              (create_deployment d ∷ create_service (new_service sp) ∷ event "Synced" ∷ [], false))
        × (sync_share_pod json b later sp ≡ some (event "Synced" ∷ [], false))
  unfolding sync_share_pod with_service
  sync_share_pod-settled text api later made written full back reflexive lacks takes unserved
        creates has served =
      let settled = converge-made json b sp none d made text written full back reflexive in
      (
        rw (lacks, sync_share_pod, made, takes, unserved, with_service, creates, settled api) refl,
        rw (has, sync_share_pod, served, with_service) (settled later),
      )
