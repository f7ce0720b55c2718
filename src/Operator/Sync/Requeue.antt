-- ===== src/Operator/Sync/Requeue.antt =====
-- Whether `processNextWorkItem` of the operator puts a key back.
use faas_share.Common.{
  arith, String, Bool, true, false, Option, none, some, List, [], ◌∷◌, ◌++◌, any, str_eq, is_empty,
  Bool-cases, Option-cases, ◌≡◌, ◌⊎◌, refl, subst, inl, inr,
}
use faas_share.Kube.{Lookup-cases}
use faas_share.Operator.Deployment.{
  Json, SharePod, Deployment, new_deployment, deployment_needs_update,
}
use faas_share.Operator.Sync.{
  Api, Call, Creation, created, already_exists, refused, Result, after, update, converge,
  with_service, sync_share_pod, sync_handler, process_item, new_service, create_deployment,
  update_deployment, create_service, update_service, delete_deployment, event, add_rate_limited,
  forget, done,
}

abbrev pub requeues : Call → Bool
requeues (create_deployment d) = false
requeues (update_deployment d) = false
requeues (create_service s) = false
requeues (update_service s) = false
requeues (delete_deployment namespace name) = false
requeues (event text) = false
requeues (add_rate_limited key) = true
requeues (forget key) = false
requeues (done key) = false

abbrev Silent : Result → Type 0
Silent none = true ≡ true
Silent (some (calls, error)) = any requeues calls ≡ false

any-append :
    (xs ys : List Call)
    → any requeues xs ≡ false
    → any requeues ys ≡ false
    → any requeues (xs ++ ys) ≡ false
any-append [] ys h g = g
any-append (x ∷ xs) ys h g = elim (Bool-cases (requeues x)) [
  | inl e ↦ absurd (ground arith)
  | inr e ↦ rw e (any-append xs ys (ground arith) g)
]

after-Silent :
    (calls : List Call) (r : Result)
    → any requeues calls ≡ false
    → Silent r
    → Silent (after calls r)
after-Silent calls none h s = refl
after-Silent calls (some (more, error)) h s = any-append calls more h s

Creation-cases : (c : Creation) → (c ≡ created) ⊎ ((c ≡ already_exists) ⊎ (c ≡ refused))
Creation-cases created = inl refl
Creation-cases already_exists = inr (inl refl)
Creation-cases refused = inr (inr refl)

module _ (json : Json) (b : Bool) (api : Api) where
  update-Silent : (sp : SharePod) (d : Deployment) → Silent (update json b api sp d)
  unfolding update
  update-Silent sp d = elim (Option-cases (new_deployment json b sp (some d))) [
    | inl e ↦ rw (e, update) refl
    | inr (n, e) ↦ elim (Lookup-cases (api.get_service sp.namespace sp.name)) [
      | inl (s, f) ↦ elim (Bool-cases (api.update_accepted n)) [
        | inl ok ↦ rw (e, f, ok, update) refl
        | inr bad ↦ rw (e, f, bad, update) refl
      ]
      | inr (inl f) ↦ rw (e, f, update) refl
      | inr (inr f) ↦ rw (e, f, update) refl
    ]
  ]

  converge-Silent : (sp : SharePod) (d : Deployment) → Silent (converge json b api sp d)
  unfolding converge
  converge-Silent sp d = elim (Option-cases d.controlled_by) [
    | inl e ↦ rw (e, converge) refl
    | inr (uid, e) ↦ elim (Bool-cases (str_eq uid sp.uid)) [
      | inr other ↦ rw (e, other, converge) refl
      | inl own ↦ elim (Bool-cases (deployment_needs_update json sp d)) [
        | inl needs ↦ rw (e, own, needs, converge) (update-Silent sp d)
        | inr fine ↦ rw (e, own, fine, converge) refl
      ]
    ]
  ]

  with_service-Silent :
      (sp : SharePod) (r : Result) → Silent r → Silent (with_service json b api sp r)
  unfolding with_service
  with_service-Silent sp r h = elim (Lookup-cases (api.get_service sp.namespace sp.name)) [
    | inl (s, f) ↦ rw (f, with_service) h
    | inr (inr f) ↦ rw (f, with_service) h
    | inr (inl f) ↦ elim (Creation-cases (api.create_service (new_service sp))) [
      | inl c ↦
          rw (f, c, with_service) (after-Silent (create_service (new_service sp) ∷ []) r refl h)
      | inr (inl c) ↦
          rw (f, c, with_service) (after-Silent (create_service (new_service sp) ∷ []) r refl h)
      | inr (inr c) ↦ rw (f, c, with_service) refl
    ]
  ]

  sync_share_pod-Silent : (sp : SharePod) → Silent (sync_share_pod json b api sp)
  unfolding sync_share_pod
  sync_share_pod-Silent sp = elim (Lookup-cases (api.get_deployment sp.namespace sp.name)) [
    | inl (d, e) ↦
        rw (e, sync_share_pod)
          (with_service-Silent sp (converge json b api sp d) (converge-Silent sp d))
    | inr (inr e) ↦ rw (e, sync_share_pod) (with_service-Silent sp (some ([], true)) refl)
    | inr (inl e) ↦ elim (Option-cases (new_deployment json b sp none)) [
      | inl f ↦ rw (e, f, sync_share_pod) refl
      | inr (n, f) ↦ elim (Option-cases (api.create_deployment n)) [
        | inl g ↦ rw (e, f, g, sync_share_pod) refl
        | inr (d, g) ↦
            rw (e, f, g, sync_share_pod)
              (after-Silent (create_deployment n ∷ [])
                (with_service json b api sp (converge json b api sp d)) refl
                (with_service-Silent sp (converge json b api sp d) (converge-Silent sp d)))
      ]
    ]
  ]

  sync_handler-Silent : (key : String) → Silent (sync_handler json b api key)
  unfolding sync_handler
  sync_handler-Silent key = elim (Option-cases (api.split_key key)) [
    | inl e ↦ rw (e, sync_handler) refl
    | inr ((namespace, name), e) ↦ elim (Lookup-cases (api.get_share_pod namespace name)) [
      | inr (inl f) ↦ rw (e, f, sync_handler) refl
      | inr (inr f) ↦ rw (e, f, sync_handler) refl
      | inl (sp, f) ↦ elim (Bool-cases (is_empty sp.name)) [
        | inl g ↦ rw (e, f, g, sync_handler) refl
        | inr g ↦ rw (e, f, g, sync_handler) (sync_share_pod-Silent sp)
      ]
    ]
  ]

  abbrev NoRequeue : Option (List Call) → Type 0
  NoRequeue none = true ≡ true
  NoRequeue (some calls) = any requeues calls ≡ false

  process_item-NoRequeue : (key : String) → NoRequeue (process_item json b api key)
  unfolding process_item
  process_item-NoRequeue key = elim (Option-cases (sync_handler json b api key)) [
    | inl e ↦ rw (e, process_item) refl
    | inr ((calls, true), e) ↦
        rw (e, process_item)
          (any-append calls (done key ∷ []) (subst Silent e (sync_handler-Silent key)) refl)
    | inr ((calls, false), e) ↦
        rw (e, process_item)
          (any-append calls (forget key ∷ done key ∷ []) (subst Silent e (sync_handler-Silent key))
            refl)
  ]

  -- `processNextWorkItem` of the operator never puts the key back into the queue, not even when
  -- `syncHandler` returns an error.
  pub process_item-requeues :
      (key : String) (calls : List Call)
      → process_item json b api key ≡ some calls
      → any requeues calls ≡ false
  process_item-requeues key calls h = subst NoRequeue h (process_item-NoRequeue key)
