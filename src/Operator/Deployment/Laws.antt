-- ===== src/Operator/Deployment/Laws.antt =====
-- What a deployment of the operator is, and when it is made anew.
use faas_share.Common.{
  Nowhere, ℕ, String, ℤ, pos, negsuc, ◌≤ℤ◌, ≤ℤ_of_not_lt, <ℤ_of_lt, ltb_ℤ, Bool, false, not, Option,
  none, some, [], ◌∷◌, map, Map, lookup, insert, lookup-insert, lookup-insert_self, value_at,
  is_empty, str_eq, Bool-cases, Option-cases, ◌≡◌, ◌≢◌, ◌∙◌, refl, subst, ◌⊎◌, inl, inr, arith,
}
use faas_share.Operator.Deployment.{
  is_zero, Json, SharePod, Deployment, PodSpec, annotation_function_spec, min_replicas,
  choose_replicas, get_replicas, copy_over, make_labels, make_annotations, deployment_needs_update,
  configure_user_id, confined, new_deployment,
}

is_zero-ne : (n : ℤ) → n ≢ pos 0 → is_zero n ≡ false
is_zero-ne (pos ℕ.zero) ne = absurd (ne refl)
is_zero-ne (pos (ℕ.suc k)) ne = ground arith
is_zero-ne (negsuc k) ne = refl

-- The result is one of two numbers, and at least both.
abbrev Largest : ℤ → ℤ → Option ℤ → Type 0
Largest m n none = Nowhere
Largest m n (some r) = ((r ≡ m) ⊎ (r ≡ n)) × (m ≤ℤ r) × (n ≤ℤ r)

choose_replicas-Largest : (m n : ℤ) → n ≢ pos 0 → Largest m n (choose_replicas (some m) (some n))
unfolding choose_replicas
choose_replicas-Largest m n ne = elim (Bool-cases (ltb_ℤ n m)) [
  | inl less ↦
      let lt = <ℤ_of_lt n m less in
      rw (is_zero-ne n ne, less, choose_replicas) (inl refl, omega arith, omega (arith, lt))
  | inr more ↦
      let le = ≤ℤ_of_not_lt n m more in
      rw (is_zero-ne n ne, more, choose_replicas) (inr refl, omega (arith, le), omega arith)
]

-- What becomes of the current number `n` with the minimum `m`.
abbrev pub Kept : ℤ → ℤ → Option ℤ → Type 0
Kept m n r = ((n ≡ pos 0) × (r ≡ some (pos 0))) ⊎ ((n ≢ pos 0) × Largest m n r)

choose_replicas-Kept : (m n : ℤ) → Kept m n (choose_replicas (some m) (some n))
unfolding choose_replicas
choose_replicas-Kept m (pos ℕ.zero) = inl (refl, refl)
choose_replicas-Kept m (pos (ℕ.suc k)) =
    let ne : pos (ℕ.suc k) ≢ pos 0 = ground arith in
    inr (ne, choose_replicas-Largest m (pos (ℕ.suc k)) ne)
choose_replicas-Kept m (negsuc k) =
    let ne : negsuc k ≢ pos 0 = ground arith in inr (ne, choose_replicas-Largest m (negsuc k) ne)

-- With a minimum and a current number of replicas: a deployment that is scaled to zero stays so;
-- else the result is one of the two numbers and at least both.
pub get_replicas-Largest :
    (labels : Map String) (d : Deployment) (m n : ℤ)
    → min_replicas labels ≡ some m
    → d.replicas ≡ some n
    → Kept m n (get_replicas labels (some d))
unfolding get_replicas
get_replicas-Largest labels d m n hm hn = rw (hm, hn) (choose_replicas-Kept m n)

pub lookup-copy_over :
    (j : String) (kvs m : Map String)
    → lookup j kvs ≡ none
    → lookup j (copy_over kvs m) ≡ lookup j m
unfolding lookup copy_over
lookup-copy_over j [] m h = refl
lookup-copy_over j ((k, v) ∷ kvs) m h =
    let other : str_eq k j ≡ false = ground arith in
    lookup-copy_over j kvs (insert k v m) (ground arith) ∙ (lookup-insert k j v m ∙ rw other refl)

module _ (json : Json) (set_non_root : Bool) (sp : SharePod) (existing : Option Deployment) where
  -- The parts of a deployment that come from the SharePod alone.
  abbrev Described : Option Deployment → Type 0
  Described none = sp ≡ sp
  Described (some d) =
      (d.annotations ≡ make_annotations json sp)
      × (d.template_labels ≡ make_labels sp)
      × (d.match_labels ≡ ("app", sp.name) ∷ ("controller", sp.name) ∷ [])

  new_deployment-Described : Described (new_deployment json set_non_root sp existing)
  unfolding new_deployment
  new_deployment-Described =
      let spec = record sp.spec { containers = map confined sp.spec.containers } in
      elim (Option-cases (configure_user_id set_non_root spec)) [
        | inl e ↦ rw (e, new_deployment) refl
        | inr (x, e) ↦ rw (e, new_deployment) (refl, refl, refl)
      ]

  module _ (d : Deployment) (made : new_deployment json set_non_root sp existing ≡ some d) where
    -- Of a SharePod without labels `app` and `controller` of its own, the selector of the
    -- deployment finds the pods of its template: both labels have the same value on both sides.
    pub new_deployment-selects :
        lookup "app" sp.labels ≡ none
        → lookup "controller" sp.labels ≡ none
        → (lookup "app" d.template_labels ≡ lookup "app" d.match_labels)
          × (lookup "controller" d.template_labels ≡ lookup "controller" d.match_labels)
    unfolding make_labels lookup
    new_deployment-selects no_app no_controller =
        let is : Described (some d) = subst Described made new_deployment-Described in
        let base = ("faas_function", sp.name) ∷ ("app", sp.name) ∷ ("controller", sp.name) ∷ [] in
        rw (is.1, is.2)
          (
            lookup-copy_over "app" sp.labels base no_app,
            lookup-copy_over "controller" sp.labels base no_controller,
          )

    -- Take a spec whose JSON text is not empty and reads back as some spec. Then a deployment that
    -- was made for it is updated for a SharePod, the same or another, exactly if the spec that was
    -- read back and the spec of that SharePod differ; labels and annotations make no difference.
    pub deployment_needs_update-new :
        (text : String) (read : PodSpec) (now : SharePod)
        → json.marshal sp.spec ≡ some text
        → is_empty text ≡ false
        → json.unmarshal text ≡ some read
        → deployment_needs_update json now d ≡ not (json.same read now.spec)
    unfolding deployment_needs_update make_annotations
    deployment_needs_update-new text read now written full back =
        let is : Described (some d) = subst Described made new_deployment-Described in
        let found : lookup annotation_function_spec d.annotations ≡ some text = rw is.0 (
          rw (written, make_annotations)
            (lookup-insert_self annotation_function_spec text
              (copy_over sp.annotations (("prometheus.io.scrape", "false") ∷ [])))) in
        let value : value_at annotation_function_spec d.annotations ≡ text =
          rw (found, value_at) refl in
        ground (arith, value, full, back)
