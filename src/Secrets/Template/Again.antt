-- ===== src/Secrets/Template/Again.antt =====
-- `ConfigureSecrets` on a template that it has configured before, and without a requested secret.
use faas_share.Common.{
  String, Bool, true, false, not, Option, none, some, List, [], ◌∷◌, ◌++◌, append-nil, append_assoc,
  map, Map, lookup, keep, str_eq, str_eq_refl, Bool-cases, ◌≡◌, ◌∙◌, refl, sym, ap, inl, inr,
  if◌then◌else◌,
}
use faas_share.Kube.{SecretProjection, Volume, VolumeMount}
use faas_share.Operator.Deployment.{PodSpec, SpecContainer, remove_volume, remove_volume_mount}
use faas_share.Operator.Deployment.Twice.{keep-added}
use faas_share.Secrets.{KubeSecret}
use faas_share.Secrets.Template.{
  Template, Gathered, configured, missing_secret, volume_name, is_pull_secret, projection_of,
  gather_secret, gather_secrets, is_none_left, secrets_volume, secrets_mount, mount_secrets,
  place_secrets, finish_secrets, start_of, configure_secrets,
}
use faas_share.Secrets.Template.RoundTrip.{Present}

abbrev pub is_pulled : Map KubeSecret → String → Bool
is_pulled existing name = elim (lookup name existing) [ none ↦ false | some k ↦ is_pull_secret k ]

-- The projections of the other secrets.
abbrev pub projected_of : Map KubeSecret → List String → List (Option SecretProjection)
projected_of existing [] = []
projected_of existing (n ∷ ns) = elim (lookup n existing) [
  | none ↦ projected_of existing ns
  | some k ↦
      if is_pull_secret k
      then projected_of existing ns
      else some (projection_of n k) ∷ projected_of existing ns
]

-- The loop from its middle, over secrets that exist.
abbrev rest_of : Map KubeSecret → List String → Gathered → Gathered
rest_of existing names g = record {
  pull_secrets = g.pull_secrets ++ keep (is_pulled existing) names;
  projections = g.projections ++ projected_of existing names;
}

gather_secrets-rest :
    (existing : Map KubeSecret) (names more : List String) (g : Gathered)
    → Present existing names
    → gather_secrets existing (names ++ more) g
      ≡ gather_secrets existing more (rest_of existing names g)
unfolding gather_secrets gather_secret
gather_secrets-rest existing [] more g present =
    ap (gather_secrets existing more)
      (rw (append-nil g.pull_secrets, append-nil g.projections) refl)
gather_secrets-rest existing (n ∷ ns) more g present =
    let (k, e) = present.0 in
    elim (Bool-cases (is_pull_secret k)) [
      | inl pull ↦
          rw (e, gather_secrets)
            (gather_secrets-rest existing ns more (gather_secret n k g) present.1
              ∙ rw (e, pull, keep, projected_of, gather_secret) (rw append_assoc refl))
      | inr other ↦
          rw (e, gather_secrets)
            (gather_secrets-rest existing ns more (gather_secret n k g) present.1
              ∙ rw (e, other, keep, projected_of, gather_secret) (rw append_assoc refl))
    ]

module _ {ℓ} {A : Type ℓ} (p : A → Bool) where
  keep_unless :
      (b : Bool) (xs : List A) (y : A)
      → p y ≡ false
      → keep p (if b then keep p xs else keep p xs ++ y ∷ []) ≡ keep p xs
  keep_unless true xs y e = keep-added p false xs y e
  keep_unless false xs y e = keep-added p true xs y e

not_same : (name : String) → not (str_eq name name) ≡ false
not_same name = rw (str_eq_refl name) refl

mount_secrets_twice :
    (service : String) (a b : Bool) (cs : List SpecContainer)
    → map (mount_secrets service b) (map (mount_secrets service a) cs)
      ≡ map (mount_secrets service b) cs
unfolding mount_secrets remove_volume_mount
mount_secrets_twice service a b [] = refl
mount_secrets_twice service a b (c ∷ cs) =
    let p = λ (m : VolumeMount). not (str_eq m.name (volume_name service)) in
    rw (keep_unless p a c.volume_mounts (secrets_mount service) (not_same (volume_name service)))
      (ap (λ ds. mount_secrets service b c ∷ ds) (mount_secrets_twice service a b cs))

place_secrets_twice :
    (service : String) (ps qs : List (Option SecretProjection)) (pod : PodSpec)
    → place_secrets service qs (place_secrets service ps pod) ≡ place_secrets service qs pod
unfolding place_secrets remove_volume
place_secrets_twice service ps qs pod =
    let p = λ (v : Volume). not (str_eq v.name (volume_name service)) in
    rw
      (
        mount_secrets_twice service (is_none_left ps) (is_none_left qs) pod.containers,
        keep_unless p (is_none_left ps) pod.volumes (secrets_volume service ps)
            (not_same (volume_name service)),
      )
      refl

-- The template for which every requested secret exists.
abbrev after_secrets : Map KubeSecret → String → List String → Template → Template
after_secrets existing service names t = record {
  image_pull_secrets = t.image_pull_secrets ++ keep (is_pulled existing) names;
  pod = place_secrets service (projected_of existing names) t.pod;
}

module _ (existing : Map KubeSecret) (service : String) (t : Template) where
  configure_secrets-found :
      (names : List String)
      → Present existing names
      → configure_secrets existing service names t
        ≡ configured (after_secrets existing service names t)
  unfolding configure_secrets finish_secrets gather_secrets
  configure_secrets-found names present =
      let gather = λ (l : List String). gather_secrets existing l (start_of t) in
      ap (finish_secrets service t) (
        sym (ap gather (append-nil names))
        ∙ gather_secrets-rest existing names [] (start_of t) present)

  -- If the requested secret after some secrets that exist is missing, `ConfigureSecrets` answers
  -- its name, leaves volumes and containers as they are, but has appended the names of the pull
  -- secrets before it.
  pub configure_secrets-missing :
      (before : List String) (name : String) (after : List String)
      → Present existing before
      → lookup name existing ≡ none
      → configure_secrets existing service (before ++ name ∷ after) t
        ≡ missing_secret name (record t {
          image_pull_secrets = t.image_pull_secrets ++ keep (is_pulled existing) before;
        })
  unfolding configure_secrets finish_secrets gather_secrets
  configure_secrets-missing before name after present e =
      let stops : gather_secrets existing (name ∷ after) (rest_of existing before (start_of t))
          ≡ (rest_of existing before (start_of t), some name) =
        rw (e, gather_secrets) refl in
      ap (finish_secrets service t)
        (gather_secrets-rest existing before (name ∷ after) (start_of t) present ∙ stops)

module _ (existing : Map KubeSecret) (service : String) (t : Template) where
  -- For two lists of secrets that exist: the second call on the result of the first one gives the
  -- volumes and containers that the second call alone gives, and appends its pull secrets to those
  -- that are there, so that a pull secret of both calls is there twice.
  pub configure_secrets-again :
      (names more : List String)
      → Present existing names
      → Present existing more
      → (t₁ : Template) × (t₂ : Template) × (alone : Template) × (configure_secrets existing service
            names t
          ≡ configured t₁)
        × (configure_secrets existing service more t₁ ≡ configured t₂)
        × (configure_secrets existing service more t ≡ configured alone)
        × (t₂.pod ≡ alone.pod)
        × (t₂.image_pull_secrets ≡ t₁.image_pull_secrets ++ keep (is_pulled existing) more)
  configure_secrets-again names more first second =
      let t₁ = after_secrets existing service names t in
      (
        t₁,
        after_secrets existing service more t₁,
        after_secrets existing service more t,
        configure_secrets-found existing service t names first,
        configure_secrets-found existing service t₁ more second,
        configure_secrets-found existing service t more second,
        place_secrets_twice service (projected_of existing names) (projected_of existing more)
            t.pod,
        refl,
      )
