-- ===== src/Secrets/Template/RoundTrip.antt =====
-- What `ReadFunctionSecretsSpec` reads back after `ConfigureSecrets`.
use faas_share.Common.{
  String, Option, none, some, List, [], ◌∷◌, ◌++◌, append-nil, append_assoc, All, Map, lookup, keep,
  str_eq, str_eq_refl, sort_texts, sort_texts-perm, Ascending, sort_texts-Ascending, Bool-cases,
  List-cases, ◌≡◌, refl, ap, inl, inr, subst,
}
use mathlib.Core.List.{Perm, perm_middle, perm_append_singleton}
use mathlib.Core.List.Perm
use faas_share.Kube.{SecretProjection, Volume}
use faas_share.Operator.Deployment.{remove_volume}
use faas_share.Secrets.{KubeSecret}
use faas_share.Secrets.Template.{
  Template, Gathered, configured, volume_name, is_pull_secret, projection_of, gather_secret,
  gather_secrets, is_none_left, secrets_volume, place_secrets, finish_secrets, start_of,
  configure_secrets, find_volume, source_names, read_secrets,
}

abbrev held : Gathered → List String
held g = g.pull_secrets ++ source_names g.projections

source_names-append :
    (ps : List (Option SecretProjection)) (p : SecretProjection)
    → source_names (ps ++ some p ∷ []) ≡ source_names ps ++ p.name ∷ []
unfolding source_names
source_names-append [] p = refl
source_names-append (none ∷ ps) p = source_names-append ps p
source_names-append (some q ∷ ps) p = ap (λ ns. q.name ∷ ns) (source_names-append ps p)

gather_secret-held :
    (name : String) (k : KubeSecret) (g : Gathered)
    → Perm (held (gather_secret name k g)) (name ∷ held g)
unfolding gather_secret
gather_secret-held name k g =
    let ps = g.pull_secrets in
    let ns = source_names g.projections in
    elim (Bool-cases (is_pull_secret k)) [
      | inl e ↦ rw (e, gather_secret, append_assoc) (perm_middle ps ns)
      | inr e ↦
          rw (e, gather_secret, source_names-append g.projections (projection_of name k))
            (rw append_assoc at (perm_append_singleton name (held g)))
    ]

abbrev pub Present : Map KubeSecret → List String → Type 0
Present existing names = All (λ n. (k : KubeSecret) × (lookup n existing ≡ some k)) names

abbrev GathersAll : Map KubeSecret → List String → Gathered → Type 0
GathersAll existing names g =
    (h : Gathered) × (gather_secrets existing names g ≡ (h, none)) × Perm (held h) (held g ++ names)

gather_secrets-GathersAll :
    (existing : Map KubeSecret) (names : List String) (g : Gathered)
    → Present existing names
    → GathersAll existing names g
unfolding gather_secrets
gather_secrets-GathersAll existing [] g present = (g, refl, rw append-nil Perm.rfl)
gather_secrets-GathersAll existing (n ∷ ns) g present =
    let (k, e) = present.0 in
    let (h, gathers, perm) =
      gather_secrets-GathersAll existing ns (gather_secret n k g) present.1 in
    (
      h,
      rw (e, gather_secrets) gathers,
      Perm.trans perm (
          Perm.trans (Perm.append_right ns (gather_secret-held n k g))
            (Perm.symm (perm_middle (held g) ns))),
    )

find_volume-removed :
    (name : String) (vs : List Volume) → find_volume name (remove_volume name vs) ≡ none
unfolding find_volume remove_volume
find_volume-removed name [] = refl
find_volume-removed name (v ∷ vs) = elim (Bool-cases (str_eq v.name name)) [
  | inl e ↦ rw (e, keep) (find_volume-removed name vs)
  | inr e ↦ rw (e, keep) (rw e (find_volume-removed name vs))
]

find_volume-added :
    (vs : List Volume) (v : Volume)
    → find_volume v.name (remove_volume v.name vs ++ v ∷ []) ≡ some v
unfolding find_volume remove_volume
find_volume-added [] v = rw str_eq_refl refl
find_volume-added (w ∷ vs) v = elim (Bool-cases (str_eq w.name v.name)) [
  | inl e ↦ rw (e, keep) (find_volume-added vs v)
  | inr e ↦ rw (e, keep) (rw e (find_volume-added vs v))
]

-- What is read back from a template whose secrets have just been placed.
read_secrets-placed :
    (service : String) (pulls : List String) (ps : List (Option SecretProjection)) (t : Template)
    → read_secrets service
        (record { image_pull_secrets = pulls; pod = place_secrets service ps t.pod })
      ≡ some (sort_texts (pulls ++ source_names ps))
unfolding read_secrets place_secrets
read_secrets-placed service pulls ps t = elim (List-cases ps) [
  | inl e ↦
      rw (e, is_none_left, find_volume-removed (volume_name service) t.pod.volumes, read_secrets)
        (rw append-nil refl)
  | inr (q, qs, e) ↦
      rw
        (
          e,
          is_none_left,
          find_volume-added t.pod.volumes (secrets_volume service (q ∷ qs)),
          read_secrets,
        )
        refl
]

module _ (existing : Map KubeSecret) (service : String) (requested : List String)
    (t : Template) where
  -- If every requested secret exists, `ConfigureSecrets` succeeds, and `ReadFunctionSecretsSpec` of
  -- the deployment of the service then answers, in ascending order, the pull secrets that the
  -- template had before and the requested secrets, each as often as it stands there.
  pub configure_secrets-reads :
      Present existing requested
      → (t' : Template) × (r : List String) × (configure_secrets existing service requested t
          ≡ configured t')
        × (read_secrets service t' ≡ some r)
        × Perm r (t.image_pull_secrets ++ requested)
        × Ascending r
  unfolding configure_secrets finish_secrets source_names
  configure_secrets-reads present =
      let (g, gathers, perm) = gather_secrets-GathersAll existing requested (start_of t) present in
      let all : Perm (held g) (t.image_pull_secrets ++ requested) =
        subst (λ l. Perm (held g) (l ++ requested)) (append-nil t.image_pull_secrets) perm in
      (
        record {
          image_pull_secrets = g.pull_secrets;
          pod = place_secrets service g.projections t.pod;
        },
        sort_texts (held g),
        ap (finish_secrets service t) gathers,
        read_secrets-placed service g.pull_secrets g.projections t,
        Perm.trans (sort_texts-perm (held g)) all,
        sort_texts-Ascending (held g),
      )
