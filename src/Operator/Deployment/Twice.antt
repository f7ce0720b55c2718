-- ===== src/Operator/Deployment/Twice.antt =====
-- `ConfigureReadOnlyRootFilesystem` on a deployment that it has configured before.
use faas_share.Common.{
  Bool, true, false, not, none, some, some_inj, List, [], ◌∷◌, ◌++◌, append-nil, keep, str_eq,
  if◌then◌else◌, Bool-cases, List-cases, ◌≡◌, ◌∙◌, refl, sym, ap, subst, inl, inr, arith,
}
use faas_share.Kube.{Volume, VolumeMount}
use faas_share.Operator.Deployment.{
  PodSpec, SpecContainer, context_of, remove_volume, remove_volume_mount, configure_read_only,
}

module _ {ℓ} {A : Type ℓ} (p : A → Bool) where
  keep-append : (xs ys : List A) → keep p (xs ++ ys) ≡ keep p xs ++ keep p ys
  keep-append [] ys = refl
  keep-append (x ∷ xs) ys = elim (Bool-cases (p x)) [
    | inl e ↦ rw (e, keep) (ap (λ zs. x ∷ zs) (keep-append xs ys))
    | inr e ↦ rw (e, keep) (keep-append xs ys)
  ]

  keep_twice : (xs : List A) → keep p (keep p xs) ≡ keep p xs
  keep_twice [] = refl
  keep_twice (x ∷ xs) = elim (Bool-cases (p x)) [
    | inl e ↦ rw (e, keep) (rw (e, keep) (ap (λ zs. x ∷ zs) (keep_twice xs)))
    | inr e ↦ rw (e, keep) (keep_twice xs)
  ]

  -- An item that does not pass is not there afterwards, added or not.
  pub keep-added :
      (b : Bool) (xs : List A) (y : A)
      → p y ≡ false
      → keep p (if b then keep p xs ++ y ∷ [] else keep p xs) ≡ keep p xs
  keep-added true xs y e =
      keep-append (keep p xs) (y ∷ []) ∙ rw (keep_twice xs) (rw (e, keep) (append-nil (keep p xs)))
  keep-added false xs y e = keep_twice xs

abbrev Again : Bool → Bool → PodSpec → Type 0
Again a b spec =
    (s : PodSpec)
    → configure_read_only a spec ≡ some s
    → configure_read_only b s ≡ configure_read_only b spec

one_container-Again :
    (a b : Bool) (spec : PodSpec) (c : SpecContainer) (cs : List SpecContainer)
    → Again a b (record spec { containers = c ∷ cs })
unfolding configure_read_only remove_volume remove_volume_mount
one_container-Again a b spec c cs s first =
    let p = λ (v : Volume). not (str_eq v.name "temp") in
    let q = λ (m : VolumeMount). not (str_eq m.name "temp") in
    let volume : Volume = record { name = "temp"; host_path = ""; projected = none } in
    let mount : VolumeMount = record { name = "temp"; mount_path = "/tmp"; read_only = false } in
    subst
      (λ t. configure_read_only b t ≡ configure_read_only b (record spec { containers = c ∷ cs }))
      (some_inj
        (record spec {
          volumes = if a then keep p spec.volumes ++ volume ∷ [] else keep p spec.volumes;
          containers =
              record c {
                security_context =
                    some (record (context_of c) { read_only_root_filesystem = some a });
                volume_mounts =
                    if a then keep q c.volume_mounts ++ mount ∷ [] else keep q c.volume_mounts;
              }
              ∷ cs;
        })
        s first)
      (rw (keep-added p a spec.volumes volume refl, keep-added q a c.volume_mounts mount refl) refl)

-- Configured twice, with the same choice or the other one, a pod spec is as if only the second
-- call had been made.
pub configure_read_only-again :
    (a b : Bool) (spec s : PodSpec)
    → configure_read_only a spec ≡ some s
    → configure_read_only b s ≡ configure_read_only b spec
unfolding configure_read_only
configure_read_only-again a b spec s first = elim (List-cases spec.containers) [
  | inl e ↦ absurd (ground arith)
  | inr (c, cs, e) ↦
      subst (λ xs. Again a b (record spec { containers = xs })) (sym e)
        (one_container-Again a b spec c cs) s first
]
