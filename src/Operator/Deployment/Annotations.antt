-- ===== src/Operator/Deployment/Annotations.antt =====
-- `makeAnnotations` of pkg/controller/deployment.go: the annotations of a deployment and its pods.
use faas_share.Common.{
  String, false, none, some, [], ◌∷◌, Map, lookup, insert, lookup-insert, str_eq, str_eq_iff, subst,
  Bool-cases, Option-cases, ◌≡◌, ◌∙◌, refl, sym, inl, inr, arith,
}
use faas_share.Operator.Deployment.{
  Json, SharePod, annotation_function_spec, copy_over, make_annotations,
}
use faas_share.Operator.Deployment.Laws.{lookup-copy_over}

-- A map has each key once.
abbrev pub UniqueKeys : Map String → Type 0
UniqueKeys [] = Unit
UniqueKeys ((k, v) ∷ m) = (lookup k m ≡ none) × UniqueKeys m

lookup-copy_over_found :
    (j v : String) (kvs m : Map String)
    → UniqueKeys kvs
    → lookup j kvs ≡ some v
    → lookup j (copy_over kvs m) ≡ some v
unfolding lookup copy_over
lookup-copy_over_found j v [] m u h = absurd (cc h)
lookup-copy_over_found j v ((k, w) ∷ kvs) m u h = elim (Bool-cases (str_eq k j)) [
  | inl same ↦
      let gone : lookup j kvs ≡ none =
        subst (λ i. lookup i kvs ≡ none) ((str_eq_iff k j).0 same) u.0 in
      let first : some w ≡ some v = ground arith in
      lookup-copy_over j kvs (insert k w m) gone ∙ (lookup-insert k j w m ∙ rw same first)
  | inr other ↦ lookup-copy_over_found j v kvs (insert k w m) u.1 (ground arith)
]

-- The map that is copied decides over its keys.
lookup-copy_over_unique :
    (j : String) (kvs m : Map String)
    → UniqueKeys kvs
    → lookup j m ≡ none
    → lookup j (copy_over kvs m) ≡ lookup j kvs
lookup-copy_over_unique j kvs m u h = elim (Option-cases (lookup j kvs)) [
  | inl e ↦ lookup-copy_over j kvs m e ∙ h ∙ sym e
  | inr (v, e) ↦ lookup-copy_over_found j v kvs m u e ∙ sym e
]

-- But for the two annotations that the operator writes, the pods of a deployment have those of the
-- SharePod.
pub lookup-make_annotations :
    (json : Json) (sp : SharePod) (j : String)
    → UniqueKeys sp.annotations
    → str_eq annotation_function_spec j ≡ false
    → str_eq "prometheus.io.scrape" j ≡ false
    → lookup j (make_annotations json sp) ≡ lookup j sp.annotations
unfolding make_annotations lookup
lookup-make_annotations json sp j u spec scrape =
    let base : Map String = ("prometheus.io.scrape", "false") ∷ [] in
    let absent : lookup j base ≡ none = rw (scrape, lookup) refl in
    let copied = lookup-copy_over_unique j sp.annotations base u absent in
    elim (Option-cases (json.marshal sp.spec)) [
      | inl e ↦ rw (e, make_annotations) copied
      | inr (text, e) ↦
          let over = copy_over sp.annotations base in
          let other : lookup j (insert annotation_function_spec text over) ≡ lookup j over =
            lookup-insert annotation_function_spec j text over ∙ rw spec refl in
          rw (e, make_annotations) (other ∙ copied)
    ]
