-- ===== src/Server/Namespaces/Laws.antt =====
-- The namespaces that a request may use.
use faas_share.Common.{
  Nowhere, String, true, ◌||◌, Option, none, some, some_inj, List, [], ◌∷◌, ◌++◌, str_eq_iff,
  Bool-cases, Option-cases, ◌≡◌, ◌⊎◌, ◌↔◌, ◌∙◌, refl, sym, ap, subst, inl, inr, arith,
}
use faas_share.Server.{Namespace, Cluster, Codec}
use faas_share.Server.Namespaces.{
  find_namespace, is_annotated, annotated_names, list_namespaces, Method, requested_namespace,
  resolved, resolve_namespace,
}

-- A namespace that the API lists with the annotation.
abbrev pub Annotated : String → List Namespace → Type 0
Annotated ns [] = Nowhere
Annotated ns (n ∷ items) = ((n.name ≡ ns) × (is_annotated n ≡ true)) ⊎ Annotated ns items

-- The default namespace, or an annotated one if the API answers.
abbrev pub Allowed : String → Option (List Namespace) → String → Type 0
Allowed default none ns = ns ≡ default
Allowed default (some items) ns = (ns ≡ default) ⊎ Annotated ns items

find_namespace-append :
    (ns : String) (xs ys : List String)
    → find_namespace ns (xs ++ ys) ≡ (find_namespace ns xs || find_namespace ns ys)
unfolding find_namespace
find_namespace-append ns [] ys = refl
find_namespace-append ns (x ∷ xs) ys = ground (arith, find_namespace-append ns xs ys)

find_namespace-Annotated :
    (ns : String) (items : List Namespace)
    → (find_namespace ns (annotated_names items) ≡ true) ↔ Annotated ns items
unfolding find_namespace annotated_names
find_namespace-Annotated ns [] = (λ e. absurd (cc e), λ e. elim e [ ])
find_namespace-Annotated ns (n ∷ items) = elim (Bool-cases (is_annotated n)) [
  | inl e ↦
      rw (e, annotated_names)
        (ground (arith, str_eq_iff n.name ns, find_namespace-Annotated ns items))
  | inr e ↦ rw (e, annotated_names) (ground (arith, e, find_namespace-Annotated ns items))
]

find_namespace-Allowed :
    (default : String) (answer : Option (List Namespace)) (ns : String)
    → (find_namespace ns (list_namespaces default answer) ≡ true) ↔ Allowed default answer ns
unfolding list_namespaces find_namespace
find_namespace-Allowed default none ns = ground (arith, str_eq_iff default ns)
find_namespace-Allowed default (some items) ns =
    let names = annotated_names items in
    let here = find_namespace-Annotated ns items in
    elim (Bool-cases (find_namespace default names)) [
      | inl e ↦
          rw (e, list_namespaces)
            (
              λ found. inr (here.0 found),
              λ h. elim h [
                | inl q ↦ subst (λ z. find_namespace z names ≡ true) (sym q) e
                | inr a ↦ here.1 a
              ],
            )
      | inr e ↦
          rw (e, list_namespaces)
            (ground
              (arith, here, find_namespace-append ns names (default ∷ []), str_eq_iff default ns))
    ]

-- A request is resolved to a namespace exactly if it names it, or names none and it is the
-- default, and it is the default namespace or one that the API lists with the annotation. If the
-- API fails, only the default namespace is left.
pub resolve_namespace-Allowed :
    (cluster : Cluster) (codec : Codec) (default : String) (method : Method)
    (query body ns : String)
    → (resolve_namespace cluster codec default method query body ≡ resolved ns) ↔ (
        (requested_namespace codec default method query body ≡ some ns)
        × Allowed default cluster.list_namespaces ns)
unfolding resolve_namespace
resolve_namespace-Allowed cluster codec default method query body ns =
    let answer = cluster.list_namespaces in
    let allowed = find_namespace-Allowed default answer ns in
    elim (Option-cases (requested_namespace codec default method query body)) [
      | inl e ↦ rw (e, resolve_namespace) (ground arith)
      | inr (x, e) ↦ elim (Bool-cases (find_namespace x (list_namespaces default answer))) [
        | inl f ↦
            rw (e, f, resolve_namespace)
              (
                λ g.
                    let q : x ≡ ns = cc g in
                    (
                      ap some q,
                      allowed.0 (
                          subst (λ z. find_namespace z (list_namespaces default answer) ≡ true) q
                            f),
                    ),
                λ h. ap resolved (some_inj x ns h.0),
              )
        | inr f ↦
            rw (e, f, resolve_namespace)
              (
                λ g. absurd (cc g),
                λ h.
                    let q : x ≡ ns = some_inj x ns h.0 in
                    let t = allowed.1 h.1 in
                    absurd (
                      cc (
                        sym f ∙ ap (λ z. find_namespace z (list_namespaces default answer)) q ∙ t)),
              )
      ]
    ]
