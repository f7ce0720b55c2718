-- ===== src/Server/Namespaces.antt =====
-- namespaces.go of pkg/server.
pub mod Laws
use faas_share.Common.{
  String, Bool, true, false, ◌||◌, ◌&&◌, not, Option, none, some, List, [], ◌∷◌, ◌++◌, map, keep,
  any, Nowhere, lookup, is_empty, str_eq, str_eq_iff, ◌+++◌, Bool-cases, if◌then◌else◌, ◌≡◌, ◌⊎◌,
  ◌↔◌, refl, inl, inr, arith,
}
use faas_share.Server.{
  Parsed, parsed, malformed, Namespace, Cluster, Codec, Event, header, write, http_error,
}

-- `findNamespace`
unfoldable pub find_namespace : String → List String → Bool
find_namespace target [] = false
find_namespace target (n ∷ ns) = str_eq n target || find_namespace target ns

unfoldable pub is_annotated : Namespace → Bool
is_annotated n = elim (lookup "faas-share" n.annotations) [ none ↦ false | some v ↦ true ]

-- The names of the namespaces with the annotation.
unfoldable pub annotated_names : List Namespace → List String
unfolding is_annotated
annotated_names [] = []
annotated_names (n ∷ ns) = elim (is_annotated n) [
  | true ↦ n.name ∷ annotated_names ns
  | false ↦ annotated_names ns
]

-- `ListNamespaces`, from the list of the API; `none` is its error.
unfoldable pub list_namespaces : String → Option (List Namespace) → List String
unfolding annotated_names find_namespace
list_namespaces default none = default ∷ []
list_namespaces default (some items) =
    let names = annotated_names items in
    if not (find_namespace default names) then names ++ default ∷ [] else names

-- `MakeNamespacesLister`
unfoldable pub namespaces_lister : Cluster → Codec → String → Bool → List Event
unfolding list_namespaces
namespaces_lister cluster codec default cluster_role =
    let names =
      if cluster_role then list_namespaces default cluster.list_namespaces else default ∷ [] in
    elim (codec.write_names names) [
      | none ↦ http_error "Failed to list namespaces" 500 ∷ []
      | some text ↦ header 200 ∷ write text ∷ []
    ]

pub data Method : Type 0 where
  get post put delete other : Method

-- The namespace that a request names: of a body that does not name one, the default.
unfoldable pub requested_namespace : Codec → String → Method → String → String → Option String
requested_namespace codec default get query body = some (if is_empty query then default else query)
requested_namespace codec default other query body = some default
requested_namespace codec default _ query body = elim (codec.read_namespace body) [
  | malformed text ↦ none
  | parsed none ↦ some default
  | parsed (some ns) ↦ some ns
]

pub data Resolved : Type 0 where
  resolved : String → Resolved
  bad_request : Resolved
  not_allowed : String → Resolved

-- `NewNamsespaceResolver`
unfoldable pub resolve_namespace : Cluster → Codec → String → Method → String → String → Resolved
unfolding requested_namespace list_namespaces find_namespace
resolve_namespace cluster codec default method query body =
    elim (requested_namespace codec default method query body) [
      | none ↦ bad_request
      | some ns ↦
          if find_namespace ns (list_namespaces default cluster.list_namespaces)
          then resolved ns
          else not_allowed ns
    ]
