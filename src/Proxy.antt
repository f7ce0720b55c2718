-- ===== src/Proxy.antt =====
-- pkg/k8s/proxy.go: where a call of a function goes. The lister of the endpoints, `url.Parse` and
-- `rand.Intn` are parameters; the listers that `FunctionLookup` keeps are the namespaces that it
-- has one for.
pub mod Targets
pub mod Tests
use Prim.Native.Char.{code}
use Prim.Native.String
use faas_share.Common.{
  ℕ, ◌==◌, String, Bool, true, false, ◌||◌, Option, none, some, List, [], ◌∷◌, any, str_eq, length,
  get_elem?, ◌+++◌, if◌then◌else◌,
}

-- The addresses of the subsets of an `Endpoints` object, by IP.
abbrev pub Subsets : Type 0
Subsets = List (List String)

pub record Lister : Type 0 where
  pub get : String → String → Option Subsets

pub data Resolution : Type 0 where
  resolved : String → Resolution
  refused : String → Resolution

-- What stands after the last dot.
unfoldable pub after_last_dot : String → Option String
after_last_dot String.[] = none
after_last_dot (String.◌∷◌ c s) = elim (after_last_dot s) [
  | some t ↦ some t
  | none ↦ if code c == 46 then some s else none
]

-- `getNamespace`
unfoldable pub get_namespace : String → String → String
unfolding after_last_dot
get_namespace name default = elim (after_last_dot name) [ none ↦ default | some ns ↦ ns ]

-- `strings.TrimSuffix(s, p)`
unfoldable pub trim_suffix : String → String → String
trim_suffix String.[] p = ""
trim_suffix (String.◌∷◌ c s) p =
    let rest = trim_suffix s p in if str_eq (String.◌∷◌ c s) p then "" else String.◌∷◌ c rest

-- `functionName` of `Resolve`
unfoldable pub function_of : String → String → String
unfolding after_last_dot trim_suffix
function_of name ns = elim (after_last_dot name) [
  | none ↦ name
  | some t ↦ trim_suffix name ("." +++ ns)
]

-- `GetLister`, and `SetLister` where there is none.
abbrev pub with_lister : String → List String → List String
with_lister ns known = if any (str_eq ns) known then known else ns ∷ known

module _ (lister : Lister) (pick : ℕ → ℕ) (parse_url : String → Option String) where
  -- `Resolve` with the addresses of the first subset; `none` is an index out of range.
  unfoldable pub resolve_address : String → List String → Option Resolution
  resolve_address what [] = some (refused ("no addresses in subset for " +++ what))
  resolve_address what (a ∷ addresses) =
      elim (get_elem? (a ∷ addresses) (pick (length (a ∷ addresses)))) [
        | none ↦ none
        | some ip ↦ elim (parse_url ("http://" +++ ip +++ ":8080")) [
          | none ↦ some (refused "url")
          | some url ↦ some (resolved url)
        ]
      ]

  -- `Resolve` from the lister on.
  unfoldable pub resolve_in : String → String → Option Resolution
  unfolding resolve_address
  resolve_in ns function =
      let what = "\"" +++ function +++ "." +++ ns +++ "\"" in
      elim (lister.get ns function) [
        | none ↦ some (refused ("error listing " +++ what))
        | some [] ↦ some (refused ("no subsets available for " +++ what))
        | some (addresses ∷ more) ↦ resolve_address what addresses
      ]

  -- `Resolve` from the namespace on, with the namespaces that have a lister before and after.
  unfoldable pub resolve_at : String → String → List String → Option Resolution × List String
  unfolding resolve_in
  resolve_at ns function known =
      let answer = resolve_in ns function in
      if str_eq ns "kube-system"
      then (some (refused "namespace not allowed"), known)
      else (answer, with_lister ns known)

  -- `Resolve`
  unfoldable pub resolve : String → List String → String → Option Resolution × List String
  unfolding get_namespace function_of resolve_at
  resolve default known name =
      let ns = get_namespace name default in resolve_at ns (function_of name ns) known
