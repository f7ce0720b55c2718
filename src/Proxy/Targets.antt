-- ===== src/Proxy/Targets.antt =====
-- Which function a name stands for, and which addresses `Resolve` answers.
use Prim.Native.Char.{code}
use text.Mathlib.TextLemmas.{nil-append, cons-append, length-cons, length-append}
use Prim.Native.Char.{Char}
use Prim.Native.String.{count}
use faas_share.Common.{
  ℕ, zero, suc, ◌<◌, ◌==◌, String, false, Option, none, some, List, [], ◌∷◌, In, str_eq,
  str_eq_refl, str_eq_ne, length, get_elem?, count_char, ◌+++◌, Bool-cases, ◌≡◌, ◌≢◌, ◌∙◌, refl, ap,
  inl, inr, arith,
}
use faas_share.Proxy.{
  Lister, Subsets, resolved, after_last_dot, get_namespace, trim_suffix, function_of,
  resolve_address, resolve_in, resolve_at, resolve, with_lister,
}

after_last_dot-none : (s : String) → count_char 46 s ≡ 0 → after_last_dot s ≡ none
unfolding after_last_dot count_char
after_last_dot-none String.[] h = refl
after_last_dot-none (String.◌∷◌ c s) h = elim (Bool-cases (code c == 46)) [
  | inl e ↦ absurd (ground arith)
  | inr e ↦ rw (after_last_dot-none s (ground arith), e) refl
]

after_last_dot-append :
    (f ns : String) → count_char 46 ns ≡ 0 → after_last_dot (f +++ String.◌∷◌ "." ns) ≡ some ns
unfolding after_last_dot
after_last_dot-append String.[] ns h =
    rw (nil-append (String.◌∷◌ "." ns)) (rw (after_last_dot-none ns h) refl)
after_last_dot-append (String.◌∷◌ c f) ns h =
    rw (cons-append c f (String.◌∷◌ "." ns))
      (rw (after_last_dot-append f ns h, after_last_dot) refl)

longer-ne : (c : Char) (f q : String) → String.◌∷◌ c (f +++ q) ≢ q
longer-ne c f q e =
    let lengths = ap count e in
    let first = length-cons c (f +++ q) in
    let rest = length-append f q in absurd (omega (arith, lengths, first, rest))

trim_suffix-append : (f p : String) → trim_suffix (f +++ String.◌∷◌ "." p) (String.◌∷◌ "." p) ≡ f
unfolding trim_suffix
trim_suffix-append String.[] p =
    rw (nil-append (String.◌∷◌ "." p)) (rw (str_eq_refl (String.◌∷◌ "." p)) refl)
trim_suffix-append (String.◌∷◌ c f) p =
    let q = String.◌∷◌ "." p in
    let other : str_eq (String.◌∷◌ c (f +++ q)) q ≡ false =
      str_eq_ne (String.◌∷◌ c (f +++ q)) q (longer-ne c f q) in
    rw (cons-append c f q) (rw (other, trim_suffix) (ap (String.◌∷◌ c) (trim_suffix-append f p)))

dot : (x : String) → "." +++ x ≡ String.◌∷◌ "." x
dot x = cons-append "." "" x ∙ ap (String.◌∷◌ ".") (nil-append x)

get_elem-In :
    (xs : List String) (i : ℕ) → i < length xs → (x : String) × (get_elem? xs i ≡ some x) × In x xs
get_elem-In [] i h = absurd (omega arith)
get_elem-In (x ∷ xs) zero h = (x, refl, inl refl)
get_elem-In (x ∷ xs) (suc i) h =
    let (y, e, m) = get_elem-In xs i (omega (arith, h)) in (y, e, inr m)

-- A name with a dot stands for the function before the last dot in the namespace after it.
function_of-append :
    (f ns default : String)
    → count_char 46 ns ≡ 0
    → (get_namespace (f +++ "." +++ ns) default ≡ ns) × (function_of (f +++ "." +++ ns) ns ≡ f)
unfolding get_namespace function_of
function_of-append f ns default h = rw (dot ns) (
  rw (after_last_dot-append f ns h, get_namespace) refl,
  rw (after_last_dot-append f ns h, function_of) (rw (dot ns) (trim_suffix-append f ns)),
)

module _ (lister : Lister) (pick : ℕ → ℕ) (parse_url : String → Option String) where
  -- Let a namespace have no dot and not be `kube-system`, and let its lister have a function with
  -- some address in the first subset. Then `Resolve` of the name with the namespace, the function's
  -- name with dots or without, answers the URL of one of these addresses, if `rand.Intn` answers a
  -- number below its argument and the URLs can be parsed. The namespace has a lister afterwards.
  pub resolve-address :
      (default f ns a : String) (known addresses : List String) (more : Subsets)
      → count_char 46 ns ≡ 0
      → ns ≢ "kube-system"
      → lister.get ns f ≡ some ((a ∷ addresses) ∷ more)
      → ((n : ℕ) → 0 < n → pick n < n)
      → ((ip : String)
          → In ip (a ∷ addresses)
          → (url : String) × (parse_url ("http://" +++ ip +++ ":8080") ≡ some url))
      → (ip : String) × (url : String) × In ip (a ∷ addresses)
        × (parse_url ("http://" +++ ip +++ ":8080") ≡ some url)
        × (resolve lister pick parse_url default known (f +++ "." +++ ns)
            ≡ (some (resolved url), with_lister ns known))
  unfolding resolve resolve_at resolve_in resolve_address
  resolve-address default f ns a known addresses more undotted ne endpoints below urls =
      let all = a ∷ addresses in
      let (ip, e, inside) =
        get_elem-In all (pick (length all)) (below (length all) (omega arith)) in
      let (url, parses) = urls ip inside in
      let named = function_of-append f ns default undotted in
      let answers : resolve_in lister pick parse_url ns f ≡ some (resolved url) =
        rw (endpoints, resolve_in, e, resolve_address, parses) refl in
      let at : resolve_at lister pick parse_url ns f known
          ≡ (some (resolved url), with_lister ns known) =
        rw (str_eq_ne ns "kube-system" ne, answers) refl in
      (ip, url, inside, parses, rw (named.0, resolve) (rw (named.1) at))
