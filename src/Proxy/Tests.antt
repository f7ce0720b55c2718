-- ===== src/Proxy/Tests.antt =====
-- A function in one namespace.
use faas_share.Common.{
  ◌-◌, String, some, [], ◌∷◌, In, count_char, ◌+++◌, str_eq_iff, ◌≡◌, refl, arith,
}
use faas_share.Proxy.{Lister, resolved, resolve, with_lister}
use faas_share.Proxy.Targets.{resolve-address}

abbrev lister : Lister
lister = record { get = λ ns n. some (("10.0.0.1" ∷ "10.0.0.2" ∷ []) ∷ []) }

resolve-address_example :
    (ip : String) × (url : String) × In ip ("10.0.0.1" ∷ "10.0.0.2" ∷ [])
    × (some ("http://" +++ ip +++ ":8080") ≡ some url)
    × (resolve lister (λ n. n - 1) (λ u. some u) "fn" [] "a.b.dev"
        ≡ (some (resolved url), with_lister "dev" []))
unfolding count_char
resolve-address_example =
    resolve-address lister (λ n. n - 1) (λ u. some u) "fn" "a.b" "dev" "10.0.0.1" []
      ("10.0.0.2" ∷ []) [] refl (λ e. absurd (cc ((str_eq_iff "dev" "kube-system").1 e))) refl
      (λ n pos. omega (arith, pos)) (λ ip inside. ("http://" +++ ip +++ ":8080", refl))
