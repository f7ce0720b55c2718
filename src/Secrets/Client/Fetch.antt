-- ===== src/Secrets/Client/Fetch.antt =====
-- `GetSecrets`, and `ConfigureSecrets` with what it returns.
use faas_share.Common.{
  String, some, some_inj, List, [], ◌∷◌, ◌++◌, All, Map, lookup, insert, str_eq, lookup-insert,
  lookup-insert_self, Bool-cases, Option-cases, ◌≡◌, ◌∙◌, refl, sym, subst, inl, inr, arith,
  Ascending,
}
use mathlib.Core.List.{Perm}
use faas_share.Secrets.{KubeSecret}
use faas_share.Secrets.Client.{SecretApi, get_each, get_secrets}
use faas_share.Secrets.Template.{Template, configured, configure_secrets, read_secrets}
use faas_share.Secrets.Template.RoundTrip.{Present, configure_secrets-reads}

abbrev Known : Map KubeSecret → String → Type 0
Known m n = (k : KubeSecret) × (lookup n m ≡ some k)

module _ (api : SecretApi) (s : api.Store) (ns : String) where
  insert-Known :
      (m : Map KubeSecret) (n j : String) (k : KubeSecret) → Known m j → Known (insert n k m) j
  insert-Known m n j k (old, e) = elim (Bool-cases (str_eq n j)) [
    | inl same ↦ (k, lookup-insert n j k m ∙ rw same refl)
    | inr other ↦ (old, lookup-insert n j k m ∙ rw other e)
  ]

  get_each-step :
      (n : String) (names : List String) (acc : Map KubeSecret) (k : KubeSecret)
      → api.get s ns n ≡ some k
      → get_each api s ns (n ∷ names) acc ≡ get_each api s ns names (insert n k acc)
  unfolding get_each
  get_each-step n names acc k here = rw (here, get_each) refl

  get_each-Known :
      (names : List String) (acc m : Map KubeSecret) (j : String)
      → get_each api s ns names acc ≡ some m
      → Known acc j
      → Known m j
  unfolding get_each
  get_each-Known [] acc m j e known = subst (λ x. Known x j) (some_inj acc m e) known
  get_each-Known (n ∷ names) acc m j e known = elim (Option-cases (api.get s ns n)) [
    | inl missing ↦ absurd (ground (arith, e, missing))
    | inr (k, here) ↦
        get_each-Known names (insert n k acc) m j (sym (get_each-step n names acc k here) ∙ e)
          (insert-Known acc n j k known)
  ]

  get_each-Present :
      (names : List String) (acc m : Map KubeSecret)
      → get_each api s ns names acc ≡ some m
      → Present m names
  unfolding get_each
  get_each-Present [] acc m e = tt
  get_each-Present (n ∷ names) acc m e = elim (Option-cases (api.get s ns n)) [
    | inl missing ↦ absurd (ground (arith, e, missing))
    | inr (k, here) ↦ (
      get_each-Known names (insert n k acc) m n (sym (get_each-step n names acc k here) ∙ e)
          (k, lookup-insert_self n k acc),
      get_each-Present names (insert n k acc) m (sym (get_each-step n names acc k here) ∙ e),
    )
  ]

  -- Every secret is there.
  abbrev pub Stored : List String → Type 0
  Stored names = All (λ n. (k : KubeSecret) × (api.get s ns n ≡ some k)) names

  get_each-found :
      (names : List String) (acc : Map KubeSecret)
      → Stored names
      → (m : Map KubeSecret) × (get_each api s ns names acc ≡ some m)
  unfolding get_each
  get_each-found [] acc stored = (acc, refl)
  get_each-found (n ∷ names) acc stored =
      let (k, here) = stored.0 in
      let (m, e) = get_each-found names (insert n k acc) stored.1 in
      (m, get_each-step n names acc k here ∙ e)

  -- Secrets that the cluster has go the whole way: `GetSecrets` answers them, `ConfigureSecrets`
  -- succeeds with the answer on a template without pull secrets, and `ReadFunctionSecretsSpec`
  -- then answers the requested names in ascending order, none lost and none added.
  pub get_secrets-configured :
      (service : String) (requested : List String) (t : Template)
      → Stored requested
      → t.image_pull_secrets ≡ []
      → (m : Map KubeSecret) × (t' : Template) × (r : List String) × (get_secrets api s ns requested
          ≡ some m)
        × (configure_secrets m service requested t ≡ configured t')
        × (read_secrets service t' ≡ some r)
        × Perm r requested
        × Ascending r
  unfolding get_secrets
  get_secrets-configured service requested t stored fresh =
      let (m, fetched) = get_each-found requested [] stored in
      let (t', r, done, back, perm, ascending) =
        configure_secrets-reads m service requested t (get_each-Present requested [] m fetched) in
      (m, t', r, fetched, done, back, subst (λ l. Perm r (l ++ requested)) fresh perm, ascending)
