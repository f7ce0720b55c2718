-- ===== src/Secrets/Client/Contract.antt =====
-- What the client of the function secrets promises: a table of secrets by namespace and name. The
-- laws of the Kubernetes API that it rests on stand in `SecretLaws`.
use faas_share.Common.{
  String, Bool, true, ◌&&◌, Option, none, some, List, [], ◌∷◌, lookup, str_eq, is_empty, value_at,
  ◌≡◌, ◌⊎◌, if◌then◌else◌,
}
use faas_share.Secrets.{KubeSecret}
use faas_share.Secrets.Client.{
  SecretApi, FunctionSecret, Answer, accepted, refused, secret_label, secret_label_value,
  validate_secret, create_secret, replace_secret, delete_secret,
}

abbrev pub same_place : String → String → String → String → Bool
same_place ns n ms m = str_eq ns ms && str_eq n m

-- What the Kubernetes API keeps, by namespace and name, and what it documents of its calls: an object
-- that is read is the one that is kept; an object is created where there is none, and updated and
-- deleted where there is one; a call that succeeds changes that object and no other. Any call may
-- fail, for whatever reason, and then changes nothing. Between two calls time passes, in which
-- anything but the objects may change, as what decides whether the next call fails.
pub record SecretLaws (api : SecretApi) : Type 0 where
  pub held : api.Store → String → String → Option KubeSecret
  pub held_name :
      (s : api.Store) (ns n : String) (k : KubeSecret) → held s ns n ≡ some k → k.name ≡ n
  pub passes : api.Store → api.Store
  pub passes_held : (s : api.Store) (ns n : String) → held (passes s) ns n ≡ held s ns n
  pub get_held :
      (s : api.Store) (ns n : String) (k : KubeSecret)
      → api.get s ns n ≡ some k
      → held s ns n ≡ some k
  pub create_held :
      (s s' : api.Store) (ns : String) (k : KubeSecret)
      → api.create s ns k ≡ some s'
      → (held s ns k.name ≡ none)
        × ((ms m : String)
            → held s' ms m ≡ (if same_place ns k.name ms m then some k else held s ms m))
  pub update_held :
      (s s' : api.Store) (ns : String) (k : KubeSecret)
      → api.update s ns k ≡ some s'
      → (j : KubeSecret) × (held s ns k.name ≡ some j)
        × ((ms m : String)
            → held s' ms m ≡ (if same_place ns k.name ms m then some k else held s ms m))
  pub delete_held :
      (s s' : api.Store) (ns n : String)
      → api.delete s ns n ≡ some s'
      → (k : KubeSecret) × (held s ns n ≡ some k)
        × ((ms m : String) → held s' ms m ≡ (if same_place ns n ms m then none else held s ms m))

pub data Command : Type 0 where
  create : FunctionSecret → Command
  replace : FunctionSecret → Command
  delete : String → String → Command

-- A secret as a user of the client sees it: whether it has the label, and the value under its name.
pub record Cell : Type 0 where
  pub managed : Bool
  pub value : Option String

abbrev pub Table : Type 0
Table = String → String → Option Cell

abbrev pub put_cell : String → String → Option Cell → Table → Table
put_cell ns n c table ms m = if same_place ns n ms m then c else table ms m

abbrev pub payload : FunctionSecret → String
payload x = if is_empty x.raw_value then x.value else x.raw_value

-- A command on the table; `none` for a command that is refused.
abbrev pub table_step : Command → Table → Option Table
table_step (create x) table = elim (validate_secret x) [
  | some e ↦ none
  | none ↦ elim (table x.namespace x.name) [
    | some c ↦ none
    | none ↦ some (
        put_cell x.namespace x.name (some (record { managed = true; value = some (payload x) }))
          table)
  ]
]
table_step (replace x) table = elim (validate_secret x) [
  | some e ↦ none
  | none ↦ elim (table x.namespace x.name) [
    | none ↦ none
    | some c ↦ some (
        put_cell x.namespace x.name
          (some (record { managed = c.managed; value = some (payload x) })) table)
  ]
]
table_step (delete ns n) table = elim (table ns n) [
  | none ↦ none
  | some c ↦ some (put_cell ns n none table)
]

-- The table after commands that are all accepted; `none` if the contract refuses one of them.
abbrev pub replay : List Command → Table → Option Table
replay [] table = some table
replay (c ∷ cs) table = elim (table_step c table) [ none ↦ none | some next ↦ replay cs next ]

abbrev pub cell_of : String → KubeSecret → Cell
cell_of n k = record {
  managed = str_eq (value_at secret_label k.labels) secret_label_value;
  value = lookup n k.data_map;
}

abbrev pub cell_at : String → Option KubeSecret → Option Cell
cell_at n none = none
cell_at n (some k) = some (cell_of n k)

module _ (api : SecretApi) where
  abbrev pub perform : Command → api.Store → Answer api.Store
  perform (create x) s = create_secret api x s
  perform (replace x) s = replace_secret api x s
  perform (delete ns n) s = delete_secret api ns n s

  module _ (laws : SecretLaws api) where
    -- The store after the calls of a client, in their order.
    unfoldable pub run_client : List Command → api.Store → api.Store
    run_client [] s = s
    run_client (c ∷ cs) s = elim (perform c s) [
      | refused e ↦ run_client cs (laws.passes s)
      | accepted s' ↦ run_client cs (laws.passes s')
    ]

    -- The calls of the client that are accepted.
    unfoldable pub accepted_commands : List Command → api.Store → List Command
    accepted_commands [] s = []
    accepted_commands (c ∷ cs) s = elim (perform c s) [
      | refused e ↦ accepted_commands cs (laws.passes s)
      | accepted s' ↦ c ∷ accepted_commands cs (laws.passes s')
    ]

    -- The table that a store stands for.
    abbrev pub view : api.Store → Table
    view s ns n = cell_at n (laws.held s ns n)

    -- A secret that stands for what a function secret says.
    abbrev pub StandsFor : FunctionSecret → KubeSecret → Type 0
    StandsFor x k = (k.name ≡ x.name) × (lookup x.name k.data_map ≡ some (payload x))

    -- What a refusal may come from: the contract refuses the command, or a call of the API that the
    -- command needs has failed.
    abbrev pub Refusable : Command → api.Store → Type 0
    Refusable (create x) s =
        (table_step (create x) (view s) ≡ none)
        ⊎ ((k : KubeSecret) × StandsFor x k × (api.create s x.namespace k ≡ none))
    Refusable (replace x) s =
        (table_step (replace x) (view s) ≡ none)
        ⊎ ((api.get s x.namespace x.name ≡ none)
            ⊎ ((k : KubeSecret) × StandsFor x k × (api.update s x.namespace k ≡ none)))
    Refusable (delete ns n) s = api.delete s ns n ≡ none

    -- Every refusal in a run has such a reason.
    unfoldable pub Reasoned : List Command → api.Store → Type 0
    Reasoned [] s = Unit
    Reasoned (c ∷ cs) s = elim (perform c s) [
      | refused e ↦ Refusable c s × Reasoned cs (laws.passes s)
      | accepted s' ↦ Reasoned cs (laws.passes s')
    ]
