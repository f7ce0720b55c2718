-- ===== src/DeviceManager/Session.antt =====
-- `clientHandler` of pkg/devicemanager/config.go as a whole, on the lines that arrive from the agent of
-- a node. The connection names itself by the text of its remote address.
pub mod Greeting
pub mod Devices
pub mod Beats
pub mod Registered
pub mod Agent
pub mod Files
mod Tests
use faas_share.Common.{
  ℕ, suc, ◌+◌, String, ℤ, Option, none, some, List, [], ◌∷◌, Map, str_eq, split, first_part,
  get_elem?, drop_last, if◌then◌else◌,
}
use faas_share.Kube.{Lookup, found, not_found, failed, Float64}
use faas_share.DeviceManager.State.{close, State, record_call}
use faas_share.DeviceManager.Config.{register_client, heartbeats}

-- What the handler asks of its environment: the node name in the pod of a host name, the node name in
-- the object that the client returns with another error than NotFound, the annotations of a node,
-- and the clock at each line of the loop.
pub record World : Type 0 where
  pub get_pod : String → Lookup String
  pub failed_node : String
  pub annotations : String → Map String
  pub now : ℕ → ℤ

-- The results of `ReadString` in the loop: the lines, and then an error.
abbrev pub beats_at : (ℕ → ℤ) → ℕ → List String → List (ℤ × Option String)
beats_at now i [] = (now i, none) ∷ []
beats_at now i (l ∷ ls) = (now i, some l) ∷ beats_at now (i + 1) ls

module _ (fl : Float64) (world : World) where
  -- From the list of devices on, for a node that is known.
  unfoldable pub handle_node : String → String → String → List String → State fl → Option (State fl)
  unfolding register_client heartbeats
  handle_node node conn ip [] s = some s
  handle_node node conn ip (devices ∷ beats) s = elim (drop_last devices) [
    | none ↦ none
    | some ids ↦ elim (register_client fl node conn ip ids (world.annotations node) s) [
      | none ↦ none
      | some t ↦ heartbeats fl node (beats_at world.now 0 beats) t
    ]
  ]

  -- From the host name on.
  unfoldable pub handle_host : String → String → String → List String → State fl → Option (State fl)
  unfolding handle_node
  handle_host hostname conn ip rest s = elim (world.get_pod hostname) [
    | not_found ↦ some s
    | found node ↦ handle_node node conn ip rest s
    | failed ↦ handle_node world.failed_node conn ip rest s
  ]

  -- The line with the host name: the second part, without its last character.
  unfoldable pub greet : String → String → List String → State fl → Option (State fl)
  unfolding handle_host
  greet greeting conn rest s =
      let named : Option (State fl) = elim (get_elem? (split b':' greeting) 1) [
        | none ↦ none
        | some tail ↦ elim (drop_last tail) [
          | none ↦ none
          | some hostname ↦ handle_host hostname conn (first_part (split b':' conn)) rest s
        ]
      ] in
      if str_eq (first_part (split b':' greeting)) "hostname" then named else some s

  -- `clientHandler`, with the deferred `conn.Close()`; `none` is a panic.
  unfoldable pub client_handler : String → List String → State fl → Option (State fl)
  unfolding greet record_call
  client_handler conn [] s = some (record_call fl (close conn) s)
  client_handler conn (greeting ∷ rest) s = elim (greet greeting conn rest s) [
    | none ↦ none
    | some t ↦ some (record_call fl (close conn) t)
  ]
