-- ===== src/ConfigClient/Session.antt =====
-- pkg/configclient/config-client.go: what the agent of a node writes to its connection, and the loop
-- that reads requests. What `nvml` answers is an argument.
use faas_share.Common.{
  ℕ, zero, suc, String, pos, Option, none, some, List, [], ◌∷◌, ◌+++◌, show_int, drop_last,
}
use faas_share.ConfigClient.{Files, Disk, handle_request}

-- `nvml.Device`: the identifier, and the memory that its pointer leads to, if it is not nil.
pub record Device : Type 0 where
  pub uuid : String
  pub memory : Option ℕ

-- The loop of `registerDevices`; `none` is a device that `NewDevice` does not answer. A nil pointer
-- panics, since the error before it is only logged.
unfoldable pub device_list : List (Option Device) → Option String
device_list [] = some ""
device_list (none ∷ ds) = none
device_list (some d ∷ ds) = elim d.memory [
  | none ↦ none
  | some mem ↦ elim (device_list ds) [
    | none ↦ none
    | some rest ↦ some (d.uuid +++ ":" +++ show_int (pos mem) +++ "," +++ rest)
  ]
]

-- `sendHeartbeat` up to some tick.
unfoldable pub heartbeats_text : ℕ → String
heartbeats_text zero = ""
heartbeats_text (suc n) = "heartbeat!" +++ "\n" +++ heartbeats_text n

-- What `Run` writes to the connection up to some tick: the host name, the devices, the heartbeats.
unfoldable pub agent_writes : String → List (Option Device) → ℕ → Option String
unfolding device_list heartbeats_text
agent_writes hostname devices beats = elim (device_list devices) [
  | none ↦ none
  | some list ↦
      some (("hostname:" +++ hostname) +++ "\n" +++ list +++ "\n" +++ heartbeats_text beats)
]

-- `recvRequest` on the lines that arrive, each without its newline; it returns where no more come.
unfoldable pub recv_request : Disk → List String → Files → Files
unfolding handle_request
recv_request disk [] f = f
recv_request disk (l ∷ ls) f = elim (drop_last l) [
  | none ↦ recv_request disk ls f
  | some r ↦ recv_request disk ls (handle_request disk r f)
]
