-- ===== src/DeviceManager/Run.antt =====
-- Runs of the device manager after `initNodesInfo`: the sections that its goroutines execute under
-- `nodesInfoMux` or `nodeStatusMux`, one after the other, in any order and with any arguments. A run
-- goes on as long as one goroutine at a time has the mutex: until the last `Unlock` of a removal in
-- `removeSharePodDepFromList`, which is a fatal error where the mutex is free, as it is between two
-- sections, and takes it from its holder within a section of another goroutine.
pub mod Keeps
pub mod Leaves
pub mod Ports
pub mod Sound
mod Tests
use faas_share.Common.{String, ℤ, Bool, false, Option, none, some, List, [], ◌∷◌, Map}
use faas_share.Kube.{Float64, Pod, Lookup}
use faas_share.DeviceManager.State.{State}
use faas_share.DeviceManager.Config.{register_client, heartbeat, check_heartbeats, sync_config}
use faas_share.DeviceManager.Pool.{Claim, get_physical_gpu, clean_orphans, delete_dummy_pod}
use faas_share.DeviceManager.Pool.Dummy.{create_dummy}
use faas_share.DeviceManager.Pool.Removal.{unlock, entry_of, remove_request}

-- A call of `getPhysicalGPUuuid`, `cleanOrphanDummyPod`, the registration of `clientHandler`, one line
-- of its loop, one round of `periodicallyCheckHeartbeats`, `createDummyPod`; and of a round of
-- `removeSharePodDepFromList` the part up to the first `Unlock` (with node, GPU and key), the
-- deletion of the dummy pod, and the last `Unlock` after a removal.
pub data Section (fl : Float64) : Type 0 where
  claims : String → String → Claim fl → ℤ → Section fl
  cleans : Section fl
  registers : String → String → String → String → Map String → Section fl
  hears : String → ℤ → Option String → Section fl
  checks : ℤ → Section fl
  dummies : String → String → Option String → List (Lookup Pod) → Section fl
  leaves : String → String → String → Section fl
  deletes : String → String → String → Section fl
  unlocks : Section fl

module _ (fl : Float64) where
  abbrev pub state_of : Option (State fl × Bool) → Option (State fl)
  state_of none = none
  state_of (some (s, b)) = some s

  abbrev pub removed_state : Option (State fl × Option String) → Option (State fl)
  removed_state none = none
  removed_state (some (s, dummy)) = some s

  -- The part of a removal under the mutex.
  unfoldable pub leave_section : String → String → String → State fl → Option (State fl)
  unfolding entry_of remove_request
  leave_section name id key s = elim (entry_of fl name id key s) [
    | none ↦ some s
    | some (p, (n, g)) ↦ removed_state (remove_request fl name id p n g s)
  ]

  -- `none` is a panic or a fatal error.
  unfoldable pub do_section : Section fl → State fl → Option (State fl)
  unfolding get_physical_gpu clean_orphans register_client heartbeat check_heartbeats create_dummy
      leave_section delete_dummy_pod unlock
  do_section (claims name id c port) s = some (get_physical_gpu fl name id c port s).0
  do_section cleans s = some (clean_orphans fl s)
  do_section (registers node conn ip devices annotations) s =
      register_client fl node conn ip devices annotations s
  do_section (hears node now line) s = state_of (heartbeat fl node now line s)
  do_section (checks now) s = some (record s { statuses = check_heartbeats now s.statuses })
  do_section (dummies name id log answers) s = state_of (create_dummy fl name id log answers s)
  do_section (leaves name id key) s = leave_section name id key s
  do_section (deletes name id uuid) s = some (delete_dummy_pod fl name id uuid s)
  do_section unlocks s = elim (unlock false) [ none ↦ none | some free ↦ some s ]

  unfoldable pub run_sections : List (Section fl) → State fl → Option (State fl)
  unfolding do_section
  run_sections [] s = some s
  run_sections (a ∷ more) s = elim (do_section a s) [ none ↦ none | some t ↦ run_sections more t ]
