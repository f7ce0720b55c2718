-- ===== src/DeviceManager/Queue/Runs.antt =====
-- What the controller of the device manager does over a run.
use faas_share.Common.{String, List, In, ◌⊎◌}
use faas_share.Kube.{Float64}
use faas_share.Kube.WorkQueue.{WorkQueue, WorkQueueLaws}
use faas_share.DeviceManager.Controller.{Api}
use faas_share.DeviceManager.Queue.{ControllerEvent, worked, System}
use faas_share.DeviceManager.Queue.Steps.{Synced}

-- Some worker among the events synced the key.
abbrev pub SyncedIn : (fl : Float64) → String → List ControllerEvent → Type 0
SyncedIn fl k es = (api : Api) × In (worked api k) es × Synced fl api k

module _ (fl : Float64) (w : WorkQueue) (laws : WorkQueueLaws w) (k : String) where
  abbrev pub Kept : List ControllerEvent → System fl w → Type 0
  Kept es t = w.Holds k t.queue ⊎ SyncedIn fl k es
