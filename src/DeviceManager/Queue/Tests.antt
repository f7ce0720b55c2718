-- ===== src/DeviceManager/Queue/Tests.antt =====
-- A run in which the lister of the deployments fails.
use faas_share.Common.{none, some, List, [], ◌∷◌}
use faas_share.Kube.{failed}
use faas_share.Kube.Thousandths.{thousandths}
use faas_share.Kube.WorkQueue.KeyList.{keys}
use faas_share.DeviceManager.Controller.{Api}
use faas_share.DeviceManager.Queue.{ControllerEvent, deployment_added, worked, System}

abbrev failing : Api
failing = record {
  split_key = λ k. some ("fn", k);
  get_deployment = λ ns n. failed;
  pods_of = λ d. none;
  patch_result = λ p. p;
  get_replica_set = λ ns n. none;
}

abbrev events : List ControllerEvent
events = deployment_added (some "a") ∷ worked failing "a" ∷ []

abbrev empty : System thousandths keys
empty = record { state = record { nodes = []; statuses = []; calls = [] }; queue = [] }

abbrev waiting : System thousandths keys
waiting = record empty { queue = "a" ∷ [] }
