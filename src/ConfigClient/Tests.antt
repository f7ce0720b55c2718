-- ===== src/ConfigClient/Tests.antt =====
-- Two pods on a GPU, as the agent of the node writes them down.
use faas_share.Common.{pos, List, [], ◌∷◌}
use faas_share.Kube.Thousandths.{thousandths}
use faas_share.DeviceManager.State.{PodRequest}
use faas_share.ConfigClient.{Files}

abbrev two_pods : List (PodRequest thousandths)
two_pods =
    record { key = "ns/a"; request = 300; limit = 500; memory = pos 1024; port = pos 50051 }
    ∷ record { key = "ns/b"; request = 400; limit = 500; memory = pos 2048; port = pos 50052 }
    ∷ []

abbrev no_files : Files
no_files = record { gpu_config = []; pod_manager_port = [] }
