-- ===== src/DeviceManager/Session/Tests.antt =====
-- A node with two GPUs, whose agent sends three heartbeats.
use faas_share.Common.{
  String, pos, some, List, [], ◌∷◌, ◌+◌, count_char, show_int, read_lines, ◌≡◌, refl,
}
use faas_share.Kube.{found}
use faas_share.Kube.Thousandths.{thousandths}
use faas_share.ConfigClient.{Files, Disk}
use faas_share.Common.{not, is_empty}
use faas_share.ConfigClient.Session.{agent_writes}
use faas_share.DeviceManager.State.{State, GpuInfo, NodeStatus, ready}
use faas_share.DeviceManager.Session.{World, client_handler}
use faas_share.DeviceManager.Session.Devices.{Gpu, devices}
use faas_share.DeviceManager.Session.Agent.{Served, client_handler-agent}

abbrev world : World
world = record {
  get_pod = λ hostname. found "n1";
  failed_node = "";
  annotations = λ node. [];
  now = λ i. pos (i + 100);
}

abbrev idle : State thousandths
idle = record { nodes = []; statuses = []; calls = [] }

abbrev gpus : List Gpu
gpus = ("GPU-a", 16160) ∷ ("GPU-b", 16160) ∷ []

abbrev session_text : String
session_text = "hostname:agent-1\nGPU-a:16160,GPU-b:16160,\nheartbeat!\nheartbeat!\nheartbeat!\n"

written : agent_writes "agent-1" (devices gpus) 3 ≡ some session_text
unfolding agent_writes show_int
written = refl

client_handler-agent_example :
    Served thousandths world "n1" "10.0.0.7:4321" gpus idle 3
      (client_handler thousandths world "10.0.0.7:4321" (read_lines session_text) idle)
unfolding count_char
client_handler-agent_example =
    client_handler-agent thousandths world "n1" "10.0.0.7:4321" gpus idle
      ((((refl, refl), refl), (((refl, refl), refl), tt))) (((refl, tt), (tt, tt))) "agent-1"
      session_text 3 refl refl refl written

abbrev shared_gpu : GpuInfo thousandths
shared_gpu = record {
  uuid = "GPU-a";
  usage = 700;
  mem = pos 3072;
  pod_list =
      record { key = "ns/a"; request = 300; limit = 500; memory = pos 1024; port = pos 50051 }
      ∷ record { key = "ns/b"; request = 400; limit = 500; memory = pos 2048; port = pos 50052 }
      ∷ [];
}

abbrev online : NodeStatus
online = record { conn = "10.0.0.7:4321"; last_heartbeat = pos 100; client_status = ready }

abbrev serving : State thousandths
serving = record { nodes = []; statuses = ("n1", online) ∷ []; calls = [] }

abbrev no_files : Files
no_files = record { gpu_config = []; pod_manager_port = [] }

-- Any name but the empty one.
abbrev disk : Disk
disk = record { config_created = λ n. not (is_empty n); port_created = λ n. not (is_empty n) }
