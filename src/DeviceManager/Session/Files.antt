-- ===== src/DeviceManager/Session/Files.antt =====
-- The messages that a registration sends, read by the agent of the node.
use text.Mathlib.TextLemmas.{append-nil as append-nil_text}
use faas_share.Common.{
  String, List, [], ◌∷◌, map, All, Map, count_char, str_eq, ◌+++◌, if◌then◌else◌, ◌≡◌,
}
use faas_share.Kube.{Float64}
use faas_share.ConfigClient.{Files, Disk, write_file}
use faas_share.ConfigClient.RoundTrip.{Plain, lines_file, config_line, port_line}
use faas_share.DeviceManager.State.{
  Call, write, close, go_create_dummy, create_pod, delete_pod, go_get_uuid, add, add_rate_limited,
  forget, done, annotate_node, patch, event, PodRequest, GpuInfo, State,
}
use faas_share.DeviceManager.Config.{config_message}

-- What has been written to a connection.
abbrev sent_by : String → Call → String
sent_by conn (write c text) = if str_eq c conn then text else ""
sent_by conn (close c) = ""
sent_by conn (go_create_dummy a b) = ""
sent_by conn (create_pod a b c) = ""
sent_by conn (delete_pod a) = ""
sent_by conn (go_get_uuid a b c) = ""
sent_by conn (add a) = ""
sent_by conn (add_rate_limited a) = ""
sent_by conn (forget a) = ""
sent_by conn (done a) = ""
sent_by conn (annotate_node a b) = ""
sent_by conn (patch a b c d) = ""
sent_by conn (event a) = ""

abbrev pub sent : String → List Call → String
sent conn [] = ""
sent conn (c ∷ cs) = sent_by conn c +++ sent conn cs

module _ (fl : Float64) where
  -- A request whose key does not separate parts, items or lines.
  abbrev pub IsPlainRequest : PodRequest fl → Type 0
  IsPlainRequest p = Plain p.key × (count_char b'\n' p.key ≡ 0)

  abbrev pub IsPlainGpuInfo : String × GpuInfo fl → Type 0
  IsPlainGpuInfo (id, g) =
      (count_char b':' g.uuid ≡ 0) × (count_char b'\n' g.uuid ≡ 0) × All IsPlainRequest g.pod_list

  -- The files of the agent after it has read a message for each GPU: those of its two files that
  -- can be created.
  abbrev pub files_after : Disk → Map (GpuInfo fl) → Files → Files
  files_after disk [] f = f
  files_after disk ((id, g) ∷ gs) f = files_after disk gs (record {
    gpu_config =
        write_file (disk.config_created g.uuid) g.uuid
          (lines_file (map (config_line fl) g.pod_list)) f.gpu_config;
    pod_manager_port =
        write_file (disk.port_created g.uuid) g.uuid (lines_file (map (port_line fl) g.pod_list))
          f.pod_manager_port;
  })

  module _ (printed : (x : fl.F) → Plain (fl.print x) × (count_char b'\n' (fl.print x) ≡ 0)) where
    -- The messages for the GPUs of a node, one after the other.
    abbrev messages : Map (GpuInfo fl) → String
    messages [] = ""
    messages ((id, g) ∷ gs) = config_message fl g.uuid g.pod_list +++ "\n" +++ messages gs
