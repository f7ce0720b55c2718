-- ===== src/ConfigClient.antt =====
-- pkg/configclient/config-client.go: the agent of a node, which writes the files that the GPU
-- scheduler of the node reads. A file is the text under its name; creating one empties it.
pub mod RoundTrip
mod Tests
pub mod Session
use Prim.Native.Char.{Char}
use faas_share.Common.{
  String, ℤ, pos, Bool, true, false, Option, none, some, List, [], ◌∷◌, Map, insert, split,
  count_char, replace_char, show_int, ◌+++◌,
}

-- The two directories of files, by UUID.
pub record Files : Type 0 where
  pub gpu_config : Map String
  pub pod_manager_port : Map String

-- Whether `os.Create` answers a file of this name in either directory: a library call, which answers
-- none for the empty name, where the path is that of the directory.
pub record Disk : Type 0 where
  pub config_created : String → Bool
  pub port_created : String → Bool

-- A file that was created, with its text; to write to a file that is nil does nothing.
unfoldable pub write_file : Bool → String → String → Map String → Map String
write_file true uuid text m = insert uuid text m
write_file false uuid text m = m

-- What `handleRequest` writes for one of the lists.
unfoldable pub file_text : String → String
file_text items = show_int (pos (count_char b',' items)) +++ "\n" +++ replace_char b',' "\n" items

-- `handleRequest`
unfoldable pub handle_request : Disk → String → Files → Files
unfolding file_text write_file
handle_request disk r f = elim (split b':' r) [
  | uuid ∷ pods ∷ ports ∷ [] ↦ record {
    gpu_config = write_file (disk.config_created uuid) uuid (file_text pods) f.gpu_config;
    pod_manager_port =
        write_file (disk.port_created uuid) uuid (file_text ports) f.pod_manager_port;
  }
  | _ ↦ f
]
