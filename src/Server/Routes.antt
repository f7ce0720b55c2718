-- ===== src/Server/Routes.antt =====
-- server.go and info.go of pkg/server, and version/version.go: which handler serves which request,
-- and with which namespace. Calls of functions and logs are the subject of Proxy and Logs.
pub mod Confined
use faas_share.Common.{ℕ, String, Bool, Option, none, some, List, [], ◌∷◌, is_empty, if◌then◌else◌}
use faas_share.Server.{Cluster, Codec, Event, header, write, Handled, finished}
use faas_share.Server.Handlers.{
  apply_handler, delete_handler, list_handler, replica_reader, replica_handler, health_reader,
}
use faas_share.Server.Namespaces.{namespaces_lister}

-- `BuildVersion`
unfoldable pub build_version : String → String
build_version version = if is_empty version then "dev" else version

-- What the build and the environment set: the commit, the version, the variable `function_namspace`,
-- and the JSON text of `ProviderInfo` from its commit and its release.
pub record Setup : Type 0 where
  pub git_commit : String
  pub version : String
  pub function_namspace : Option String
  pub cluster_role : Bool
  pub write_info : String → String → Option String

-- `sharepodNamespace` of `New`
unfoldable pub sharepod_namespace : Setup → String
sharepod_namespace setup = elim setup.function_namspace [ none ↦ "faas-share-fn" | some ns ↦ ns ]

-- `makeInfoHandler`, with `GetReleaseInfo`
unfoldable pub info_handler : Setup → List Event
unfolding build_version
info_handler setup = elim (setup.write_info setup.git_commit (build_version setup.version)) [
  | none ↦ header 500 ∷ write "Failed to marshal info" ∷ []
  | some text ↦ header 200 ∷ write text ∷ []
]

-- The requests by the field of `FaaSHandlers` that serves them; the query is that of `namespace`.
pub data Request : Type 0 where
  delete : String → Option String → Request
  deploy : Option String → Request
  read_functions : String → Request
  read_replicas : String → String → Request
  update_replicas : String → String → Option String → Request
  update health info : Request
  list_namespaces : Request

-- `New`: the handler of each field.
unfoldable pub serve : Setup → Cluster → Codec → Request → Handled
unfolding sharepod_namespace apply_handler delete_handler list_handler replica_reader
    replica_handler info_handler namespaces_lister
serve setup cluster codec (delete query body) =
    delete_handler cluster codec (sharepod_namespace setup) query body
serve setup cluster codec (deploy body) =
    apply_handler cluster codec (sharepod_namespace setup) body
serve setup cluster codec (read_functions query) =
    finished (list_handler cluster codec (sharepod_namespace setup) query)
serve setup cluster codec (read_replicas query name) =
    finished (replica_reader cluster codec (sharepod_namespace setup) query name)
serve setup cluster codec (update_replicas query name body) =
    finished (replica_handler cluster codec (sharepod_namespace setup) query name body)
serve setup cluster codec update = finished health_reader
serve setup cluster codec health = finished health_reader
serve setup cluster codec info = finished (info_handler setup)
serve setup cluster codec list_namespaces =
    finished (namespaces_lister cluster codec (sharepod_namespace setup) setup.cluster_role)
