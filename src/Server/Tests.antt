-- ===== src/Server/Tests.antt =====
-- A cluster with one deployment, and the handlers on it.
use faas_share.Common.{
  pos, true, false, lookup, none, some, [], ◌∷◌, All, ◌≡◌, ◌<◌, ◌^◌, ◌↔◌, refl, str_eq_iff,
}
use faas_share.Operator.Deployment.{SharePod, Deployment, get_replicas, label_min_replicas}
use faas_share.Kube.{found, not_found}
use faas_share.Operator.Deployment.{Json}
use faas_share.Operator.Sync
use faas_share.Operator.Sync.{
  Service, create_deployment, create_service, created, event, sync_handler,
}
use faas_share.Server
use faas_share.Server.Deployed.{
  Posted, Runs, request_of, requested_spec, share_pod_of, apply_handler-deployed,
}
use faas_share.Server.Routes.{Setup, update_replicas, serve, sharepod_namespace}
use faas_share.Server.Routes.Confined.{May, serve-May}
use faas_share.Server.{finished, header, create_share_pod}
use faas_share.Server.{ok, parsed, ApplyRequest, Cluster, Codec}
use faas_share.Server.Handlers.{apply_handler, replica_handler, delete_handler}
use faas_share.Server.Namespaces.{post, requested_namespace, resolve_namespace, resolved}
use faas_share.Server.Namespaces.Laws.{Allowed, resolve_namespace-Allowed}
use faas_share.Server.Places.{events_of}
use faas_share.Server.Status.{Told, ToldBy, handlers-Told}
use faas_share.Server.Scaling.{sent_by, replica_handler-bounds}

abbrev small : Deployment
small = record {
  namespace = "fn";
  name = "echo";
  controlled_by = none;
  annotations = [];
  replicas = some (pos 1);
  match_labels = [];
  template_labels = [];
  template_annotations = [];
  spec = record { containers = []; volumes = []; node_name = "" };
}

abbrev present : SharePod
present = record {
  namespace = "fn";
  name = "echo";
  uid = "u";
  labels = [];
  annotations = ("kubeshare/gpu_mem", "100") ∷ [];
  spec = record { containers = []; volumes = []; node_name = "" };
}

abbrev request : ApplyRequest
request = record {
  service = "echo";
  namespace = "";
  containers = [];
  labels = some [];
  annotations = [];
}

abbrev cluster : Cluster
cluster = record {
  get_share_pod = λ ns n. ok present;
  list_share_pods = λ ns. ([], some "timeout");
  create_error = λ ns sp. none;
  update_error = λ ns sp. none;
  delete_error = λ ns n. some "gone";
  get_deployment = λ ns n. ok small;
  scale_error = λ ns d. none;
  status_replicas = λ ns n. none;
  list_namespaces = some (record { name = "dev"; annotations = ("faas-share", "1") ∷ [] } ∷ []);
}

abbrev codec : Codec
codec = record {
  read_apply = λ t. parsed request;
  read_scale = λ t. parsed 3;
  read_delete = λ t. parsed "echo";
  read_namespace = λ t. parsed (some "dev");
  write_status = λ s. some "{}";
  write_items = λ l. some "[]";
  write_names = λ l. some "[]";
}

resolve_namespace-Allowed_example :
    (resolve_namespace cluster codec "fn" post "" "{}" ≡ resolved "dev") ↔ (
      (requested_namespace codec "fn" post "" "{}" ≡ some "dev")
      × Allowed "fn" cluster.list_namespaces "dev")
resolve_namespace-Allowed_example = resolve_namespace-Allowed cluster codec "fn" post "" "{}" "dev"

handlers-Told_example :
    ToldBy cluster 202 (apply_handler cluster codec "fn" (some "{}"))
    × Told cluster 202 (replica_handler cluster codec "fn" "" "echo" (some "{}"))
    × ToldBy cluster 200 (delete_handler cluster codec "fn" "" (some "{}"))
handlers-Told_example = handlers-Told cluster codec "fn" "" "echo" (some "{}")

abbrev Scaled : Type 0
Scaled =
    (sent : Deployment) × (sent_by (replica_handler cluster codec "fn" "" "echo" (some "{}"))
      ≡ some sent)
    × ((sent.replicas ≡ some (pos 3)) ↔ (3 < 2 ^ 31))

replica_handler-bounds_example : Scaled
replica_handler-bounds_example =
    replica_handler-bounds cluster codec "fn" "" "echo" "{}" 3 small refl refl refl

abbrev Kept : Type 0
Kept =
    (sent : Deployment) × (sent_by (replica_handler cluster codec "fn" "" "echo" (some "{}"))
      ≡ some sent)
    × (get_replicas ((label_min_replicas, "2") ∷ []) (some sent) ≡ some (pos 3))

abbrev posted : Posted
posted = record {
  service = "hello";
  namespace = "";
  first = record { name = "main"; image = "hello:1"; security_context = none; volume_mounts = [] };
  others = [];
  labels = (label_min_replicas, "2") ∷ [];
  annotations = ("kubeshare/gpu_mem", "100") ∷ [];
}

abbrev empty_cluster : Cluster
empty_cluster = record cluster { get_share_pod = λ ns n. Server.not_found "none" }

abbrev posted_codec : Codec
posted_codec = record codec { read_apply = λ t. parsed (request_of posted) }

abbrev spec_json : Json
spec_json = record {
  marshal = λ s. some "{}";
  unmarshal = λ t. some (requested_spec posted);
  same = λ a b. true;
}

abbrev empty_api : Sync.Api
empty_api = record {
  split_key = λ k. some ("fn", "hello");
  get_share_pod = λ ns n. found (share_pod_of posted "fn" "u1");
  get_deployment = λ ns n. not_found;
  create_deployment = λ d. some d;
  update_accepted = λ d. true;
  get_service = λ ns n. not_found;
  create_service = λ s. created;
}

abbrev Deployed : Type 0
Deployed =
    (d : Deployment) × (s : Service) × Runs posted "fn" d s
    × (apply_handler empty_cluster posted_codec "fn" (some "{}")
        ≡ finished (create_share_pod "fn" (share_pod_of posted "fn" "") ∷ header 202 ∷ []))
    × (sync_handler spec_json true empty_api "fn/hello"
        ≡ some (create_deployment d ∷ create_service s ∷ event "Synced" ∷ [], false))

apply_handler-deployed_example : Deployed
unfolding lookup
apply_handler-deployed_example =
    apply_handler-deployed empty_cluster posted_codec "fn" posted spec_json true empty_api "{}"
      "none" "u1" "fn/hello" "{}" refl refl refl refl (refl, tt) refl refl refl refl refl refl refl
      refl (λ d. refl) refl (λ s. refl)

abbrev setup : Setup
setup = record {
  git_commit = "c";
  version = "";
  function_namspace = some "fn";
  cluster_role = true;
  write_info = λ commit release. some "{}";
}

serve-May_example :
    All
      (May codec "fn" (update_replicas "" "echo" (some "{}")))
      (events_of (serve setup cluster codec (update_replicas "" "echo" (some "{}"))))
unfolding sharepod_namespace
serve-May_example =
    serve-May setup cluster codec (update_replicas "" "echo" (some "{}"))
      (λ e. absurd (cc ((str_eq_iff "fn" "kube-system").1 e)))
