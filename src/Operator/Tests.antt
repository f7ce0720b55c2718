-- ===== src/Operator/Tests.antt =====
-- A SharePod with one container, and the operator on it.
use faas_share.Common.{
  pos, true, false, none, some, [], ◌∷◌, lookup, parse_int, to_int32, ◌≡◌, refl, insert,
}
use faas_share.Kube.{found, not_found, failed}
use faas_share.Operator.Sync.{Api, created, create_service, new_service}
use faas_share.Operator.Sync.{sync_share_pod, create_deployment, event}
use faas_share.Operator.Sync.Settled.{sync_share_pod-settled}
use faas_share.Operator.Deployment.{
  Json, SharePod, Deployment, PodSpec, SpecContainer, new_deployment, deployment_needs_update,
  get_replicas, min_replicas, label_min_replicas,
}
use faas_share.Operator.Deployment.Laws.{Kept, get_replicas-Largest, deployment_needs_update-new}

abbrev main_container : SpecContainer
main_container = record {
  name = "main";
  image = "fn:1";
  security_context = none;
  volume_mounts = [];
}

abbrev spec : PodSpec
spec = record { containers = main_container ∷ []; volumes = []; node_name = "" }

abbrev fn : SharePod
fn = record {
  namespace = "ns";
  name = "fn";
  uid = "u1";
  labels = (label_min_replicas, "2") ∷ [];
  annotations = [];
  spec = spec;
}

abbrev json : Json
json = record { marshal = λ s. some "{}"; unmarshal = λ t. some spec; same = λ a b. true }

abbrev made : Deployment
made = record {
  namespace = "ns";
  name = "fn";
  controlled_by = some "u1";
  annotations = ("prometheus.io.scrape", "false") ∷ ("faas-sahre.sharepod.spec", "{}") ∷ [];
  replicas = some (pos 2);
  match_labels = ("app", "fn") ∷ ("controller", "fn") ∷ [];
  template_labels =
      ("faas_function", "fn")
      ∷ ("app", "fn")
      ∷ ("controller", "fn")
      ∷ (label_min_replicas, "2")
      ∷ [];
  template_annotations =
      ("prometheus.io.scrape", "false") ∷ ("faas-sahre.sharepod.spec", "{}") ∷ [];
  spec = record spec {
    containers =
        record main_container {
          security_context = some (record {
            allow_privilege_escalation = some false;
            run_as_user = some (pos 12000);
            read_only_root_filesystem = none;
          });
        }
        ∷ [];
  };
}

get_replicas-Largest_example : Kept (pos 2) (pos 2) (get_replicas fn.labels (some made))
unfolding min_replicas lookup parse_int to_int32
get_replicas-Largest_example = get_replicas-Largest fn.labels made (pos 2) (pos 2) refl refl

deployment_needs_update-new_example : deployment_needs_update json fn made ≡ false
unfolding new_deployment lookup min_replicas parse_int to_int32 insert
deployment_needs_update-new_example =
    deployment_needs_update-new json true fn none made refl "{}" spec fn refl refl refl

-- The lister fails on the deployment.
abbrev failing : Api
failing = record {
  split_key = λ k. some ("ns", "fn");
  get_share_pod = λ ns n. found fn;
  get_deployment = λ ns n. failed;
  create_deployment = λ d. some d;
  update_accepted = λ d. true;
  get_service = λ ns n. not_found;
  create_service = λ s. created;
}

-- The spec with a read-only file system.
abbrev read_only_spec : PodSpec
read_only_spec = record spec {
  volumes = record { name = "temp"; host_path = ""; projected = none } ∷ [];
  containers =
      record main_container {
        security_context = some (record {
          allow_privilege_escalation = none;
          run_as_user = none;
          read_only_root_filesystem = some true;
        });
        volume_mounts = record { name = "temp"; mount_path = "/tmp"; read_only = false } ∷ [];
      }
      ∷ [];
}

abbrev empty_api : Api
empty_api = record failing { get_deployment = λ ns n. not_found; create_deployment = λ d. some d }

abbrev full_api : Api
full_api = record failing {
  get_deployment = λ ns n. found made;
  get_service = λ ns n. found (new_service fn);
}

sync_share_pod-settled_example :
    (sync_share_pod json true empty_api fn
      ≡ some
          (create_deployment made ∷ create_service (new_service fn) ∷ event "Synced" ∷ [], false))
    × (sync_share_pod json true full_api fn ≡ some (event "Synced" ∷ [], false))
unfolding new_deployment lookup min_replicas parse_int to_int32 insert
sync_share_pod-settled_example =
    sync_share_pod-settled json true fn made (new_service fn) "{}" empty_api full_api refl refl refl
      refl refl refl refl refl refl refl refl
