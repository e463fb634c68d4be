-- ===== src/Tests/Sample.antt =====
-- A cluster with one stateful set, one config map and its pods, and an API server that stores what
-- it accepts.
use typesense_operator.Base.{
  refl, Text, codes, contains_text, ℕ, true, false, Option, none, some, List, [], ◌∷◌, ◌++◌,
  if◌then◌else◌,
}
use typesense_operator.Base.Int.{pos}
use typesense_operator.Base.Exec.{not_found, ok, err}
use typesense_operator.Api.{
  ObjectKey, PodCondition, Pod, ConfigMap, Container, PodSpec, StatefulSet, TypesenseCluster,
}
use typesense_operator.Api.Client.{Client, World, body}
use typesense_operator.Tests.Tables.{read_entry}
use typesense_operator.Node.{leader, follower, NodeStatus}
use typesense_operator.Api.Semantic.{Semantic, IsReflexive}
use typesense_operator.Tests.Store.{Store, no_objects, or_missing, accept}

abbrev status_at : Text → Option NodeStatus
status_at url = some (record {
  committed_index = pos 7;
  queued_writes = pos 3;
  state = if contains_text url (codes "10.0.0.1") then leader else follower;
})

abbrev pub cluster : TypesenseCluster
cluster = record {
  namespace = codes "search";
  name = codes "ts";
  image = codes "typesense:28.0";
  image_pull_secrets = [];
  replicas = 3;
  api_port = 8108;
  peering_port = 8107;
  reset_peers_on_error = true;
  enable_cors = false;
  force_reset_peers_config_on_update = true;
  incremental_quorum_recovery = false;
  admin_api_key = none;
  resources = none;
  affinity = none;
  node_selector = [];
  tolerations = [];
  security_context = none;
  additional_server_configuration = none;
  ignore_annotations_from_external_mutations = [];
  cors_domains = none;
  service_annotations = [];
  stateful_set_annotations = [];
  pod_annotations = [];
  pods_inherit_stateful_set_annotations = false;
  priority_class_name = none;
  storage = none;
  ingress = none;
  has_http_routes = false;
  http_routes = [];
  scrapers = [];
  metrics = none;
  health_check = none;
  topology_spread_constraints = [];
  pod_management_policy = none;
  termination_grace_period_seconds = none;
  conditions =
      record {
        kind = codes "Ready";
        status = codes "False";
        reason = codes "QuorumDowngraded";
        message = [];
      }
      ∷ [];
  phase = codes "QuorumDowngraded";
}

-- The node at 10.0.0.1 leads, every node is healthy.
abbrev pub sample_client : Client
sample_client = record {
  State = Store;
  get_cluster = λ key s. (ok cluster, s);
  get_stateful_set = λ key s. (or_missing s.stateful_set, s);
  get_config_map = λ key s. (or_missing s.config_map, s);
  get_secret = λ key s. (or_missing s.secret, s);
  get_pod = λ key s. (err (not_found key.name), s);
  get_service = λ key s. (read_entry (λ x. x.meta) key s.objects.services, s);
  get_deployment = λ key s. (err (not_found key.name), s);
  get_ingress = λ key s. (err (not_found key.name), s);
  get_pod_monitor = λ key s. (read_entry (λ x. x.meta) key s.objects.pod_monitors, s);
  get_cron_job = λ key s. (read_entry (λ x. x.meta) key s.objects.cron_jobs, s);
  get_http_route = λ key s. (err (not_found key.name), s);
  get_reference_grant = λ key s. (read_entry (λ x. x.meta) key s.objects.grants, s);
  list_cron_jobs = λ ns labels s. (ok s.objects.listed_jobs, s);
  list_http_routes = λ ns labels s. (ok [], s);
  list_reference_grants = λ labels s. (ok [], s);
  list_clusters = λ s. (ok [], s);
  server_version = λ s. (ok (codes "v1.30.0"), s);
  server_groups = λ s. (ok [], s);
  Version = Text;
  parse_version = ok;
  at_least = λ a b. true;
  own = λ ts o. ok tt;
  own_by_ingress = λ ig o. ok tt;
  own_config_map_by_ingress = λ ig cm. ok cm;
  list_pods = λ ns labels s. (ok s.pods, s);
  list_endpoint_slices = λ ns service s. (ok s.slices, s);
  send = λ r s. (ok tt, accept r s);
  get_logs = λ ns name s. (ok (codes "all is well"), s);
  http_get = λ url key s. (body url, s);
  decode_status = status_at;
  decode_health = λ b. some (record { healthy = true; resource_error = none });
  random = λ n s. (ok (codes "random"), s);
  base64 = λ s. s;
  now = λ s. (codes "2025-01-01T00:00:00Z", s);
  http_client = ok tt;
  in_cluster = true;
  proxy_url = λ ns pod path. pod ++ path;
  join_path = λ host path. ok (host ++ path);
  parse_ip = λ ip. ip;
  to_title = λ s. s;
  set_status_condition = λ conditions c. c ∷ [];
  set_controller_reference = λ ts cm. ok cm;
  set_secret_controller_reference = λ ts s. ok s;
  own_stateful_set = λ ts s. ok s;
  hash_template = λ input. ok (codes "hash");
}

abbrev pub key : ObjectKey
key = record { namespace = codes "search"; name = codes "ts-sts" }

abbrev pub container : Container
container = record {
  name = codes "typesense";
  image = codes "typesense:28.0";
  image_pull_policy = codes "IfNotPresent";
  resources = [];
  security_context = none;
  ports = [];
  env = [];
  env_from = [];
  volume_mounts = [];
}

abbrev pub pod_spec : PodSpec
pod_spec = record {
  termination_grace_period_seconds = some 5;
  readiness_gates = [];
  priority_class_name = [];
  image_pull_secrets = [];
  affinity = none;
  node_selector = [];
  tolerations = [];
  topology_spread_constraints = [];
  volumes = [];
}

abbrev pub set_of : ℕ → StatefulSet
set_of n = record {
  namespace = codes "search";
  name = codes "ts-sts";
  labels = [];
  annotations = [];
  spec_replicas = some n;
  pod_management_policy = codes "Parallel";
  match_labels = (codes "app", codes "ts-sts") ∷ [];
  service_name = codes "ts-sts-svc";
  template_labels = [];
  template_annotations = [];
  pod_security_context = codes "runAsUser:10000,fsGroup:2000,runAsGroup:3000,runAsNonRoot:true";
  containers = container ∷ container ∷ container ∷ [];
  pod = pod_spec;
  volume_claims = [];
  status_replicas = n;
  ready_replicas = n;
}

abbrev pub unschedulable : PodCondition
unschedulable = record {
  kind = codes "PodScheduled";
  status = codes "False";
  reason = codes "Unschedulable";
  message = [];
}

abbrev pub pod_at : Text → Text → Pod
pod_at name ip = record {
  namespace = codes "search";
  name = name;
  annotations = [];
  phase = codes "Running";
  pod_ip = ip;
  deleting = false;
  conditions = [];
}

abbrev pub pending_pod : Pod
pending_pod = record (pod_at (codes "ts-sts-2") []) {
  phase = codes "Pending";
  conditions = unschedulable ∷ [];
}

abbrev pub three_pods : List Pod
three_pods =
    pod_at (codes "ts-sts-1") (codes "10.0.0.2")
    ∷ pod_at (codes "ts-sts-0") (codes "10.0.0.1")
    ∷ pod_at (codes "ts-sts-2") (codes "10.0.0.3")
    ∷ []

abbrev pub nodes_map : Text → ConfigMap
nodes_map nodes = record {
  namespace = codes "search";
  name = codes "ts-nodeslist";
  entries = (codes "nodes", nodes) ∷ (codes "fallback", nodes) ∷ [];
}

abbrev pub by_address : ConfigMap
by_address = nodes_map (codes "10.0.0.1:8107:8108,10.0.0.2:8107:8108,10.0.0.3:8107:8108")

abbrev pub start : ℕ → World sample_client
start n = record {
  state = record {
    stateful_set = some (set_of n);
    config_map = some by_address;
    secret = none;
    pods = three_pods;
    slices = [];
    objects = no_objects;
  };
  writes = [];
}

abbrev pub no_set : World sample_client
no_set = record {
  state = record {
    stateful_set = none;
    config_map = some by_address;
    secret = none;
    pods = [];
    slices = [];
    objects = no_objects;
  };
  writes = [];
}

-- Comparisons that find everything equal.
abbrev pub lax : Semantic
lax = record {
  equal_maps = λ a b. true;
  equal_values = λ a b. true;
  equal_pointers = λ a b. true;
  equal_lists = λ a b. true;
  equal_parents = λ a b. true;
  equal_volumes = λ a b. true;
  equal_mounts = λ a b. true;
}

pub lax-IsReflexive : IsReflexive lax
lax-IsReflexive = record {
  maps = λ m. refl;
  same_maps = λ m n h. refl;
  values = λ v. refl;
  pointers = λ p. refl;
  lists = λ l. refl;
  parents = λ p. refl;
  volumes = λ l. refl;
  mounts = λ l. refl;
}
