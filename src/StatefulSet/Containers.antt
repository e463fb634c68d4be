-- ===== src/StatefulSet/Containers.antt =====
-- The three containers that `buildStatefulSet` puts into the template of a pod.
use typesense_operator.Base.{Text, codes, decimal, itoa, ℕ, Bool, true, false, List, [], ◌∷◌}
use typesense_operator.Kube.{ContainerPort, VolumeMount, pod_field}
use typesense_operator.Api.{Container, TypesenseCluster}
use typesense_operator.Api.Spec.{
  get_resources, get_typesense_security_context, get_healthcheck_security_context,
  get_metrics_security_context, get_additional_server_configuration, get_cors_domains,
  get_metrics_exporter_specs, get_metrics_exporter_resources, get_health_check_sidecar_specs,
  get_health_check_sidecar_resources,
}
use typesense_operator.Scraper.{api_key_var, plain_var}

abbrev pub metrics_port : ℕ
metrics_port = 9100

-- `strconv.FormatBool`
abbrev pub format_bool : Bool → Text
format_bool true = codes "true"
format_bool false = codes "false"

abbrev port_of : Text → ℕ → List ContainerPort
port_of name n = record { name = name; container_port = n } ∷ []

-- The mount of the config map with the nodes.
abbrev nodes_mount : Bool → VolumeMount
nodes_mount read_only = record {
  name = codes "nodeslist";
  mount_path = codes "/usr/share/typesense";
  sub_path = [];
  read_only = read_only;
}

unfoldable pub typesense_container : TypesenseCluster → Container
typesense_container ts = record {
  name = codes "typesense";
  image = ts.image;
  image_pull_policy = codes "IfNotPresent";
  resources = get_resources ts;
  security_context = get_typesense_security_context ts;
  ports = port_of (codes "http") ts.api_port;
  env =
      api_key_var ts
      ∷ plain_var (codes "TYPESENSE_NODES") (codes "/usr/share/typesense/nodes")
      ∷ plain_var (codes "TYPESENSE_DATA_DIR") (codes "/usr/share/typesense/data")
      ∷ plain_var (codes "TYPESENSE_API_PORT") (decimal ts.api_port)
      ∷ plain_var (codes "TYPESENSE_PEERING_PORT") (decimal ts.peering_port)
      ∷ record {
        name = codes "TYPESENSE_PEERING_ADDRESS";
        source = pod_field (codes "status.podIP");
      }
      ∷ plain_var (codes "TYPESENSE_ENABLE_CORS") (format_bool ts.enable_cors)
      ∷ plain_var (codes "TYPESENSE_CORS_DOMAINS") (get_cors_domains ts)
      ∷ plain_var (codes "TYPESENSE_RESET_PEERS_ON_ERROR") (format_bool ts.reset_peers_on_error)
      ∷ [];
  env_from = get_additional_server_configuration ts;
  volume_mounts =
      nodes_mount false
      ∷ record {
        name = codes "data";
        mount_path = codes "/usr/share/typesense/data";
        sub_path = [];
        read_only = false;
      }
      ∷ [];
}

unfoldable pub metrics_container : TypesenseCluster → Container
metrics_container ts = record {
  name = codes "metrics-exporter";
  image = (get_metrics_exporter_specs ts).image;
  image_pull_policy = codes "IfNotPresent";
  resources = get_metrics_exporter_resources ts;
  security_context = get_metrics_security_context ts;
  ports = port_of (codes "metrics") metrics_port;
  env =
      api_key_var ts
      ∷ plain_var (codes "LOG_LEVEL") (itoa (get_metrics_exporter_specs ts).log_level)
      ∷ plain_var (codes "TYPESENSE_PROTOCOL") (codes "http")
      ∷ plain_var (codes "TYPESENSE_HOST") (codes "localhost")
      ∷ plain_var (codes "TYPESENSE_PORT") (decimal ts.api_port)
      ∷ plain_var (codes "METRICS_PORT") (decimal metrics_port)
      ∷ plain_var (codes "TYPESENSE_CLUSTER") ts.name
      ∷ [];
  env_from = [];
  volume_mounts = [];
}

unfoldable pub healthcheck_container : TypesenseCluster → Container
healthcheck_container ts = record {
  name = codes "healthcheck";
  image = (get_health_check_sidecar_specs ts).image;
  image_pull_policy = codes "IfNotPresent";
  resources = get_health_check_sidecar_resources ts;
  security_context = get_healthcheck_security_context ts;
  ports = port_of (codes "healthcheck") 8808;
  env =
      api_key_var ts
      ∷ plain_var (codes "LOG_LEVEL") (itoa (get_health_check_sidecar_specs ts).log_level)
      ∷ plain_var (codes "TYPESENSE_PROTOCOL") (codes "http")
      ∷ plain_var (codes "TYPESENSE_API_PORT") (decimal ts.api_port)
      ∷ plain_var (codes "TYPESENSE_PEERING_PORT") (decimal ts.peering_port)
      ∷ plain_var (codes "HEALTHCHECK_PORT") (decimal 8808)
      ∷ plain_var (codes "TYPESENSE_NODES") (codes "/usr/share/typesense/fallback")
      ∷ plain_var (codes "CLUSTER_NAMESPACE") ts.namespace
      ∷ [];
  env_from = [];
  volume_mounts = nodes_mount true ∷ [];
}
