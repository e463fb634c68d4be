-- ===== src/Api.antt =====
-- The objects of the Kubernetes API and of `api/v1alpha1` that the operator reads and writes, as
-- far as the modelled code uses their fields, and the API itself as a parameter (`Client`).
--
-- A structure that the operator only copies and compares (a security context, resource
-- requirements) is held as a text. A numeric field that the API server keeps from being negative
-- (replicas, ports) is a ℕ. A map that is nil and one that is empty are both `[]`.
pub mod Client
pub mod Spec
pub mod Semantic
use typesense_operator.Base.{Text, codes, ℕ, Bool, Option, some, none, List, ◌++◌}
use typesense_operator.Base.Dict.{Dict}
use typesense_operator.Kube.{ContainerPort, EnvVar, VolumeMount, Volume, VolumeClaim}
use typesense_operator.Crd.{
  SecurityContextSpec, DocSearchScraperSpec, MetricsExporterSpec, HealthCheckSpec, StorageSpec,
  HttpRouteSpec, IngressSpec, TopologySpreadConstraint,
}

pub record ObjectKey : Type 0 where
  pub namespace : Text
  pub name : Text

-- A condition of a pod's status.
pub record PodCondition : Type 0 where
  pub kind : Text
  pub status : Text
  pub reason : Text
  pub message : Text

pub record Pod : Type 0 where
  pub namespace : Text
  pub name : Text
  pub annotations : Dict Text
  pub phase : Text
  pub pod_ip : Text
  pub deleting : Bool  -- the deletion timestamp is set
  pub conditions : List PodCondition

pub record ConfigMap : Type 0 where
  pub namespace : Text
  pub name : Text
  pub entries : Dict Text  -- `Data`

pub record Secret : Type 0 where
  pub namespace : Text
  pub name : Text
  pub immutable : Bool
  pub entries : Dict Text

pub record Container : Type 0 where
  pub name : Text
  pub image : Text
  pub image_pull_policy : Text
  pub resources : Text
  pub security_context : Option Text
  pub ports : List ContainerPort
  pub env : List EnvVar
  pub env_from : List Text  -- the names of config maps
  pub volume_mounts : List VolumeMount

-- The part of a pod's specification beside its security context and its containers.
pub record PodSpec : Type 0 where
  pub termination_grace_period_seconds : Option ℕ
  pub readiness_gates : List Text
  pub priority_class_name : Text
  pub image_pull_secrets : List Text
  pub affinity : Option Text
  pub node_selector : Dict Text
  pub tolerations : List Text
  pub topology_spread_constraints : List TopologySpreadConstraint
  pub volumes : List Volume

pub record StatefulSet : Type 0 where
  pub namespace : Text
  pub name : Text
  pub labels : Dict Text
  pub annotations : Dict Text
  pub spec_replicas : Option ℕ
  pub pod_management_policy : Text
  pub match_labels : Dict Text
  pub service_name : Text
  pub template_labels : Dict Text
  pub template_annotations : Dict Text
  pub pod_security_context : Text
  pub containers : List Container
  pub pod : PodSpec
  pub volume_claims : List VolumeClaim
  pub status_replicas : ℕ
  pub ready_replicas : ℕ

pub record Endpoint : Type 0 where
  pub addresses : List Text
  pub target_kind : Option Text  -- `TargetRef.Kind`, if there is a `TargetRef`

pub record EndpointSlice : Type 0 where
  pub endpoints : List Endpoint

-- A condition of a `TypesenseCluster`.
pub record Condition : Type 0 where
  pub kind : Text
  pub status : Text
  pub reason : Text
  pub message : Text

-- `TypesenseCluster`: its name, and the fields of its spec and status that the modelled code reads.
pub record TypesenseCluster : Type 0 where
  pub namespace : Text
  pub name : Text
  pub image : Text
  pub image_pull_secrets : List Text
  pub replicas : ℕ
  pub api_port : ℕ
  pub peering_port : ℕ
  pub reset_peers_on_error : Bool
  pub enable_cors : Bool
  pub force_reset_peers_config_on_update : Bool
  pub incremental_quorum_recovery : Bool
  pub admin_api_key : Option Text  -- the name of a secret
  pub resources : Option Text
  pub affinity : Option Text
  pub node_selector : Dict Text
  pub tolerations : List Text
  pub security_context : Option SecurityContextSpec
  pub additional_server_configuration : Option Text
  pub ignore_annotations_from_external_mutations : List Text
  pub cors_domains : Option Text
  pub service_annotations : Dict Text
  pub stateful_set_annotations : Dict Text
  pub pod_annotations : Dict Text
  pub pods_inherit_stateful_set_annotations : Bool
  pub priority_class_name : Option Text
  pub storage : Option StorageSpec
  pub ingress : Option IngressSpec
  pub has_http_routes : Bool  -- `HttpRoutes != nil`, also where the list is written out and empty
  pub http_routes : List HttpRouteSpec
  pub scrapers : List DocSearchScraperSpec
  pub metrics : Option MetricsExporterSpec
  pub health_check : Option HealthCheckSpec
  pub topology_spread_constraints : List TopologySpreadConstraint
  pub pod_management_policy : Option Text
  pub termination_grace_period_seconds : Option ℕ
  pub conditions : List Condition
  pub phase : Text

-- `"%s-sts"`, of the stateful set and of the label `app` of its pods
abbrev pub cluster_stateful_set : TypesenseCluster → Text
cluster_stateful_set ts = ts.name ++ codes "-sts"

-- `"%s-nodeslist"`
abbrev pub cluster_nodes_config_map : TypesenseCluster → Text
cluster_nodes_config_map ts = ts.name ++ codes "-nodeslist"

abbrev pub stateful_set_key : TypesenseCluster → ObjectKey
stateful_set_key ts = record { namespace = ts.namespace; name = cluster_stateful_set ts }

abbrev pub config_map_key : TypesenseCluster → ObjectKey
config_map_key ts = record { namespace = ts.namespace; name = cluster_nodes_config_map ts }
