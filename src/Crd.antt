-- ===== src/Crd.antt =====
-- The specifications of api/v1alpha1 that `TypesenseClusterSpec` refers to.
use typesense_operator.Base.{Text, ℕ, Bool, Option, List}
use typesense_operator.Base.Dict.{Dict}
use typesense_operator.Base.Int.{ℤ}
use typesense_operator.Kube.{Volume, VolumeMount}

pub record SecurityContextSpec : Type 0 where
  pub pod : Option Text
  pub typesense : Option Text
  pub healthcheck : Option Text
  pub metrics : Option Text

pub record DocSearchScraperSpec : Type 0 where
  pub name : Text
  pub image : Text
  pub config : Text
  pub schedule : Text
  pub auth_configuration : Option Text

pub record MetricsExporterSpec : Type 0 where
  pub release : Text
  pub image : Text
  pub interval_in_seconds : ℕ
  pub resources : Option Text
  pub log_level : ℤ

pub record HealthCheckSpec : Type 0 where
  pub image : Text
  pub resources : Option Text
  pub log_level : ℤ

pub record StorageSpec : Type 0 where
  pub size : Text
  pub storage_class_name : Text
  pub access_mode : Text
  pub annotations : Dict Text

pub record GatewayParentRef : Type 0 where
  pub name : Text
  pub namespace : Option Text
  pub section_name : Option Text

pub record HttpRouteSpec : Type 0 where
  pub enabled : Bool
  pub name : Text
  pub parent_ref : GatewayParentRef
  pub hostnames : List Text
  pub path : Text
  pub path_type : Option Text
  pub labels : Dict Text
  pub annotations : Dict Text
  pub reference_grant : Option Bool

-- A topology spread constraint: its own label selector, if it has one, and the rest.
pub record TopologySpreadConstraint : Type 0 where
  pub label_selector : Option (Dict Text)
  pub rest : Text

pub record ReadOnlyRootFilesystemSpec : Type 0 where
  pub security_context : Option Text
  pub volumes : List Volume
  pub volume_mounts : List VolumeMount

pub record IngressSpec : Type 0 where
  pub referer : Option Text
  pub host : Text
  pub http_directives : Option Text
  pub server_directives : Option Text
  pub location_directives : Option Text
  pub cluster_issuer : Option Text
  pub ingress_class_name : Text
  pub service_annotations : Dict Text
  pub annotations : Dict Text
  pub tls_secret_name : Option Text
  pub resources : Option Text
  pub image : Text
  pub read_only_root_filesystem : Option ReadOnlyRootFilesystemSpec
  pub path : Text
  pub path_type : Option Text
