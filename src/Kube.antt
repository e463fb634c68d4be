-- ===== src/Kube.antt =====
-- The objects of the Kubernetes API that the operator builds, as far as it fills and reads their
-- fields.
--
-- A structure that the operator only copies and compares (a security context, resource
-- requirements, an affinity) is held as a text. A pointer is an `Option`. A map that is nil and one
-- that is empty are both `[]`, and so are slices: `apiequality.Semantic.DeepEqual` does not tell
-- them apart. Owner references are not modelled.
use typesense_operator.Base.{Text, ℕ, Bool, Option, List}
use typesense_operator.Base.Dict.{Dict}

-- The part of `metav1.ObjectMeta` that the operator fills.
pub record Meta : Type 0 where
  pub namespace : Text
  pub name : Text
  pub labels : Dict Text
  pub annotations : Dict Text

-- `Value`, or a `ValueFrom`: a key of a secret, by the secret's name and the key, and a field of
-- the pod.
pub data EnvSource : Type 0 where
  plain : Text → EnvSource
  secret_key : Text → Text → EnvSource
  pod_field : Text → EnvSource

pub record EnvVar : Type 0 where
  pub name : Text
  pub source : EnvSource

pub record ContainerPort : Type 0 where
  pub name : Text
  pub container_port : ℕ

pub record VolumeMount : Type 0 where
  pub name : Text
  pub mount_path : Text
  pub sub_path : Text
  pub read_only : Bool

pub record ConfigMapSource : Type 0 where
  pub name : Text
  pub default_mode : Option ℕ

-- A volume; `rest` is a source of another kind.
pub record Volume : Type 0 where
  pub name : Text
  pub config_map : Option ConfigMapSource
  pub claim : Option Text
  pub rest : Text

pub record VolumeClaim : Type 0 where
  pub name : Text
  pub labels : Dict Text
  pub annotations : Dict Text
  pub access_modes : List Text
  pub size : Text
  pub storage_class_name : Text

-- The container of a scraper.
pub record JobContainer : Type 0 where
  pub name : Text
  pub image : Text
  pub env : List EnvVar
  pub env_from : List Text  -- the names of secrets
  pub resources : Text

pub record ServicePort : Type 0 where
  pub name : Text
  pub port : ℕ
  pub target_port : ℕ

pub record Service : Type 0 where
  pub meta : Meta
  pub kind : Text  -- `Type`
  pub cluster_ip : Text
  pub publish_not_ready_addresses : Bool
  pub selector : Dict Text
  pub ports : List ServicePort

pub record IngressTls : Type 0 where
  pub hosts : List Text
  pub secret_name : Text

-- A path, and the service and port behind it.
pub record IngressPath : Type 0 where
  pub path : Text
  pub path_type : Option Text
  pub service_name : Text
  pub service_port : ℕ

pub record IngressRule : Type 0 where
  pub host : Text
  pub http : Option (List IngressPath)

pub record Ingress : Type 0 where
  pub meta : Meta
  pub ingress_class_name : Option Text
  pub tls : List IngressTls
  pub rules : List IngressRule

-- The container of a reverse proxy.
pub record ProxyContainer : Type 0 where
  pub name : Text
  pub image : Text
  pub ports : List ℕ
  pub resources : Text
  pub volume_mounts : List VolumeMount
  pub security_context : Option Text

pub record Deployment : Type 0 where
  pub meta : Meta
  pub replicas : Option ℕ
  pub match_labels : Dict Text
  pub template_labels : Dict Text
  pub template_annotations : Dict Text
  pub image_pull_secrets : List Text
  pub containers : List ProxyContainer
  pub volumes : List Volume

pub record MetricsEndpoint : Type 0 where
  pub port : Text
  pub path : Text
  pub interval : Text
  pub scheme : Text

pub record PodMonitor : Type 0 where
  pub meta : Meta
  pub match_labels : Dict Text
  pub match_names : List Text
  pub endpoints : List MetricsEndpoint

pub record CronJob : Type 0 where
  pub meta : Meta
  pub concurrency_policy : Text
  pub successful_jobs_history_limit : ℕ
  pub failed_jobs_history_limit : ℕ
  pub schedule : Text
  pub backoff_limit : ℕ
  pub image_pull_secrets : List Text
  pub restart_policy : Text
  pub containers : List JobContainer

-- `gatewayv1.ParentReference`
pub record ParentReference : Type 0 where
  pub group : Option Text
  pub kind : Option Text
  pub name : Text
  pub namespace : Option Text
  pub section_name : Option Text

pub record BackendRef : Type 0 where
  pub group : Text
  pub kind : Text
  pub name : Text
  pub namespace : Text
  pub port : ℕ
  pub weight : ℕ

pub record PathMatch : Type 0 where
  pub kind : Option Text
  pub value : Option Text

-- The paths of `Matches`, each a pointer.
pub record RouteRule : Type 0 where
  pub matches : List (Option PathMatch)
  pub backend_refs : List BackendRef

pub record HttpRoute : Type 0 where
  pub meta : Meta
  pub parent_refs : List ParentReference
  pub hostnames : List Text
  pub rules : List RouteRule

pub record Referrer : Type 0 where
  pub group : Text
  pub kind : Text
  pub namespace : Text

pub record Target : Type 0 where
  pub group : Text
  pub kind : Text
  pub name : Text

pub record ReferenceGrant : Type 0 where
  pub meta : Meta
  pub referrers : List Referrer  -- `From`
  pub targets : List Target  -- `To`

-- An object that is created, patched or updated.
pub data Object : Type 0 where
  service : Service → Object
  ingress : Ingress → Object
  deployment : Deployment → Object
  pod_monitor : PodMonitor → Object
  cron_job : CronJob → Object
  http_route : HttpRoute → Object
  reference_grant : ReferenceGrant → Object

-- The kinds of objects that are deleted.
pub data Kind : Type 0 where
  service_kind pod_monitor_kind cron_job_kind deployment_kind : Kind
  http_route_kind reference_grant_kind ingress_kind : Kind
