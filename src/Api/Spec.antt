-- ===== src/Api/Spec.antt =====
-- The getters of api/v1alpha1 (typesensecluster_types_helpers.go, ..._securitycontexts.go,
-- ..._metrics.go, ..._healthcheck.go and ..._storage.go), with their defaults.
use typesense_operator.Base.{Text, codes, ℕ, Option, none, some, List, [], ◌∷◌, map}
use typesense_operator.Base.Dict.{Dict}
use typesense_operator.Base.Int.{pos}
use typesense_operator.Crd.{
  SecurityContextSpec, MetricsExporterSpec, HealthCheckSpec, StorageSpec, TopologySpreadConstraint,
}
use typesense_operator.Api.{TypesenseCluster}

-- The default of `GetPodSecurityContext`, as a text.
abbrev pub default_pod_security_context : Text
default_pod_security_context =
    codes "runAsUser:10000,fsGroup:2000,runAsGroup:3000,runAsNonRoot:true"

-- The default of `GetResources`, as a text.
abbrev pub default_resources : Text
default_resources = codes "limits:cpu=1000m,memory=512Mi;requests:cpu=100m,memory=256Mi"

abbrev or_default : Text → Option Text → Text
or_default d none = d
or_default d (some v) = v

unfoldable pub get_resources : TypesenseCluster → Text
get_resources ts = or_default default_resources ts.resources

unfoldable pub get_pod_security_context : TypesenseCluster → Text
get_pod_security_context ts = elim ts.security_context [
  | none ↦ default_pod_security_context
  | some s ↦ or_default default_pod_security_context s.pod
]

abbrev context_of : (SecurityContextSpec → Option Text) → Option SecurityContextSpec → Option Text
context_of f none = none
context_of f (some s) = f s

unfoldable pub get_typesense_security_context : TypesenseCluster → Option Text
get_typesense_security_context ts = context_of (λ s. s.typesense) ts.security_context

unfoldable pub get_healthcheck_security_context : TypesenseCluster → Option Text
get_healthcheck_security_context ts = context_of (λ s. s.healthcheck) ts.security_context

unfoldable pub get_metrics_security_context : TypesenseCluster → Option Text
get_metrics_security_context ts = context_of (λ s. s.metrics) ts.security_context

-- The names of config maps.
unfoldable pub get_additional_server_configuration : TypesenseCluster → List Text
get_additional_server_configuration ts = elim ts.additional_server_configuration [
  | none ↦ []
  | some name ↦ name ∷ []
]

unfoldable pub get_cors_domains : TypesenseCluster → Text
get_cors_domains ts = or_default [] ts.cors_domains

abbrev select_labels : Dict Text → TopologySpreadConstraint → TopologySpreadConstraint
select_labels labels t = record t {
  label_selector = some (elim t.label_selector [ none ↦ labels | some own ↦ own ]);
}

unfoldable pub get_topology_spread_constraints :
    TypesenseCluster → Dict Text → List TopologySpreadConstraint
get_topology_spread_constraints ts labels =
    map (select_labels labels) ts.topology_spread_constraints

unfoldable pub get_pod_management_policy : TypesenseCluster → Text
get_pod_management_policy ts = or_default (codes "Parallel") ts.pod_management_policy

unfoldable pub get_termination_grace_period_seconds : TypesenseCluster → ℕ
get_termination_grace_period_seconds ts = elim ts.termination_grace_period_seconds [
  | none ↦ 5
  | some n ↦ n
]

-- The default of the resources of both sidecars, as a text.
abbrev pub default_sidecar_resources : Text
default_sidecar_resources = codes "limits:cpu=100m,memory=64Mi;requests:cpu=100m,memory=32Mi"

unfoldable pub get_metrics_exporter_specs : TypesenseCluster → MetricsExporterSpec
get_metrics_exporter_specs ts = elim ts.metrics [
  | some m ↦ m
  | none ↦ record {
    release = codes "promstack";
    image = codes "quay.io/akyriako/typesense-prometheus-exporter:0.1.9";
    interval_in_seconds = 15;
    resources = none;
    log_level = pos 0;
  }
]

unfoldable pub get_metrics_exporter_resources : TypesenseCluster → Text
get_metrics_exporter_resources ts = elim ts.metrics [
  | some m ↦ or_default default_sidecar_resources m.resources
  | none ↦ default_sidecar_resources
]

unfoldable pub get_health_check_sidecar_specs : TypesenseCluster → HealthCheckSpec
get_health_check_sidecar_specs ts = elim ts.health_check [
  | some h ↦ h
  | none ↦ record {
    image = codes "quay.io/akyriako/typesense-healthcheck:0.1.8";
    resources = none;
    log_level = pos 0;
  }
]

unfoldable pub get_health_check_sidecar_resources : TypesenseCluster → Text
get_health_check_sidecar_resources ts = elim ts.health_check [
  | some h ↦ or_default default_sidecar_resources h.resources
  | none ↦ default_sidecar_resources
]

unfoldable pub get_storage : TypesenseCluster → StorageSpec
get_storage ts = elim ts.storage [
  | some s ↦ s
  | none ↦ record {
    size = codes "100Mi";
    storage_class_name = codes "standard";
    access_mode = codes "ReadWriteOnce";
    annotations = [];
  }
]
