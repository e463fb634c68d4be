-- ===== src/PodMonitor.antt =====
-- internal/controller/typesensecluster_podmonitor.go: the pod monitor of the metrics exporter, and
-- the deployment of an older version that is cleaned up.
pub mod Sync
use typesense_operator.Base.{
  Text, codes, text_eq, decimal, Bool, true, false, not, ◌||◌, Option, none, some, List, [], ◌∷◌,
  ◌++◌, any, if◌then◌else◌,
}
use typesense_operator.Base.Dict.{insert, get_or}
use typesense_operator.Base.Exec.{
  Result, ok, err, pure, ◌>>=◌, ◌>>◌, on_result, first, attempt, check, or_return,
}
use typesense_operator.Kube.{
  Meta, PodMonitor, MetricsEndpoint, pod_monitor, pod_monitor_kind, deployment_kind,
}
use typesense_operator.Crd.{MetricsExporterSpec}
use typesense_operator.Api.{TypesenseCluster, ObjectKey}
use typesense_operator.Api.Client.{Client, M, read, request, find, create_owned, delete_object}
use typesense_operator.Utils.Meta.{get_labels, get_pod_monitor_object_meta}

-- `prometheusApiGroup`
abbrev pub prometheus_api_group : Text
prometheus_api_group = codes "monitoring.coreos.com"

-- `ClusterMetricsPodMonitor`
abbrev pub pod_monitor_key : TypesenseCluster → ObjectKey
pod_monitor_key ts = record { namespace = ts.namespace; name = ts.name ++ codes "-podmonitor" }

-- `ClusterPrometheusExporterDeployment`
abbrev pub exporter_key : TypesenseCluster → ObjectKey
exporter_key ts = record {
  namespace = ts.namespace;
  name = ts.name ++ codes "-prometheus-exporter";
}

-- `fmt.Sprintf("%ds", …)`
abbrev pub interval_of : MetricsExporterSpec → Text
interval_of metrics = decimal metrics.interval_in_seconds ++ codes "s"

-- `objectMeta.Labels["release"] = …`
abbrev pub with_release : Text → Meta → Meta
with_release release m = record m { labels = insert (codes "release") release m.labels }

-- The pod monitor that `createMetricsExporterPodMonitor` builds.
unfoldable pub pod_monitor_of : ObjectKey → TypesenseCluster → MetricsExporterSpec → PodMonitor
unfolding get_pod_monitor_object_meta
pod_monitor_of key ts metrics = record {
  meta = with_release metrics.release (get_pod_monitor_object_meta ts (some key.name) []);
  match_labels = get_labels ts;
  match_names = ts.namespace ∷ [];
  endpoints =
      record {
        port = codes "metrics";
        path = codes "/metrics";
        interval = interval_of metrics;
        scheme = codes "http";
      }
      ∷ [];
}

module _ (C : Client) where
  -- `IsApiGroupDeployed`
  unfoldable pub is_api_group_deployed : Text → M C (Result Bool)
  is_api_group_deployed group =
      attempt (read C C.server_groups) λ groups. pure (ok (any (λ g. text_eq g group) groups))

  -- `deleteMetricsExporterDeployment`, by the namespace and the name of what was read.
  abbrev pub delete_exporter : ObjectKey → M C (Result (Unit {0}))
  delete_exporter key = request C (delete_object deployment_kind key.namespace key.name)

  -- `deleteMetricsExporterServiceMonitor`: where the deployment cannot be read for another reason
  -- than its absence, the object is empty and a deletion without a name is sent.
  unfoldable pub delete_service_monitor : TypesenseCluster → M C (Unit {0})
  delete_service_monitor ts = find C (C.get_deployment (exporter_key ts)) >>= λ r.
      on_result r (λ _. delete_exporter (record { namespace = []; name = [] }) >> pure tt)
        λ f. elim f [
          | none ↦ pure tt
          | some d ↦
              delete_exporter (record { namespace = d.meta.namespace; name = d.meta.name })
              >> pure tt
        ]

  -- `createMetricsExporterPodMonitor`
  abbrev pub create_pod_monitor : TypesenseCluster → MetricsExporterSpec → M C (Result (Unit {0}))
  create_pod_monitor ts metrics =
      create_owned C ts (pod_monitor (pod_monitor_of (pod_monitor_key ts) ts metrics))

  -- `deleteMetricsExporterPodMonitor`
  abbrev pub delete_pod_monitor : PodMonitor → M C (Result (Unit {0}))
  delete_pod_monitor p = request C (delete_object pod_monitor_kind p.meta.namespace p.meta.name)

  -- Lines 46 to 83, from what was found of the pod monitor. The endpoints are indexed only where
  -- the release is the same.
  unfoldable pub sync_pod_monitor :
      TypesenseCluster → Option MetricsExporterSpec → Option PodMonitor → M C (Result (Unit {0}))
  unfolding first
  sync_pod_monitor ts none none = pure (ok tt)
  sync_pod_monitor ts none (some p) = delete_pod_monitor p
  sync_pod_monitor ts (some metrics) none = create_pod_monitor ts metrics
  sync_pod_monitor ts (some metrics) (some p) =
      let again = attempt (delete_pod_monitor p) (λ _. create_pod_monitor ts metrics) in
      if not (text_eq metrics.release (get_or [] (codes "release") p.meta.labels))
      then again
      else check (first p.endpoints) λ endpoint.
        if not (text_eq (interval_of metrics) endpoint.interval) then again else pure (ok tt)

  -- Lines 32 to 83.
  unfoldable pub ensure_pod_monitor : TypesenseCluster → M C (Result (Unit {0}))
  ensure_pod_monitor ts =
      attempt (find C (C.get_pod_monitor (pod_monitor_key ts))) (sync_pod_monitor ts ts.metrics)

  -- `ReconcilePodMonitor`
  unfoldable pub reconcile_pod_monitor : TypesenseCluster → M C (Result (Unit {0}))
  reconcile_pod_monitor ts =
      delete_service_monitor ts
      >> or_return (is_api_group_deployed prometheus_api_group) (λ _. pure (ok tt))
          λ deployed. if deployed then ensure_pod_monitor ts else pure (ok tt)
