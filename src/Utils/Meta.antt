-- ===== src/Utils/Meta.antt =====
-- internal/controller/utils.go: the labels and the metadata of the objects, and their names.
use typesense_operator.Base.{Text, codes, Option, none, some, [], ◌∷◌, ◌++◌}
use typesense_operator.Base.Dict.{Dict}
use typesense_operator.Base.Exec.{Result, ok, err, deref}
use typesense_operator.Kube.{Meta}
use typesense_operator.Crd.{HttpRouteSpec}
use typesense_operator.Api.{TypesenseCluster}
use typesense_operator.Utils.{merge_labels}

-- `getDefaultLabels`
abbrev pub get_default_labels : TypesenseCluster → Dict Text
get_default_labels ts =
    (codes "app.kubernetes.io/managed-by", codes "typesense-operator")
    ∷ (codes "app.kubernetes.io/name", codes "typesense")
    ∷ (codes "app.kubernetes.io/instance", ts.name)
    ∷ []

-- `ClusterAppLabel`
abbrev pub cluster_app_label : Text → Text
cluster_app_label name = name ++ codes "-sts"

-- `getLabels`
abbrev pub get_labels : TypesenseCluster → Dict Text
get_labels ts = (codes "app", cluster_app_label ts.name) ∷ []

-- `getPodMonitorLabels`
abbrev pub get_pod_monitor_labels : TypesenseCluster → Dict Text
get_pod_monitor_labels ts = (codes "app", ts.name ++ codes "-sts") ∷ []

-- `getMergedLabels`
abbrev pub get_merged_labels : Dict Text → Dict Text → Dict Text
get_merged_labels def scoped = merge_labels (def ∷ scoped ∷ [])

-- `if name == nil { name = &ts.Name }`
abbrev name_or : TypesenseCluster → Option Text → Text
name_or ts none = ts.name
name_or ts (some name) = name

-- `getObjectMeta`
unfoldable pub get_object_meta : TypesenseCluster → Option Text → Dict Text → Meta
get_object_meta ts name annotations = record {
  namespace = ts.namespace;
  name = name_or ts name;
  labels = get_merged_labels (get_default_labels ts) (get_labels ts);
  annotations = annotations;
}

-- `getReverseProxyLabels`
abbrev pub get_reverse_proxy_labels : TypesenseCluster → Dict Text
get_reverse_proxy_labels ts = (codes "app", ts.name ++ codes "-rp") ∷ []

-- `getReverseProxyObjectMeta`
unfoldable pub get_reverse_proxy_object_meta : TypesenseCluster → Option Text → Dict Text → Meta
get_reverse_proxy_object_meta ts name annotations = record {
  namespace = ts.namespace;
  name = name_or ts name;
  labels = get_merged_labels (get_default_labels ts) (get_reverse_proxy_labels ts);
  annotations = annotations;
}

-- `getPodMonitorObjectMeta`
unfoldable pub get_pod_monitor_object_meta : TypesenseCluster → Option Text → Dict Text → Meta
get_pod_monitor_object_meta ts name annotations = record {
  namespace = ts.namespace;
  name = name_or ts name;
  labels = get_merged_labels (get_default_labels ts) (get_pod_monitor_labels ts);
  annotations = annotations;
}

-- `ClusterHttpRoute`
abbrev pub cluster_http_route : TypesenseCluster → Text → Text
cluster_http_route ts name = ts.name ++ (codes "-" ++ name)

-- `ClusterHttpRouteReferenceGrant`
abbrev pub cluster_reference_grant : TypesenseCluster → Text → Text
cluster_reference_grant ts name = ts.name ++ (codes "-" ++ (name ++ codes "-reference-grant"))

-- `getHttpRouteLabels`
unfoldable pub get_http_route_labels : TypesenseCluster → HttpRouteSpec → Dict Text
get_http_route_labels ts spec =
    let route =
      (codes "app", cluster_app_label ts.name)
      ∷ (codes "route", cluster_http_route ts spec.name)
      ∷ [] in
    merge_labels (get_default_labels ts ∷ route ∷ [])

-- `getHttpRouteObjectMeta`
unfoldable pub get_http_route_object_meta :
    TypesenseCluster → HttpRouteSpec → Option Text → Dict Text → Dict Text → Meta
unfolding get_http_route_labels
get_http_route_object_meta ts spec name labels annotations = record {
  namespace = ts.namespace;
  name = name_or ts name;
  labels = merge_labels (get_http_route_labels ts spec ∷ labels ∷ []);
  annotations = annotations;
}

-- `getReferenceGrantObjectMeta`, which reads the namespace of the parent through a pointer.
unfoldable pub get_reference_grant_object_meta : TypesenseCluster → HttpRouteSpec → Result Meta
unfolding deref get_http_route_labels
get_reference_grant_object_meta ts spec = elim (deref spec.parent_ref.namespace) [
  | err e ↦ err e
  | ok ns ↦ ok (record {
    namespace = ns;
    name = cluster_reference_grant ts spec.name;
    labels = get_http_route_labels ts spec;
    annotations = [];
  })
]
