-- ===== src/ConfigMap/Force.antt =====
-- `forcePodsConfigMapUpdate`, and the helpers at the end of the file that read node names.
use typesense_operator.Base.{
  Text, codes, text_eq, contains_text, split, remove_first, before_first, decimal, Bool, Option,
  none, some, List, [], ◌∷◌, ◌++◌, any, if◌then◌else◌,
}
use typesense_operator.Base.Dict.{insert, lookup}
use typesense_operator.Base.Exec.{Error, other, Result, ok, err, pure, ◌>>=◌, on_result, attempt}
use typesense_operator.Api.{Pod, ConfigMap, TypesenseCluster, cluster_stateful_set}
use typesense_operator.Api.Client.{Client, M, read, request, patch_pod}
use typesense_operator.Utils.{has_ip4_prefix}
use typesense_operator.Utils.Meta.{get_labels}

abbrev pub force_config_map_update_annotation_key : Text
force_config_map_update_annotation_key =
    codes "ts.opentelekomcloud.com/forced-configmap-update-time"

unfoldable pub annotate : Pod → Text → Pod
unfolding insert
annotate pod time = record pod {
  annotations = insert force_config_map_update_annotation_key time pod.annotations;
}

module _ (C : Client) where
  -- One round: the errors of a pod that could not be patched.
  unfoldable pub touch_pod : Pod → M C (List Error)
  touch_pod pod =
      if pod.deleting
      then pure []
      else read C C.now >>= λ time. request C (patch_pod pod (annotate pod time)) >>= λ r.
          on_result r (λ e. pure (e ∷ [])) (λ _. pure [])

  unfoldable pub touch_pods : List Pod → M C (List Error)
  touch_pods [] = pure []
  touch_pods (pod ∷ pods) =
      touch_pod pod >>= λ errs. touch_pods pods >>= λ more. pure (errs ++ more)

  -- The list of errors is the aggregate that the source returns; it is nil if there are none.
  unfoldable pub force_pods_config_map_update : TypesenseCluster → M C (Result (List Error))
  force_pods_config_map_update ts =
      attempt (read C (C.list_pods ts.namespace (get_labels ts)))
        λ pods. touch_pods pods >>= λ errs. pure (ok errs)

abbrev ports_suffix : TypesenseCluster → Text
ports_suffix ts = codes ":" ++ (decimal ts.peering_port ++ (codes ":" ++ decimal ts.api_port))

-- `getNodeEndpoint`
unfoldable pub get_node_endpoint : TypesenseCluster → Text → Text
unfolding has_ip4_prefix remove_first decimal
get_node_endpoint ts raft =
    let node : Text = remove_first (ports_suffix ts) raft in
    if has_ip4_prefix raft
    then node
    else node
      ++ (codes "."
          ++ (ts.name ++ (codes "-sts-svc." ++ (ts.namespace ++ codes ".svc.cluster.local"))))

-- `getShortName`
unfoldable pub get_short_name : Text → Text
unfolding has_ip4_prefix before_first
get_short_name raft =
    let host : Text = before_first b':' raft in
    if has_ip4_prefix host then host else before_first b'.' host

unfoldable pub listed_bootstrap_values : TypesenseCluster → Option Text → Result Bool
listed_bootstrap_values ts none = err (other (codes "configmap is missing 'nodes' key"))
listed_bootstrap_values ts (some raw) =
    if text_eq raw []
    then err (other (codes "configmap is missing 'nodes' key"))
    else ok (any (λ node. contains_text node (cluster_stateful_set ts)) (split b',' raw))

-- `hasBootstrapValues`
unfoldable pub has_bootstrap_values : TypesenseCluster → ConfigMap → Result Bool
has_bootstrap_values ts cm = listed_bootstrap_values ts (lookup (codes "nodes") cm.entries)
