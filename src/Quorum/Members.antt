-- ===== src/Quorum/Members.antt =====
-- `getQuorum`: the members of the quorum, read from the config map and the pods.
pub mod Sound
use typesense_operator.Base.{
  Text, codes, text_eq, split, is_blank, sort_texts, ℕ, Bool, true, false, not, ◌&&◌, Option, none,
  some, List, [], ◌∷◌, ◌++◌, length, map, if◌then◌else◌,
}
use typesense_operator.Base.Dict.{Dict, lookup, insert, keys, get_or}
use typesense_operator.Base.Exec.{
  Error, other, Result, ok, err, pure, ◌>>=◌, on_result, attempt, or_return,
}
use typesense_operator.Api.{
  Pod, ConfigMap, StatefulSet, TypesenseCluster, config_map_key, cluster_nodes_config_map,
}
use typesense_operator.Api.Client.{Client, M, read}
use typesense_operator.ConfigMap.Endpoints.{raft_endpoint}
use typesense_operator.Node.{NodeEndpoint}
use typesense_operator.Quorum.Cluster.{get_minimum_required_nodes}
use typesense_operator.Utils.{contains, is_member}

-- The type `Quorum`.
pub record Members : Type 0 where
  pub min_required_nodes : ℕ
  pub available_nodes : ℕ
  pub nodes : Dict Text
  pub nodes_list_config_map : ConfigMap

unfoldable pub missing_nodes : TypesenseCluster → Error
missing_nodes ts =
    other (codes "configmap " ++ (cluster_nodes_config_map ts ++ codes " is missing 'nodes' key"))

unfoldable pub listed_nodes : TypesenseCluster → Option Text → Result (List Text)
unfolding is_blank split missing_nodes
listed_nodes ts none = err (missing_nodes ts)
listed_nodes ts (some raw) = if is_blank raw then err (missing_nodes ts) else ok (split b',' raw)

-- The list under `nodes`, unless it is missing or blank.
unfoldable pub nodes_of : TypesenseCluster → ConfigMap → Result (List Text)
unfolding listed_nodes lookup
nodes_of ts cm = listed_nodes ts (lookup (codes "nodes") cm.entries)

-- A pod with an address whose raft endpoint is listed.
unfoldable pub is_listed : TypesenseCluster → List Text → Pod → Bool
unfolding text_eq contains raft_endpoint
is_listed ts listed pod =
    not (text_eq pod.pod_ip []) && is_member listed (raft_endpoint ts pod.pod_ip)

module _ (C : Client) where
  -- The loop over the pods.
  unfoldable pub quorum_nodes : TypesenseCluster → List Text → List Pod → Dict Text → Dict Text
  unfolding is_listed insert
  quorum_nodes ts listed [] qn = qn
  quorum_nodes ts listed (pod ∷ pods) qn =
      quorum_nodes ts listed pods
        (if is_listed ts listed pod then insert pod.name (C.parse_ip pod.pod_ip) qn else qn)

  -- `getQuorum`
  unfoldable pub get_quorum : TypesenseCluster → StatefulSet → M C (Result Members)
  get_quorum ts sts = attempt (read C (C.get_config_map (config_map_key ts))) λ cm.
      on_result (nodes_of ts cm) (λ e. pure (err e))
        λ listed. attempt (read C (C.list_pods sts.namespace sts.match_labels)) λ pods. pure (
          ok (record {
            min_required_nodes = get_minimum_required_nodes sts.status_replicas;
            available_nodes = length listed;
            nodes = quorum_nodes ts listed pods [];
            nodes_list_config_map = cm;
          }))

-- The members in the order of their names, as `ReconcileQuorum` lists them.
unfoldable pub node_endpoints : Dict Text → List NodeEndpoint
unfolding sort_texts lookup
node_endpoints nodes =
    map (λ key. record { pod_name = key; ip = get_or [] key nodes }) (sort_texts (keys nodes))
