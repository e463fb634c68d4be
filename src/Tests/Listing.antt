-- ===== src/Tests/Listing.antt =====
-- The config map and the members: the theorems at concrete data.
use typesense_operator.Base.{
  Text, codes, ◌≡◌, refl, ◌↔◌, true, false, some, List, [], ◌∷◌, length, arith,
}
use typesense_operator.Base.Dict.{lookup, insert}
use typesense_operator.Base.Exec.{ok, pure, ◌>>=◌, on_result}
use typesense_operator.Api.{ConfigMap}
use typesense_operator.Api.Client.{request}
use typesense_operator.ConfigMap.Endpoints.{raft_endpoint}
use typesense_operator.ConfigMap.Force.{has_bootstrap_values}
use typesense_operator.ConfigMap.Nodes.{node_name, fallback_from, get_fallback_nodes, get_nodes}
use typesense_operator.ConfigMap.Nodes.Fallback.{node_list, AreShort, get_fallback_nodes_iff}
use typesense_operator.ConfigMap.Nodes.Size.{get_nodes-replicas}
use typesense_operator.ConfigMap.RoundTrip.{create_config_map-nodes_of}
use typesense_operator.ConfigMap.Update.{
  Updated, nodes_data, data_differs, create_config_map, write_nodes,
}
use typesense_operator.ConfigMap.Update.Again.{write_nodes-again}
use typesense_operator.Quorum.Members.{is_listed, quorum_nodes, nodes_of}
use typesense_operator.Quorum.Members.Sound.{ListedPod, quorum_nodes_sound}
use typesense_operator.Utils.{contains}
use typesense_operator.Tests.Sample.{sample_client, cluster, by_address, three_pods, start}

-- The nodes by the names that the headless service gives them.
abbrev by_name : List Text
by_name =
    codes "ts-sts-0.ts-sts-svc:8107:8108"
    ∷ codes "ts-sts-1.ts-sts-svc:8107:8108"
    ∷ codes "ts-sts-2.ts-sts-svc:8107:8108"
    ∷ []

abbrev created : ConfigMap
created = record {
  namespace = codes "search";
  name = codes "ts-nodeslist";
  entries = nodes_data by_name by_name;
}

fallback_run : get_fallback_nodes cluster ≡ ok by_name
unfolding get_fallback_nodes fallback_from raft_endpoint node_name
fallback_run = refl

created_run :
    (create_config_map sample_client
      (record { namespace = []; name = codes "ts-nodeslist" })
      cluster
      (start 3)).0
    ≡ ok created
unfolding create_config_map get_nodes ◌>>=◌ on_result pure request get_fallback_nodes fallback_from
    raft_endpoint node_name
created_run = refl

create_config_map-nodes_of_example :
    (nodes_of cluster created ≡ ok (node_list cluster 3 0))
    × (length (node_list cluster 3 0) ≡ 3)
    × (has_bootstrap_values cluster created ≡ ok true)
create_config_map-nodes_of_example =
    create_config_map-nodes_of sample_client cluster
      (record { namespace = []; name = codes "ts-nodeslist" }) (start 3) {cm = created}
      (λ made owned h. cc) (refl, (refl, tt)) (omega arith) created_run

get_fallback_nodes_iff_example :
    (get_fallback_nodes cluster ≡ ok by_name)
    ↔ (AreShort cluster 3 0 × (by_name ≡ node_list cluster 3 0))
get_fallback_nodes_iff_example = get_fallback_nodes_iff cluster by_name

abbrev updated_map : Updated
updated_map = record {
  config_map = record by_address { entries = nodes_data by_name by_name };
  available_nodes = 3;
  updated = true;
}

write_nodes_run :
    (write_nodes sample_client by_address by_name by_name (start 3)).0 ≡ ok updated_map
unfolding write_nodes ◌>>=◌ on_result pure request nodes_data data_differs lookup
write_nodes_run = refl

write_nodes-again_example :
    write_nodes sample_client updated_map.config_map by_name by_name (start 2)
    ≡ (ok (record updated_map { updated = false }), start 2)
write_nodes-again_example =
    write_nodes-again sample_client by_address by_name by_name (start 3) (start 2) {u = updated_map}
      write_nodes_run

get_nodes-replicas_example :
    get_nodes sample_client cluster 1 false ≡ get_nodes sample_client cluster 3 false
get_nodes-replicas_example = get_nodes-replicas sample_client cluster 1 3 false

abbrev addresses : List Text
addresses =
    codes "10.0.0.1:8107:8108" ∷ codes "10.0.0.2:8107:8108" ∷ codes "10.0.0.3:8107:8108" ∷ []

member_run :
    lookup (codes "ts-sts-1") (quorum_nodes sample_client cluster addresses three_pods [])
    ≡ some (codes "10.0.0.2")
unfolding quorum_nodes is_listed insert contains raft_endpoint lookup
member_run = refl

quorum_nodes_sound_example :
    ListedPod sample_client cluster addresses three_pods (codes "ts-sts-1") (codes "10.0.0.2")
quorum_nodes_sound_example =
    quorum_nodes_sound sample_client cluster addresses three_pods (codes "ts-sts-1")
      {ip = codes "10.0.0.2"} member_run
