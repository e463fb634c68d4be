-- ===== src/Tests/Whole.antt =====
-- A whole pass over a cluster that is healthy: the theorem at concrete data.
use typesense_operator.Api.{EndpointSlice, TypesenseCluster}
use typesense_operator.Api.Client.{World, read, record_event, request}
use typesense_operator.Base.{List, [], codes, refl, some, ◌∷◌, ◌≡◌}
use typesense_operator.Base.Dict.{insert, lookup}
use typesense_operator.Base.Exec.{ok, on_result, pure, ◌>>=◌}
use typesense_operator.ConfigMap.Endpoints.{
  endpoint_nodes, get_endpoint_slices_for_stateful_set, is_live, is_live_endpoint, live_ips,
  raft_endpoint, ready_slices, slice_nodes,
}
use typesense_operator.ConfigMap.Force.{
  annotate, force_pods_config_map_update, get_node_endpoint, touch_pod, touch_pods,
}
use typesense_operator.ConfigMap.Nodes.{
  count_unscheduled, fallback_from, get_fallback_nodes, get_live_nodes, get_nodes, is_pending,
  is_unschedulable, node_name,
}
use typesense_operator.ConfigMap.Update.{
  data_differs, nodes_data, reconcile_config_map, update_config_map, write_nodes,
}
use typesense_operator.Controller.{
  finish, init_conditions, is_ready, needs_attention, patch_status, ready_condition,
  report_not_ready, report_quorum, report_ready, report_update, requeue_after,
  set_condition_not_ready, set_condition_ready, with_status,
}
use typesense_operator.Controller.Pass.{reconcile, reconcile_found, reconcile_parts}
use typesense_operator.Controller.Pass.Results.{IsPassed, reconcile-IsDone}
use typesense_operator.Node.{condition_text, state_text}
use typesense_operator.Quorum.Cluster.{
  get_cluster_status, get_minimum_required_nodes, judge_counts, leader_nodes, not_ready_nodes,
}
use typesense_operator.Quorum.Gate.{
  calculate_pod_readiness_gate, gate_condition, gate_reason_text, judge_health,
  update_pod_readiness_gate,
}
use typesense_operator.Quorum.Lag.{get_healthy_write_lag_threshold, with_configuration}
use typesense_operator.Quorum.Members.{
  get_quorum, is_listed, listed_nodes, node_endpoints, nodes_of, quorum_nodes,
}
use typesense_operator.Quorum.Probe.{
  amend_health, amend_status, build_url, get_http_client, get_node_health, get_node_status,
  get_pod_logs, health_of, inspect_pod_logs, status_of,
}
use typesense_operator.Quorum.Reconcile.{
  act, collect_logs, collect_statuses, decide, healthy_nodes, judge, max_queued, note_gate, pod_key,
  probe_and_judge, reconcile_quorum, restart_unscheduled, settle, update_gates,
}
use typesense_operator.Secret.{
  create_admin_api_key, generate_token, get_admin_api_key_object_key, reconcile_secret, secret_of,
  without_secret,
}
use typesense_operator.StatefulSet.{get_fresh_stateful_set, get_unscheduled_pods, unscheduled_pods}
use typesense_operator.Tests.Keys.{willing}
use typesense_operator.Tests.Sample.{cluster, key, sample_client, start}
use typesense_operator.Utils.{contains, has_ip4_prefix}

abbrev three_slices : List EndpointSlice
three_slices =
    record {
      endpoints =
          record { addresses = codes "10.0.0.1" ∷ []; target_kind = some (codes "Pod") }
          ∷ record { addresses = codes "10.0.0.2" ∷ []; target_kind = some (codes "Pod") }
          ∷ record { addresses = codes "10.0.0.3" ∷ []; target_kind = some (codes "Pod") }
          ∷ [];
    }
    ∷ []

-- Three pods that the endpoint slices of the headless service show.
abbrev resolved : World sample_client
resolved = record (start 3) { state = record ((start 3).state) { slices = three_slices } }

abbrev ready : TypesenseCluster
ready = record cluster {
  conditions = ready_condition (codes "True") (codes "QuorumReady") (codes "Cluster is Ready") ∷ [];
  phase = codes "QuorumReady";
}

-- The list of nodes is written anew, the pods are told, and the quorum is ready.
ready_run : (reconcile sample_client willing key resolved).0 ≡ ok (some (ready, 120))
unfolding reconcile reconcile_found init_conditions reconcile_parts reconcile_secret without_secret
    create_admin_api_key generate_token secret_of get_admin_api_key_object_key reconcile_config_map
    finish report_update requeue_after report_quorum needs_attention is_ready report_ready
    report_not_ready set_condition_ready set_condition_not_ready patch_status with_status
    condition_text record_event reconcile_quorum get_fresh_stateful_set read request ◌>>=◌ on_result
    pure get_quorum nodes_of listed_nodes lookup quorum_nodes is_listed insert contains
    raft_endpoint get_minimum_required_nodes restart_unscheduled get_unscheduled_pods
    unscheduled_pods is_pending is_unschedulable probe_and_judge get_http_client
    get_healthy_write_lag_threshold with_configuration collect_logs get_pod_logs node_endpoints
    collect_statuses get_node_status build_url get_node_endpoint has_ip4_prefix status_of
    amend_status inspect_pod_logs max_queued get_cluster_status leader_nodes not_ready_nodes
    judge_counts judge update_gates calculate_pod_readiness_gate get_node_health health_of
    amend_health gate_condition judge_health state_text gate_reason_text update_pod_readiness_gate
    pod_key note_gate decide healthy_nodes act settle update_config_map get_nodes get_live_nodes
    count_unscheduled get_endpoint_slices_for_stateful_set get_fallback_nodes fallback_from
    node_name write_nodes slice_nodes ready_slices live_ips data_differs nodes_data
    force_pods_config_map_update touch_pods touch_pod annotate endpoint_nodes is_live
    is_live_endpoint
ready_run = refl

reconcile-IsDone_example :
    let x = (read sample_client (sample_client.get_cluster key) resolved).1 in
    (ts : TypesenseCluster) × ((sample_client.get_cluster key resolved.state).0 ≡ ok ts)
    × ((t : TypesenseCluster) × ((init_conditions sample_client ts x).0 ≡ ok t)
        × IsPassed sample_client willing t (init_conditions sample_client ts x).1 ready 120)
reconcile-IsDone_example =
    reconcile-IsDone sample_client willing key resolved {u = ready} {n = 120} ready_run
