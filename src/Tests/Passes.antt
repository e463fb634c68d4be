-- ===== src/Tests/Passes.antt =====
-- Whole passes at concrete data.
use typesense_operator.Base.{codes, ◌≡◌, ◌⊎◌, refl, [], ◌∷◌}
use typesense_operator.Base.Exec.{ok, pure, ◌>>=◌, on_result}
use typesense_operator.Base.Dict.{lookup, insert}
use typesense_operator.Api.{TypesenseCluster}
use typesense_operator.Api.Client.{read, request, record_event}
use typesense_operator.ConfigMap.Endpoints.{raft_endpoint}
use typesense_operator.ConfigMap.Force.{get_node_endpoint}
use typesense_operator.Controller.{
  needs_attention, is_ready, with_status, patch_status, set_condition_ready, report_ready,
  report_quorum, ready_condition,
}
use typesense_operator.Controller.Report.{Reports, report_quorum-Reports}
use typesense_operator.ConfigMap.Nodes.{is_unschedulable, is_pending}
use typesense_operator.Node.{condition_text, state_text, quorum_ready}
use typesense_operator.Quorum.Cluster.{
  get_minimum_required_nodes, leader_nodes, not_ready_nodes, judge_counts, get_cluster_status,
}
use typesense_operator.Quorum.Gate.{
  gate_reason_text, judge_health, gate_condition, calculate_pod_readiness_gate,
  update_pod_readiness_gate,
}
use typesense_operator.Quorum.Lag.{with_configuration, get_healthy_write_lag_threshold}
use typesense_operator.Quorum.Members.{
  listed_nodes, nodes_of, is_listed, quorum_nodes, get_quorum, node_endpoints,
}
use typesense_operator.Quorum.Probe.{
  inspect_pod_logs, amend_status, amend_health, build_url, status_of, get_node_status, health_of,
  get_node_health, get_pod_logs, get_http_client,
}
use typesense_operator.Quorum.Reconcile.{
  max_queued, pod_key, note_gate, healthy_nodes, collect_logs, collect_statuses, update_gates,
  settle, act, decide, judge, restart_unscheduled, probe_and_judge, reconcile_quorum,
}
use typesense_operator.Quorum.Resize.{reached}
use typesense_operator.StatefulSet.{get_fresh_stateful_set, get_unscheduled_pods, unscheduled_pods}
use typesense_operator.Utils.{contains, has_ip4_prefix}
use typesense_operator.Controller.Parts.{cluster_parts}
use typesense_operator.Controller.Pass.{reconcile_parts}
use typesense_operator.Controller.Pass.Stages.{
  all_parts, nothing, Completes, StopsAt, reconcile_parts-Ends,
}
use typesense_operator.Tests.Sample.{lax, sample_client, cluster, key, start, no_set}

-- Three healthy nodes of which one leads: the quorum is ready.
healthy_pass :
    (reconcile_quorum sample_client cluster (codes "key") key (start 3)).0 ≡ reached quorum_ready
unfolding reconcile_quorum get_fresh_stateful_set read ◌>>=◌ on_result pure get_quorum nodes_of
    listed_nodes lookup quorum_nodes is_listed insert contains raft_endpoint
    get_minimum_required_nodes restart_unscheduled get_unscheduled_pods unscheduled_pods is_pending
    is_unschedulable probe_and_judge get_http_client get_healthy_write_lag_threshold
    with_configuration collect_logs get_pod_logs node_endpoints collect_statuses get_node_status
    build_url get_node_endpoint has_ip4_prefix status_of amend_status inspect_pod_logs max_queued
    get_cluster_status leader_nodes not_ready_nodes judge_counts judge update_gates
    calculate_pod_readiness_gate get_node_health health_of amend_health gate_condition judge_health
    state_text gate_reason_text update_pod_readiness_gate pod_key note_gate decide healthy_nodes act
    settle
healthy_pass = refl

abbrev reported : TypesenseCluster
reported = record cluster {
  conditions = ready_condition (codes "False") (codes "QuorumNotReady") (codes "gone") ∷ [];
  phase = codes "QuorumNotReady";
}

abbrev all_well : TypesenseCluster
all_well = record cluster {
  conditions = ready_condition (codes "True") (codes "QuorumReady") (codes "Cluster is Ready") ∷ [];
  phase = codes "QuorumReady";
}

report_run : (report_quorum sample_client cluster (reached quorum_ready) no_set).0 ≡ ok all_well
unfolding report_quorum needs_attention is_ready report_ready set_condition_ready patch_status
    with_status request record_event ◌>>=◌ on_result pure condition_text
report_run = refl

report_quorum-Reports_example : Reports sample_client cluster quorum_ready all_well
report_quorum-Reports_example =
    report_quorum-Reports sample_client cluster (reached quorum_ready) no_set {u = all_well}
      report_run

reconcile_parts-Ends_example :
    let r = reconcile_parts sample_client (cluster_parts sample_client lax) cluster (start 3) in
    Completes sample_client
      (cluster_parts sample_client lax)
      cluster
      all_parts
      (nothing sample_client (cluster_parts sample_client lax) cluster)
      (start 3)
      r
    ⊎ StopsAt sample_client
        (cluster_parts sample_client lax)
        cluster
        all_parts
        (nothing sample_client (cluster_parts sample_client lax) cluster)
        (start 3)
        r
reconcile_parts-Ends_example =
    reconcile_parts-Ends sample_client (cluster_parts sample_client lax) cluster (start 3)
