-- ===== src/Tests/Recovery.antt =====
-- The quorum: runs of `decide` and of the gates, and the theorems at concrete data.
use typesense_operator.Base.{
  Text, codes, ◌-◌, ◌*◌, ◌≤◌, ◌<◌, ◌≡◌, refl, ◌≢◌, ◌↔◌, ◌⊎◌, ◌&&◌, not, true, false, some, List, [],
  ◌∷◌, ltb, length, count_if, keep, All, text_eq, arith,
}
use mathlib.Core.List.Perm
use typesense_operator.Base.Dict.{Dict}
use typesense_operator.Base.Int.{pos, ltb_ℤ}
use typesense_operator.Base.Exec.{Result, ok, pure}
use typesense_operator.Api.{PodCondition}
use typesense_operator.Api.Client.{body}
use typesense_operator.Node.{
  leader, follower, unreachable, error_state, missing, NodeStatus, with_state, NodeHealth,
  out_of_disk, cluster_ok, split_brain, election_deadlock, quorum_ready,
  errors_require_pod_termination,
}
use typesense_operator.Quorum.Cluster.{
  get_minimum_required_nodes, leader_nodes, not_ready_nodes, judge_counts, get_cluster_status,
}
use typesense_operator.Quorum.Cluster.Laws.{
  get_minimum_required_nodes-majority, get_cluster_status_iff, get_cluster_status-perm,
}
use typesense_operator.Quorum.Gate.{
  gate_condition, gate_reason_text, node_not_recoverable, replace_condition, updated_conditions,
}
use typesense_operator.Quorum.Gate.Conditions.{
  has_kind_of, updated_conditions_lem, gate_condition_lem,
}
use typesense_operator.Quorum.Members.{Members}
use typesense_operator.Quorum.Probe.{inspect_pod_logs, status_of, health_of}
use typesense_operator.Quorum.Probe.Logs.{probe-logs}
use typesense_operator.Quorum.Reconcile.{
  Probes, Gates, healthy_nodes, get_spec_replicas, settle, act, decide, reconcile_quorum,
}
use typesense_operator.Quorum.Reconcile.Outcomes.{IsCoherent, reconcile_quorum-IsCoherent}
use typesense_operator.Quorum.Reconcile.Ready.{decide_ready}
use typesense_operator.Quorum.Reconcile.Requests.{reconcile_quorum-IsAllowed}
use typesense_operator.Quorum.Reconcile.Scaling.{IsAllowed}
use typesense_operator.Tests.Sample.{sample_client, cluster, key, set_of, by_address, start}

abbrev three_members : Members
three_members = record {
  min_required_nodes = 2;
  available_nodes = 3;
  nodes = [];
  nodes_list_config_map = by_address;
}

abbrev calm : Probes
calm = record { statuses = []; queued = pos 3 }

abbrev two_healthy : Gates
two_healthy = record {
  needs_attention = false;
  health = (codes "ts-sts-0", true) ∷ (codes "ts-sts-1", true) ∷ (codes "ts-sts-2", false) ∷ [];
}

abbrev one_leader : Dict NodeStatus
one_leader =
    (codes "ts-sts-0", with_state leader)
    ∷ (codes "ts-sts-1", with_state follower)
    ∷ (codes "ts-sts-2", with_state unreachable)
    ∷ []

abbrev leader_second : Dict NodeStatus
leader_second =
    (codes "ts-sts-1", with_state follower)
    ∷ (codes "ts-sts-0", with_state leader)
    ∷ (codes "ts-sts-2", with_state unreachable)
    ∷ []

one_leader_run : get_cluster_status one_leader ≡ cluster_ok
unfolding get_cluster_status leader_nodes not_ready_nodes judge_counts get_minimum_required_nodes
one_leader_run = refl

ready_run :
    (decide sample_client cluster key
      (set_of 3)
      three_members
      calm
      cluster_ok
      (pos 500)
      two_healthy
      (start 3)).0.condition
    ≡ quorum_ready
unfolding decide act settle pure healthy_nodes
ready_run = refl

reconcile_quorum-IsCoherent_example :
    IsCoherent (reconcile_quorum sample_client cluster (codes "key") key (start 3)).0
reconcile_quorum-IsCoherent_example =
    reconcile_quorum-IsCoherent sample_client cluster (codes "key") key (start 3)

reconcile_quorum-IsAllowed_example :
    All
      (IsAllowed cluster)
      (reconcile_quorum sample_client cluster (codes "key") key (start 1)).1.writes
reconcile_quorum-IsAllowed_example =
    reconcile_quorum-IsAllowed sample_client cluster (codes "key") key (start 1).state refl

decide_ready_example :
    (2 ≤ healthy_nodes two_healthy.health)
    × (two_healthy.needs_attention ≡ false)
    × ((ltb_ℤ (pos 500) calm.queued && ltb 0 (healthy_nodes two_healthy.health)) ≡ false)
    × (cluster_ok ≢ election_deadlock)
    × (cluster_ok ≡ cluster_ok → cluster.replicas ≤ get_spec_replicas (set_of 3).spec_replicas)
    × ((decide sample_client cluster key
          (set_of 3)
          three_members
          calm
          cluster_ok
          (pos 500)
          two_healthy
          (start 3)).1
        ≡ start 3)
decide_ready_example =
    decide_ready sample_client cluster key (set_of 3) three_members calm cluster_ok (pos 500)
      two_healthy (start 3) ready_run

enough_healthy : 2 ≤ healthy_nodes two_healthy.health
unfolding healthy_nodes
enough_healthy = omega arith

get_cluster_status_iff_example :
    ((get_cluster_status one_leader ≡ split_brain) ↔ (1 < leader_nodes one_leader))
    × ((get_cluster_status one_leader ≡ election_deadlock) ↔ (
        (leader_nodes one_leader ≡ 0)
        × (1 < length one_leader)
        × (not_ready_nodes one_leader ≢ length one_leader)))
    × ((get_cluster_status one_leader ≡ cluster_ok) ↔ (
        (leader_nodes one_leader ≡ 1)
        × (get_minimum_required_nodes (length one_leader)
            ≤ length one_leader - not_ready_nodes one_leader)))
get_cluster_status_iff_example = get_cluster_status_iff one_leader

get_cluster_status-perm_example : get_cluster_status one_leader ≡ get_cluster_status leader_second
get_cluster_status-perm_example =
    get_cluster_status-perm {xs = one_leader} {ys = leader_second}
      (Perm.swap (codes "ts-sts-1", with_state follower) (codes "ts-sts-0", with_state leader) _)

get_minimum_required_nodes-majority_example :
    (3 < 2 * get_minimum_required_nodes 3) × (2 * (get_minimum_required_nodes 3 - 1) < 3)
get_minimum_required_nodes-majority_example = get_minimum_required_nodes-majority 3 refl

abbrev out_of_disk_answer : Result NodeHealth
out_of_disk_answer = ok (record { healthy = false; resource_error = some out_of_disk })

gate_condition_lem_example :
    (((gate_condition (with_state leader) out_of_disk_answer).status ≡ codes "True")
      ↔ ((h : NodeHealth) × (out_of_disk_answer ≡ ok h) × (h.healthy ≡ true)))
    × (text_eq
          (gate_condition (with_state leader) out_of_disk_answer).reason
          (gate_reason_text node_not_recoverable)
        ≡ false)
gate_condition_lem_example = gate_condition_lem (with_state leader) out_of_disk_answer

abbrev initialized : PodCondition
initialized = record {
  kind = codes "Initialized";
  status = codes "True";
  reason = [];
  message = [];
}

abbrev raft_ready : Text → PodCondition
raft_ready status = record {
  kind = codes "RaftQuorumReady";
  status = status;
  reason = [];
  message = [];
}

abbrev twice_raft : List PodCondition
twice_raft = raft_ready [] ∷ initialized ∷ raft_ready (codes "False") ∷ []

updated_conditions_run :
    updated_conditions (raft_ready (codes "True")) twice_raft
    ≡ raft_ready (codes "True") ∷ initialized ∷ []
unfolding updated_conditions replace_condition text_eq
updated_conditions_run = refl

updated_conditions_lem_example :
    let c = raft_ready (codes "True") in
    (count_if (has_kind_of c) (updated_conditions c twice_raft) ≡ 1)
    × (keep (λ d. not (has_kind_of c d)) (updated_conditions c twice_raft)
        ≡ keep (λ d. not (has_kind_of c d)) twice_raft)
    × (updated_conditions c (updated_conditions c twice_raft) ≡ updated_conditions c twice_raft)
updated_conditions_lem_example = updated_conditions_lem (raft_ready (codes "True")) twice_raft

abbrev bad_logs : Text
bad_logs = codes "E Failed to start peering state"

probe-logs_example :
    ((status_of sample_client bad_logs (body [])).state ≢ missing)
    × (inspect_pod_logs bad_logs errors_require_pod_termination ≡ true
        → (((status_of sample_client bad_logs (body [])).state ≡ error_state)
            ⊎ ((status_of sample_client bad_logs (body [])).state ≡ unreachable))
          × ((health_of sample_client bad_logs (body [])).healthy ≡ false))
probe-logs_example = probe-logs sample_client bad_logs (body [])
