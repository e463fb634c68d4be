-- ===== src/Quorum/Cluster.antt =====
-- `getMinimumRequiredNodes` and `getClusterStatus`.
pub mod Laws
use typesense_operator.Base.{
  Text, ℕ, ◌+◌, ◌-◌, ◌/◌, Bool, true, false, List, length, count_if, ltb, leb, ◌==◌, if◌then◌else◌,
}
use typesense_operator.Base.Dict.{Dict}
use typesense_operator.Node.{
  NodeState, leader, not_ready, unreachable, NodeStatus, ClusterStatus, cluster_ok, split_brain,
  cluster_not_ready, election_deadlock,
}

-- Go's `/` rounds towards 0, so `(0 - 1) / 2` is 0 there as with the `-` of ℕ.
unfoldable pub get_minimum_required_nodes : ℕ → ℕ
get_minimum_required_nodes available = (available - 1) / 2 + 1

abbrev pub is_leader : NodeState → Bool
is_leader leader = true
is_leader _ = false

-- A node that the source counts in `notReadyNodes`.
abbrev pub is_down : NodeState → Bool
is_down not_ready = true
is_down unreachable = true
is_down _ = false

unfoldable pub leader_nodes : Dict NodeStatus → ℕ
leader_nodes = count_if (λ (_, s). is_leader s.state)

unfoldable pub not_ready_nodes : Dict NodeStatus → ℕ
not_ready_nodes = count_if (λ (_, s). is_down s.state)

-- The cascade of `getClusterStatus` over its three counts.
unfoldable pub judge_counts : ℕ → ℕ → ℕ → ClusterStatus
unfolding get_minimum_required_nodes
judge_counts available leaders down =
    if ltb 1 leaders
    then split_brain
    else if leaders == 0
    then (if leb available 1
        then cluster_not_ready
        else if available == down
        then cluster_not_ready
        else election_deadlock)
    else if leaders == 1
    then (if ltb (available - down) (get_minimum_required_nodes available)
        then cluster_not_ready
        else cluster_ok)
    else cluster_not_ready

-- `getClusterStatus`, over the map in the order of some iteration.
unfoldable pub get_cluster_status : Dict NodeStatus → ClusterStatus
unfolding leader_nodes not_ready_nodes judge_counts
get_cluster_status nodes = judge_counts (length nodes) (leader_nodes nodes) (not_ready_nodes nodes)
