-- ===== src/Node.antt =====
-- typesensecluster_quorum_types.go, and the conditions of typesensecluster_condition_types.go.
use typesense_operator.Base.{Text, codes, Bool, Option, List, [], ◌∷◌}
use typesense_operator.Base.Int.{ℤ, pos}

-- The Go type is a string: `missing` is the empty one and `other_state` any further one.
pub data NodeState : Type 0 where
  leader follower candidate not_ready error_state unreachable missing : NodeState
  other_state : Text → NodeState

unfoldable pub state_text : NodeState → Text
state_text leader = codes "LEADER"
state_text follower = codes "FOLLOWER"
state_text candidate = codes "CANDIDATE"
state_text not_ready = codes "NOT_READY"
state_text error_state = codes "ERROR"
state_text unreachable = codes "UNREACHABLE"
state_text missing = []
state_text (other_state s) = s

pub record NodeStatus : Type 0 where
  pub committed_index : ℤ
  pub queued_writes : ℤ
  pub state : NodeState

-- `NodeStatus{State: s}`
abbrev pub with_state : NodeState → NodeStatus
with_state s = record { committed_index = pos 0; queued_writes = pos 0; state = s }

pub data ClusterStatus : Type 0 where
  cluster_ok split_brain cluster_not_ready election_deadlock : ClusterStatus

pub data ResourceError : Type 0 where
  out_of_memory out_of_disk : ResourceError
  other_resource : Text → ResourceError

unfoldable pub resource_error_text : ResourceError → Text
resource_error_text out_of_memory = codes "OUT_OF_MEMORY"
resource_error_text out_of_disk = codes "OUT_OF_DISK"
resource_error_text (other_resource s) = s

pub record NodeHealth : Type 0 where
  pub healthy : Bool  -- `Ok`
  pub resource_error : Option ResourceError

pub record NodeEndpoint : Type 0 where
  pub pod_name : Text
  pub ip : Text

pub data ConditionQuorum : Type 0 where
  quorum_state_unknown quorum_ready quorum_not_ready wait_a_term downgraded upgraded purged :
      ConditionQuorum
  memory_or_disk_issue cluster_is_lagging queued_writes_pending stateful_set_not_ready :
      ConditionQuorum

-- The constants of the source.
unfoldable pub condition_text : ConditionQuorum → Text
condition_text quorum_state_unknown = codes "QuorumStateUnknown"
condition_text quorum_ready = codes "QuorumReady"
condition_text quorum_not_ready = codes "QuorumNotReady"
condition_text wait_a_term = codes "QuorumNotReadyWaitATerm"
condition_text downgraded = codes "QuorumDowngraded"
condition_text upgraded = codes "QuorumUpgraded"
condition_text purged = codes "QuorumPurged"
condition_text memory_or_disk_issue = codes "QuorumNeedsAttentionMemoryOrDiskIssue"
condition_text cluster_is_lagging = codes "QuorumNeedsAttentionClusterIsLagging"
condition_text queued_writes_pending = codes "QuorumQueuedWrites"
condition_text stateful_set_not_ready = codes "StatefulSetNotReady"

-- `ErrorsRequirePodTermination`
abbrev pub errors_require_pod_termination : List Text
errors_require_pod_termination =
    codes "Failed to start peering state" ∷ codes "Can't truncate logs before _applied_id" ∷ []
