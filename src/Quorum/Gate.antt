-- ===== src/Quorum/Gate.antt =====
-- The readiness gate of a pod: `calculatePodReadinessGate` and `updatePodReadinessGate`.
pub mod Conditions
use typesense_operator.Base.{
  Text, codes, text_eq, Bool, true, false, ◌||◌, Option, none, some, List, [], ◌∷◌, ◌++◌,
  if◌then◌else◌,
}
use typesense_operator.Base.Exec.{Error, Result, ok, err, pure, ◌>>=◌, on_result, or_return}
use typesense_operator.Api.{Pod, PodCondition, ObjectKey, TypesenseCluster}
use typesense_operator.Api.Client.{Client, M, read, request, patch_pod_status}
use typesense_operator.Node.{
  NodeStatus, NodeHealth, NodeEndpoint, ResourceError, out_of_memory, out_of_disk, state_text,
  resource_error_text,
}
use typesense_operator.Quorum.Probe.{get_node_health}

abbrev pub quorum_readiness_gate_condition : Text
quorum_readiness_gate_condition = codes "RaftQuorumReady"

-- `readinessGateReason`
pub data GateReason : Type 0 where
  node_healthy node_not_healthy node_not_recoverable : GateReason

unfoldable pub gate_reason_text : GateReason → Text
gate_reason_text node_healthy = codes "NodeHealthy"
gate_reason_text node_not_healthy = codes "NodeNotHealthy"
gate_reason_text node_not_recoverable = codes "NodeNotRecoverable"

-- The three variables of `calculatePodReadinessGate`.
pub record Gate : Type 0 where
  pub reason : GateReason
  pub message : Text
  pub status : Text

-- `health.ResourceError != nil && (… == OutOfMemory || … == OutOfDisk)`
unfoldable pub is_blocking : Option ResourceError → Bool
is_blocking (some out_of_memory) = true
is_blocking (some out_of_disk) = true
is_blocking _ = false

error_message : Option ResourceError → Text
unfolding resource_error_text
error_message none = []
error_message (some e) = codes "node is failing: " ++ resource_error_text e

-- The assignments in the order of the source: the second overwrites the reason of the first.
unfoldable pub judge_health : Gate → Result NodeHealth → Gate
unfolding is_blocking error_message
judge_health gate (err e) = record gate { reason = node_not_healthy; status = codes "False" }
judge_health gate (ok health) =
    if health.healthy
    then gate
    else let blocked : Gate =
        if is_blocking health.resource_error
        then record {
          reason = node_not_recoverable;
          message = error_message health.resource_error;
          status = codes "False";
        }
        else gate in
      record blocked { reason = node_not_healthy; status = codes "False" }

-- The condition that `calculatePodReadinessGate` returns for a node's status and health.
unfoldable pub gate_condition : NodeStatus → Result NodeHealth → PodCondition
unfolding judge_health state_text gate_reason_text
gate_condition status health =
    let gate : Gate =
      judge_health
        (record {
          reason = node_healthy;
          message = codes "node's role is now: " ++ state_text status.state;
          status = codes "True";
        })
        health in
    record {
      kind = quorum_readiness_gate_condition;
      status = gate.status;
      reason = gate_reason_text gate.reason;
      message = gate.message;
    }

-- The loop of `updatePodReadinessGate`: the first condition of the kind is replaced, further ones
-- are dropped; `found` says whether one was seen.
unfoldable pub replace_condition : PodCondition → Bool → List PodCondition → List PodCondition
unfolding text_eq
replace_condition condition found [] = if found then [] else condition ∷ []
replace_condition condition found (c ∷ conds) = elim (text_eq c.kind condition.kind) [
  | true ↦
      if found
      then replace_condition condition found conds
      else condition ∷ replace_condition condition true conds
  | false ↦ c ∷ replace_condition condition found conds
]

unfoldable pub updated_conditions : PodCondition → List PodCondition → List PodCondition
unfolding replace_condition
updated_conditions condition conds = replace_condition condition false conds

module _ (C : Client) where
  -- `calculatePodReadinessGate`
  unfoldable pub calculate_pod_readiness_gate :
      NodeEndpoint → NodeStatus → TypesenseCluster → Text → M C PodCondition
  calculate_pod_readiness_gate node status ts logs =
      get_node_health C node ts logs >>= λ health. pure (gate_condition status health)

  -- `updatePodReadinessGate`: a pod that cannot be read is passed over.
  unfoldable pub update_pod_readiness_gate : ObjectKey → PodCondition → M C (Result (Unit {0}))
  update_pod_readiness_gate key condition =
      or_return (read C (C.get_pod key)) (λ _. pure (ok tt))
        λ pod. request C (
          patch_pod_status pod
            (record pod { conditions = updated_conditions condition pod.conditions }))
