-- ===== src/Quorum/Reconcile.antt =====
-- `ReconcileQuorum`, in the stages of the source: the probes, the readiness gates, the decision.
pub mod Outcomes
pub mod Scaling
pub mod Requests
pub mod Ready
use typesense_operator.Base.{
  Text, codes, text_eq, remove_all, parse_bool, decimal, ℕ, ◌+◌, Bool, true, false, ◌&&◌, ◌||◌,
  Option, none, some, List, [], ◌∷◌, ◌++◌, count_if, ltb, ◌==◌, if◌then◌else◌,
}
use typesense_operator.Base.Int.{ℤ, pos, ltb_ℤ}
use typesense_operator.Base.Dict.{Dict, insert, get_or, lookup}
use typesense_operator.Base.Exec.{
  Error, Result, ok, err, pure, ◌>>=◌, ◌>>◌, on_result, attempt, or_return,
}
use typesense_operator.Api.{
  Pod, PodCondition, ConfigMap, StatefulSet, TypesenseCluster, ObjectKey, cluster_stateful_set,
}
use typesense_operator.Api.Client.{Client, M}
use typesense_operator.ConfigMap.Force.{has_bootstrap_values}
use typesense_operator.Node.{
  NodeState, error_state, unreachable, missing, NodeStatus, with_state, NodeEndpoint, ClusterStatus,
  cluster_ok, split_brain, cluster_not_ready, election_deadlock, ConditionQuorum, quorum_ready,
  quorum_not_ready, wait_a_term, memory_or_disk_issue, cluster_is_lagging, queued_writes_pending,
  stateful_set_not_ready,
}
use typesense_operator.Quorum.Cluster.{get_cluster_status}
use typesense_operator.Quorum.Gate.{
  node_not_recoverable, gate_reason_text, calculate_pod_readiness_gate, update_pod_readiness_gate,
}
use typesense_operator.Quorum.Lag.{get_healthy_write_lag_threshold}
use typesense_operator.Quorum.Members.{Members, get_quorum, node_endpoints}
use typesense_operator.Quorum.Probe.{get_node_status, get_pod_logs, get_http_client}
use typesense_operator.Quorum.Resize.{Outcome, reached, failed, downgrade_quorum, upgrade_quorum}
use typesense_operator.StatefulSet.{
  get_fresh_stateful_set, purge_stateful_set_pods, get_unscheduled_pods, restart_unscheduled_pods,
}

-- What the probes leave: the status by pod, and the largest number of queued writes.
pub record Probes : Type 0 where
  pub statuses : Dict NodeStatus
  pub queued : ℤ

-- `if status.QueuedWrites > 0 && queuedWrites < status.QueuedWrites`
unfoldable pub max_queued : ℤ → ℤ → ℤ
max_queued queued writes = if ltb_ℤ (pos 0) writes && ltb_ℤ queued writes then writes else queued

-- What the loop over the readiness gates leaves.
pub record Gates : Type 0 where
  pub needs_attention : Bool
  pub health : Dict Bool

-- `podObjectKey`
unfoldable pub pod_key : TypesenseCluster → Text → ObjectKey
unfolding remove_all
pod_key ts key = record {
  namespace = ts.namespace;
  name =
      cluster_stateful_set ts
      ++ (codes "-" ++ remove_all (cluster_stateful_set ts ++ codes "-") key);
}

unfoldable pub note_gate : Text → PodCondition → Gates → Gates
unfolding insert parse_bool text_eq gate_reason_text
note_gate key condition gates = record {
  needs_attention =
      gates.needs_attention || text_eq condition.reason (gate_reason_text node_not_recoverable);
  health = insert key (parse_bool condition.status) gates.health;
}

-- `*sts.Spec.Replicas`; the API server never leaves the pointer nil.
abbrev pub get_spec_replicas : Option ℕ → ℕ
get_spec_replicas none = 1
get_spec_replicas (some n) = n

unfoldable pub healthy_nodes : Dict Bool → ℕ
healthy_nodes = count_if (λ (_, healthy). healthy)

module _ (C : Client) where
  -- The logs of every pod; those that cannot be read are empty.
  unfoldable pub collect_logs : TypesenseCluster → List NodeEndpoint → Dict Text → M C (Dict Text)
  collect_logs ts [] logs = pure logs
  collect_logs ts (ne ∷ nes) logs = get_pod_logs C ne ts.namespace >>= λ r.
      on_result r (λ _. pure []) pure >>= λ l. collect_logs ts nes (insert ne.pod_name l logs)

  -- The loop over `getNodeStatus`.
  unfoldable pub collect_statuses :
      TypesenseCluster → Text → Dict Text → List NodeEndpoint → Probes → M C Probes
  collect_statuses ts api_key logs [] probes = pure probes
  collect_statuses ts api_key logs (ne ∷ nes) probes =
      get_node_status C ne ts api_key (get_or [] ne.pod_name logs) >>= λ status.
      collect_statuses ts api_key logs nes (record {
        statuses = insert ne.pod_name status probes.statuses;
        queued = max_queued probes.queued status.queued_writes;
      })

  -- The loop over the readiness gates; it stops at the first gate that cannot be written.
  unfoldable pub update_gates :
      TypesenseCluster
      → Dict Text
      → Dict NodeStatus
      → List NodeEndpoint
      → Gates
      → M C (Result Gates)
  update_gates ts logs statuses [] gates = pure (ok gates)
  update_gates ts logs statuses (ne ∷ nes) gates =
      calculate_pod_readiness_gate C ne (get_or (with_state missing) ne.pod_name statuses) ts
        (get_or [] ne.pod_name logs)
      >>= λ condition.
          attempt (update_pod_readiness_gate C (pod_key ts ne.pod_name) condition)
            λ _. update_gates ts logs statuses nes (note_gate ne.pod_name condition gates)

  -- What is done of a quorum that has no single leader, unless its nodes still have to start.
  unfoldable pub downgrade_or_wait : TypesenseCluster → ConfigMap → ObjectKey → ℕ → ℕ → M C Outcome
  downgrade_or_wait ts cm key healthy min_required =
      on_result (has_bootstrap_values ts cm) (λ e. pure (failed e))
        λ hbv.
          if hbv
          then pure (reached wait_a_term)
          else downgrade_quorum C ts cm key healthy min_required

  -- A single node that is in error or cannot be reached is purged.
  unfoldable pub single_node : TypesenseCluster → StatefulSet → NodeState → M C Outcome
  single_node ts sts error_state =
      or_return (purge_stateful_set_pods C sts) (λ e. pure (failed e))
        λ _. pure (reached quorum_not_ready)
  single_node ts sts unreachable =
      or_return (purge_stateful_set_pods C sts) (λ e. pure (failed e))
        λ _. pure (reached quorum_not_ready)
  single_node ts sts _ = pure (reached wait_a_term)

  -- The last two tests of the function.
  unfoldable pub settle : Members → ℕ → M C Outcome
  settle q healthy =
      if ltb healthy q.min_required_nodes
      then pure (reached quorum_not_ready)
      else pure (reached quorum_ready)

  -- From line 177 on: what follows from the status of the cluster.
  unfoldable pub act :
      TypesenseCluster
      → ObjectKey
      → StatefulSet
      → Members
      → Probes
      → ℕ
      → ClusterStatus
      → M C Outcome
  act ts key sts q probes healthy election_deadlock =
      downgrade_or_wait ts q.nodes_list_config_map key healthy q.min_required_nodes
  act ts key sts q probes healthy cluster_not_ready =
      if q.available_nodes == 1
      then single_node ts sts
          (get_or (with_state missing) (cluster_stateful_set ts ++ codes "-0")
            probes.statuses).state
      else if ltb healthy q.min_required_nodes
      then pure (reached wait_a_term)
      else settle q healthy
  act ts key sts q probes healthy cluster_ok =
      if ltb (get_spec_replicas sts.spec_replicas) ts.replicas
      then (if ltb_ℤ (pos 0) probes.queued
          then pure (reached queued_writes_pending)
          else upgrade_quorum C ts q.nodes_list_config_map key)
      else settle q healthy
  act ts key sts q probes healthy split_brain = settle q healthy

  -- From line 157 on, with the gates written.
  unfoldable pub decide :
      TypesenseCluster
      → ObjectKey
      → StatefulSet
      → Members
      → Probes
      → ClusterStatus
      → ℤ
      → Gates
      → M C Outcome
  decide ts key sts q probes status threshold gates =
      if gates.needs_attention
      then pure (reached memory_or_disk_issue)
      else if ltb_ℤ threshold probes.queued && ltb 0 (healthy_nodes gates.health)
      then pure (reached cluster_is_lagging)
      else act ts key sts q probes (healthy_nodes gates.health) status

  -- From line 115 on, with every node probed.
  unfoldable pub judge :
      TypesenseCluster
      → ObjectKey
      → StatefulSet
      → Members
      → Dict Text
      → ℤ
      → Probes
      → ClusterStatus
      → M C Outcome
  judge ts key sts q logs threshold probes split_brain =
      downgrade_or_wait ts q.nodes_list_config_map key sts.ready_replicas q.min_required_nodes
  judge ts key sts q logs threshold probes status =
      or_return
        (update_gates ts logs probes.statuses (node_endpoints q.nodes)
          (record { needs_attention = false; health = [] }))
        (λ e. pure (failed e)) (decide ts key sts q probes status threshold)

  -- `GetUnscheduledPods` and `RestartUnscheduledPods`, whose errors are dropped.
  unfoldable pub restart_unscheduled : StatefulSet → M C (Unit {0})
  restart_unscheduled sts =
      or_return (get_unscheduled_pods C sts) (λ _. pure tt)
        λ pods. elim pods [ [] ↦ pure tt | p ∷ ps ↦ restart_unscheduled_pods C (p ∷ ps) ]

  -- The probes of lines 53 to 113, and the judgement of what they found.
  unfoldable pub probe_and_judge :
      TypesenseCluster → Text → ObjectKey → StatefulSet → Members → M C Outcome
  probe_and_judge ts api_key key sts q =
      on_result (get_http_client C) (λ e. pure (failed e))
        λ _. get_healthy_write_lag_threshold C ts >>= λ threshold.
          collect_logs ts (node_endpoints q.nodes) [] >>= λ logs.
          collect_statuses ts api_key logs (node_endpoints q.nodes)
            (record { statuses = []; queued = pos 0 })
          >>= λ probes.
              judge ts key sts q logs threshold probes (get_cluster_status probes.statuses)

  -- `ReconcileQuorum`; `api_key` is the admin key of the secret.
  unfoldable pub reconcile_quorum : TypesenseCluster → Text → ObjectKey → M C Outcome
  reconcile_quorum ts api_key key =
      or_return (get_fresh_stateful_set C key) (λ e. pure (failed e))
        λ sts.
          or_return (get_quorum C ts sts) (λ e. pure (failed e))
            λ q.
              restart_unscheduled sts
              >> (if ltb q.available_nodes q.min_required_nodes
                  then pure (reached stateful_set_not_ready)
                  else probe_and_judge ts api_key key sts q)
