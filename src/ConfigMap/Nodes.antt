-- ===== src/ConfigMap/Nodes.antt =====
-- `getNodes`: the raft nodes that the config map should list.
pub mod Fallback
pub mod Size
use typesense_operator.Base.{
  Text, codes, text_eq, decimal, ℕ, zero, suc, ◌+◌, Bool, true, false, ◌&&◌, Option, none, some,
  List, [], ◌∷◌, ◌++◌, length, any, count_if, ltb, ◌==◌, if◌then◌else◌,
}
use typesense_operator.Base.Exec.{
  Error, not_found, other, panic, Result, ok, err, pure, ◌>>=◌, on_result, attempt, or_return,
}
use typesense_operator.Api.{Pod, PodCondition, StatefulSet, TypesenseCluster, stateful_set_key}
use typesense_operator.Api.Client.{Client, M, read}
use typesense_operator.ConfigMap.Endpoints.{
  raft_endpoint, get_endpoint_slices_for_stateful_set, slice_nodes,
}

abbrev pub node_name_len_limit : ℕ
node_name_len_limit = 64

-- `"%s-sts-%d.%s-sts-svc"`
unfoldable pub node_name : TypesenseCluster → ℕ → Text
unfolding decimal
node_name ts i =
    ts.name ++ (codes "-sts-" ++ (decimal i ++ (codes "." ++ (ts.name ++ codes "-sts-svc"))))

pub node_name_error : Text → Error
node_name_error name =
    other (codes "raft error: node name should not exceed 64 characters: " ++ name)

-- The rounds of `getFallbackNodes` that are left, from `i`.
unfoldable pub fallback_from : TypesenseCluster → ℕ → ℕ → List Text → Result (List Text)
fallback_from ts zero i nodes = ok nodes
fallback_from ts (suc k) i nodes =
    let rest = fallback_from ts k (suc i) (nodes ++ (raft_endpoint ts (node_name ts i) ∷ [])) in
    if ltb node_name_len_limit (length (node_name ts i))
    then err (node_name_error (node_name ts i))
    else rest

-- `getFallbackNodes` on an empty list: the nodes by their names in the headless service.
unfoldable pub get_fallback_nodes : TypesenseCluster → Result (List Text)
get_fallback_nodes ts = fallback_from ts ts.replicas 0 []

-- The condition by which the scheduler reports that it found no node for a pod.
unfoldable pub is_unschedulable : PodCondition → Bool
unfolding text_eq
is_unschedulable cond =
    text_eq cond.kind (codes "PodScheduled")
    && text_eq cond.status (codes "False")
    && text_eq cond.reason (codes "Unschedulable")

unfoldable pub is_pending : Pod → Bool
unfolding text_eq
is_pending pod = text_eq pod.phase (codes "Pending")

-- `unscheduledPods` of `getNodes`: each pod counts once.
unfoldable pub count_unscheduled : List Pod → ℕ
unfolding is_unschedulable is_pending
count_unscheduled = count_if (λ pod. is_pending pod && any is_unschedulable pod.conditions)

-- `ptr.Deref(replicas, 1)`
abbrev pub deref_replicas : Option ℕ → ℕ
deref_replicas none = 1
deref_replicas (some n) = n

module _ (C : Client) where
  -- `getNodes` from line 250 on, with the stateful set at hand.
  unfoldable pub get_live_nodes : TypesenseCluster → StatefulSet → M C (Result (List Text))
  get_live_nodes ts sts =
      or_return (read C (C.list_pods sts.namespace sts.match_labels))
        (λ _. pure (get_fallback_nodes ts))
        λ pods.
          if count_unscheduled pods == deref_replicas sts.spec_replicas
          then pure (get_fallback_nodes ts)
          else attempt (get_endpoint_slices_for_stateful_set C sts)
              λ slices. pure (ok (slice_nodes ts slices))

  -- Without a stateful set `unscheduledPods` and `targetReplicas` are both `replicas`; where they
  -- differed, the source would go on with a nil stateful set and panic.
  unfoldable pub without_stateful_set : TypesenseCluster → ℕ → Error → M C (Result (List Text))
  without_stateful_set ts replicas (not_found m) =
      let unscheduled : ℕ = replicas in
      let target : ℕ = replicas in
      if unscheduled == target
      then pure (get_fallback_nodes ts)
      else pure (err (panic (codes "invalid memory address or nil pointer dereference")))
  without_stateful_set ts replicas (other m) = pure (err (other m))
  without_stateful_set ts replicas (panic m) = pure (err (panic m))

  -- `getNodes`
  unfoldable pub get_nodes : TypesenseCluster → ℕ → Bool → M C (Result (List Text))
  get_nodes ts replicas true = pure (get_fallback_nodes ts)
  get_nodes ts replicas false =
      or_return (read C (C.get_stateful_set (stateful_set_key ts)))
        (without_stateful_set ts replicas) (get_live_nodes ts)
