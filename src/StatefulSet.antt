-- ===== src/StatefulSet.antt =====
-- internal/controller/typesensecluster_statefulset.go, from `ScaleStatefulSet` on: the operations
-- that scale the stateful set and delete its pods. `Decision` is typesensecluster_statefulset_hash.go,
-- `Build`, `Containers` and `Reconcile` are the part of the file before them.
pub mod Decision
pub mod Scale
pub mod Pods
pub mod Containers
pub mod Build
pub mod Reconcile
use typesense_operator.Base.{
  Text, codes, ℕ, Bool, true, false, ◌&&◌, ◌||◌, Option, none, some, List, [], ◌∷◌, ◌++◌, any, ◌==◌,
  if◌then◌else◌,
}
use typesense_operator.Base.Exec.{
  Error, Result, ok, err, pure, ◌>>=◌, ◌>>◌, on_result, attempt, or_return,
}
use typesense_operator.Api.{Pod, PodCondition, StatefulSet, ObjectKey, TypesenseCluster}
use typesense_operator.Api.Client.{
  Client, M, read, request, record_event, update_stateful_set, delete_pod,
}
use typesense_operator.ConfigMap.Nodes.{is_unschedulable, is_pending}

abbrev pub has_replicas : Option ℕ → ℕ → Bool
has_replicas none n = false
has_replicas (some m) n = m == n

unscheduled_of : Pod → List PodCondition → List Pod
unfolding is_unschedulable
unscheduled_of pod [] = []
unscheduled_of pod (cond ∷ conds) =
    let rest = unscheduled_of pod conds in if is_unschedulable cond then pod ∷ rest else rest

-- The loop of `GetUnscheduledPods`: a pod comes back once for each condition that says so.
unfoldable pub unscheduled_pods : List Pod → List Pod
unfolding unscheduled_of is_pending
unscheduled_pods [] = []
unscheduled_pods (pod ∷ pods) =
    (if is_pending pod then unscheduled_of pod pod.conditions else []) ++ unscheduled_pods pods

module _ (C : Client) where
  -- `GetFreshStatefulSet`
  unfoldable pub get_fresh_stateful_set : ObjectKey → M C (Result StatefulSet)
  get_fresh_stateful_set key = read C (C.get_stateful_set key)

  -- `ScaleStatefulSet`
  unfoldable pub scale_stateful_set : ObjectKey → ℕ → M C (Result (Unit {0}))
  scale_stateful_set key desired = attempt (get_fresh_stateful_set key) λ sts.
      if has_replicas sts.spec_replicas desired
      then pure (ok tt)
      else request C (update_stateful_set (record sts { spec_replicas = some desired }))

  -- The loop of `PurgeStatefulSetPods`: it stops at the first pod that is not deleted.
  unfoldable pub delete_pods : List Pod → M C (Result (Unit {0}))
  delete_pods [] = pure (ok tt)
  delete_pods (pod ∷ pods) =
      attempt (request C (delete_pod pod.namespace pod.name false)) λ _. delete_pods pods

  -- `PurgeStatefulSetPods`
  unfoldable pub purge_stateful_set_pods : StatefulSet → M C (Result (Unit {0}))
  purge_stateful_set_pods sts =
      attempt (read C (C.list_pods sts.namespace sts.match_labels)) λ pods.
        attempt (delete_pods pods) λ _.
          record_event C (codes "Warning") (codes "QuorumPurged") (codes "quorum has been purged")
          >> pure (ok tt)

  -- `GetUnscheduledPods`
  unfoldable pub get_unscheduled_pods : StatefulSet → M C (Result (List Pod))
  get_unscheduled_pods sts =
      attempt (read C (C.list_pods sts.namespace sts.match_labels))
        λ pods. pure (ok (unscheduled_pods pods))

  -- The conditions of one pod; whether a request to delete it succeeded.
  unfoldable pub restart_for : Pod → List PodCondition → Bool → M C Bool
  restart_for pod [] removed_any = pure removed_any
  restart_for pod (cond ∷ conds) removed_any =
      (if is_unschedulable cond
        then (request C (delete_pod pod.namespace pod.name true) >>= λ r.
            on_result r (λ _. pure removed_any) (λ _. pure true))
        else pure removed_any)
      >>= restart_for pod conds

  unfoldable pub restart_pods : List Pod → Bool → M C Bool
  restart_pods [] removed_any = pure removed_any
  restart_pods (pod ∷ pods) removed_any =
      (if is_pending pod then restart_for pod pod.conditions removed_any else pure removed_any)
      >>= restart_pods pods

  -- `RestartUnscheduledPods`, which always returns nil.
  unfoldable pub restart_unscheduled_pods : List Pod → M C (Unit {0})
  restart_unscheduled_pods pods = restart_pods pods false >>= λ removed_any.
      if removed_any
      then record_event C (codes "Warning") (codes "StatefulSetNotReady")
          (codes "removed unscheduled pods")
      else pure tt

  -- `RestartAllUnscheduledPods`
  unfoldable pub restart_all_unscheduled_pods : StatefulSet → M C (Result (Unit {0}))
  restart_all_unscheduled_pods sts =
      attempt (read C (C.list_pods sts.namespace sts.match_labels))
        λ pods. restart_unscheduled_pods pods >> pure (ok tt)
