-- ===== src/Quorum/Resize.antt =====
-- `downgradeQuorum` and `upgradeQuorum`.
use typesense_operator.Base.{ℕ, ◌+◌, true, ◌&&◌, Option, none, some, ◌==◌, if◌then◌else◌}
use typesense_operator.Base.Exec.{Error, Result, ok, pure, ◌>>◌, or_return}
use typesense_operator.Api.{ConfigMap, StatefulSet, TypesenseCluster, ObjectKey}
use typesense_operator.Api.Client.{Client, M}
use typesense_operator.ConfigMap.Update.{Updated, update_config_map}
use typesense_operator.ConfigMap.Force.{force_pods_config_map_update}
use typesense_operator.Node.{ConditionQuorum, quorum_not_ready, downgraded, upgraded}
use typesense_operator.StatefulSet.{
  get_fresh_stateful_set, scale_stateful_set, purge_stateful_set_pods,
}

-- What `ReconcileQuorum` returns: the condition, the size, and the error.
pub record Outcome : Type 0 where
  pub condition : ConditionQuorum
  pub size : ℕ
  pub error : Option Error

-- `return condition, 0, nil`
abbrev pub reached : ConditionQuorum → Outcome
reached c = record { condition = c; size = 0; error = none }

-- `return ConditionReasonQuorumNotReady, 0, err`
abbrev pub failed : Error → Outcome
failed e = record { condition = quorum_not_ready; size = 0; error = some e }

-- The size that `upgradeQuorum` scales to.
unfoldable pub upgrade_size : TypesenseCluster → StatefulSet → ℕ
upgrade_size ts sts =
    if ts.incremental_quorum_recovery then sts.status_replicas + 1 else ts.replicas

module _ (C : Client) where
  -- `if updated && ts.Spec.ForceResetPeersConfigOnUpdate { _ = r.forcePodsConfigMapUpdate(…) }`
  unfoldable pub reset_peers : TypesenseCluster → Updated → M C (Unit {0})
  reset_peers ts u =
      if u.updated && ts.force_reset_peers_config_on_update
      then force_pods_config_map_update C ts >> pure tt
      else pure tt

  -- Go's purge in `downgradeQuorum`, made only for a quorum of one that has no healthy node.
  unfoldable pub purge_if_dead : StatefulSet → ℕ → ℕ → M C (Result (Unit {0}))
  purge_if_dead sts healthy min_required =
      if healthy == 0 && min_required == 1 then purge_stateful_set_pods C sts else pure (ok tt)

  -- `downgradeQuorum`
  unfoldable pub downgrade_quorum : TypesenseCluster → ConfigMap → ObjectKey → ℕ → ℕ → M C Outcome
  downgrade_quorum ts cm key healthy min_required =
      or_return (get_fresh_stateful_set C key) (λ e. pure (failed e))
        λ sts.
          or_return (scale_stateful_set C key 1) (λ e. pure (failed e))
            λ _.
              or_return (purge_if_dead sts healthy min_required) (λ e. pure (failed e))
                λ _.
                  or_return (update_config_map C ts cm (some 1) true) (λ e. pure (failed e))
                    λ u.
                      reset_peers ts u
                      >> pure (record {
                        condition = downgraded;
                        size = u.available_nodes;
                        error = none;
                      })

  -- `upgradeQuorum`
  unfoldable pub upgrade_quorum : TypesenseCluster → ConfigMap → ObjectKey → M C Outcome
  upgrade_quorum ts cm key =
      or_return (get_fresh_stateful_set C key) (λ e. pure (failed e))
        λ sts.
          or_return (scale_stateful_set C key (upgrade_size ts sts)) (λ e. pure (failed e))
            λ _.
              or_return (update_config_map C ts cm (some (upgrade_size ts sts)) true)
                (λ e. pure (failed e))
                λ u.
                  reset_peers ts u
                  >> pure
                      (record { condition = upgraded; size = upgrade_size ts sts; error = none })
