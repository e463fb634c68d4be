-- ===== src/Quorum/Reconcile/Requests.antt =====
-- Every request of `ReconcileQuorum` is an allowed one, where recovery is not incremental.
use typesense_operator.Base.{Text, ℕ, ◌≡◌, inr, false, Option, none, some, List, [], ◌∷◌, All}
use typesense_operator.Base.Dict.{Dict}
use typesense_operator.Base.Int.{ℤ}
use typesense_operator.Base.Exec.Rules.{Keeps-bind, Keeps-on_result}
use typesense_operator.Api.{ConfigMap, StatefulSet, TypesenseCluster, ObjectKey}
use typesense_operator.Api.Client.{Client}
use typesense_operator.Node.{
  NodeState, error_state, unreachable, NodeStatus, NodeEndpoint, ClusterStatus, cluster_ok,
  split_brain, cluster_not_ready, election_deadlock,
}
use typesense_operator.Quorum.Gate.{calculate_pod_readiness_gate, update_pod_readiness_gate}
use typesense_operator.Quorum.Lag.{get_healthy_write_lag_threshold, with_configuration}
use typesense_operator.Quorum.Members.{Members, get_quorum}
use typesense_operator.Quorum.Probe.{get_node_status, get_node_health, get_pod_logs}
use typesense_operator.Quorum.Reconcile.{
  Probes, Gates, collect_logs, collect_statuses, update_gates, single_node, settle, act, decide,
  judge, probe_and_judge, reconcile_quorum,
}
use typesense_operator.Quorum.Reconcile.Scaling.{
  IsAllowed, allowed, IsTame, get_fresh-IsTame, scale_stateful_set-IsTame, purge-IsTame,
  restart_unscheduled-IsTame, update_config_map-IsTame, reset_peers-IsTame,
  downgrade_or_wait-IsTame,
}
use typesense_operator.Quorum.Resize.{upgrade_size, upgrade_quorum}
use typesense_operator.StatefulSet.{scale_stateful_set}

module _ (C : Client) (ts : TypesenseCluster) where
  get_node_status-IsTame :
      (ne : NodeEndpoint) (key logs : Text) → IsTame C ts (get_node_status C ne ts key logs)
  unfolding get_node_status
  get_node_status-IsTame ne key logs = search allowed depth 12

  get_node_health-IsTame :
      (ne : NodeEndpoint) (logs : Text) → IsTame C ts (get_node_health C ne ts logs)
  unfolding get_node_health
  get_node_health-IsTame ne logs = search allowed depth 12

  collect_logs-IsTame :
      (nes : List NodeEndpoint) (logs : Dict Text) → IsTame C ts (collect_logs C ts nes logs)
  unfolding collect_logs get_pod_logs
  collect_logs-IsTame [] logs = search allowed
  collect_logs-IsTame (ne ∷ nes) logs =
      Keeps-bind _ _ (search allowed)
        λ r. Keeps-bind _ _ (search allowed depth 12) λ l. collect_logs-IsTame nes _

  collect_statuses-IsTame :
      (key : Text) (logs : Dict Text) (nes : List NodeEndpoint) (probes : Probes)
      → IsTame C ts (collect_statuses C ts key logs nes probes)
  unfolding collect_statuses
  collect_statuses-IsTame key logs [] probes = search allowed
  collect_statuses-IsTame key logs (ne ∷ nes) probes =
      Keeps-bind _ _ (get_node_status-IsTame ne key _) λ s. collect_statuses-IsTame key logs nes _

  calculate-IsTame :
      (ne : NodeEndpoint) (s : NodeStatus) (logs : Text)
      → IsTame C ts (calculate_pod_readiness_gate C ne s ts logs)
  unfolding calculate_pod_readiness_gate
  calculate-IsTame ne s logs = search (allowed, get_node_health-IsTame) depth 12

  update_gates-IsTame :
      (logs : Dict Text) (statuses : Dict NodeStatus) (nes : List NodeEndpoint) (gates : Gates)
      → IsTame C ts (update_gates C ts logs statuses nes gates)
  unfolding update_gates update_pod_readiness_gate
  update_gates-IsTame logs statuses [] gates = search allowed
  update_gates-IsTame logs statuses (ne ∷ nes) gates = Keeps-bind _ _ (calculate-IsTame ne _ _) λ c.
      Keeps-bind _ _ (search allowed depth 12) λ r.
        Keeps-on_result r _ _ (λ e. search allowed) λ u. update_gates-IsTame logs statuses nes _

  with_configuration-IsTame :
      {A : Type 0} (namespace : Text) (name : Option Text) (default : A) (f : ConfigMap → A)
      → IsTame C ts (with_configuration C namespace name default f)
  unfolding with_configuration
  with_configuration-IsTame namespace none default f = search allowed
  with_configuration-IsTame namespace (some name) default f = search allowed depth 12

  threshold-IsTame : IsTame C ts (get_healthy_write_lag_threshold C ts)
  unfolding get_healthy_write_lag_threshold
  threshold-IsTame = with_configuration-IsTame _ _ _ _

  get_quorum-IsTame : (sts : StatefulSet) → IsTame C ts (get_quorum C ts sts)
  unfolding get_quorum
  get_quorum-IsTame sts = search allowed depth 12

  purged-IsTame : (sts : StatefulSet) (s : NodeState) → IsTame C ts (single_node C ts sts s)
  unfolding single_node
  purged-IsTame sts error_state = search (allowed, purge-IsTame) depth 12
  purged-IsTame sts unreachable = search (allowed, purge-IsTame) depth 12
  purged-IsTame sts _ = search allowed

  settle-IsTame : (q : Members) (n : ℕ) → IsTame C ts (settle C q n)
  unfolding settle
  settle-IsTame q n = search allowed depth 12

  upgrade_size-whole :
      ts.incremental_quorum_recovery ≡ false
      → (sts : StatefulSet) → upgrade_size ts sts ≡ ts.replicas
  unfolding upgrade_size
  upgrade_size-whole whole sts = rw whole

  module _ (whole : ts.incremental_quorum_recovery ≡ false) where
    to_size-IsTame :
        (key : ObjectKey) (sts : StatefulSet)
        → IsTame C ts (scale_stateful_set C key (upgrade_size ts sts))
    to_size-IsTame key sts =
        scale_stateful_set-IsTame C ts key _ (inr (upgrade_size-whole whole sts))

    upgrade_quorum-IsTame :
        (cm : ConfigMap) (key : ObjectKey) → IsTame C ts (upgrade_quorum C ts cm key)
    unfolding upgrade_quorum
    upgrade_quorum-IsTame cm key =
        search
          (allowed, get_fresh-IsTame, to_size-IsTame, update_config_map-IsTame, reset_peers-IsTame)
          depth 20

    act-IsTame :
        (key : ObjectKey) (sts : StatefulSet) (q : Members) (probes : Probes) (n : ℕ)
        (status : ClusterStatus)
        → IsTame C ts (act C ts key sts q probes n status)
    unfolding act
    act-IsTame key sts q probes n election_deadlock = downgrade_or_wait-IsTame C ts _ key n _
    act-IsTame key sts q probes n cluster_not_ready =
        search (allowed, purged-IsTame, settle-IsTame) depth 12
    act-IsTame key sts q probes n cluster_ok =
        search (allowed, upgrade_quorum-IsTame, settle-IsTame) depth 12
    act-IsTame key sts q probes n split_brain = settle-IsTame q n

    decide-IsTame :
        (key : ObjectKey) (sts : StatefulSet) (q : Members) (probes : Probes)
        (status : ClusterStatus) (threshold : ℤ) (gates : Gates)
        → IsTame C ts (decide C ts key sts q probes status threshold gates)
    unfolding decide
    decide-IsTame key sts q probes status threshold gates = search (allowed, act-IsTame) depth 12

    judge-IsTame :
        (key : ObjectKey) (sts : StatefulSet) (q : Members) (logs : Dict Text) (threshold : ℤ)
        (probes : Probes) (status : ClusterStatus)
        → IsTame C ts (judge C ts key sts q logs threshold probes status)
    unfolding judge
    judge-IsTame key sts q logs threshold probes split_brain =
        downgrade_or_wait-IsTame C ts _ key _ _
    judge-IsTame key sts q logs threshold probes _ =
        search (allowed, update_gates-IsTame, decide-IsTame) depth 12

    probe_and_judge-IsTame :
        (api_key : Text) (key : ObjectKey) (sts : StatefulSet) (q : Members)
        → IsTame C ts (probe_and_judge C ts api_key key sts q)
    unfolding probe_and_judge
    probe_and_judge-IsTame api_key key sts q =
        search
          (allowed, threshold-IsTame, collect_logs-IsTame, collect_statuses-IsTame, judge-IsTame)
          depth 16

    reconcile_quorum-IsTame :
        (api_key : Text) (key : ObjectKey) → IsTame C ts (reconcile_quorum C ts api_key key)
    unfolding reconcile_quorum
    reconcile_quorum-IsTame api_key key =
        search
          (
            allowed, get_fresh-IsTame, get_quorum-IsTame, restart_unscheduled-IsTame,
            probe_and_judge-IsTame,
          )
          depth 16

-- Where recovery is not incremental, a pass over the quorum sends only allowed requests, whatever
-- the API and the nodes answer: it creates no config map, and every scaling of a stateful set is to
-- one replica or to the replicas of the spec.
pub reconcile_quorum-IsAllowed :
    (C : Client) (ts : TypesenseCluster) (api_key : Text) (key : ObjectKey) (state : C.State)
    → ts.incremental_quorum_recovery ≡ false
    → All
        (IsAllowed ts)
        (reconcile_quorum C ts api_key key (record { state = state; writes = [] })).1.writes
reconcile_quorum-IsAllowed C ts api_key key state whole =
    ((reconcile_quorum-IsTame C ts whole api_key key).at _ (record { all = tt })).all
