-- ===== src/Quorum/Reconcile/Ready.antt =====
-- When a quorum is reported ready.
use typesense_operator.Base.{codes, ◌++◌, ℕ, ◌≤◌, ◌≡◌, ◌≢◌, ◌&&◌, false, Option, ltb, arith}
use typesense_operator.Base.Dict.{get_or}
use typesense_operator.Base.Int.{ℤ, ltb_ℤ}
use typesense_operator.Base.Exec.{Error, pure}
use typesense_operator.Base.Exec.Rules.{Returns, returns_rules}
use typesense_operator.Api.{
  ConfigMap, StatefulSet, TypesenseCluster, ObjectKey, cluster_stateful_set,
}
use typesense_operator.Api.Client.{Client, World}
use typesense_operator.Node.{
  ConditionQuorum, NodeState, error_state, unreachable, ClusterStatus, cluster_ok, split_brain,
  cluster_not_ready, election_deadlock, quorum_ready, quorum_not_ready, wait_a_term, downgraded,
  upgraded, with_state, missing,
}
use typesense_operator.Quorum.Members.{Members}
use typesense_operator.Quorum.Reconcile.{
  Probes, Gates, healthy_nodes, get_spec_replicas, downgrade_or_wait, single_node, settle, act,
  decide,
}
use typesense_operator.Quorum.Resize.{Outcome, downgrade_quorum, upgrade_quorum}

-- An outcome other than `QuorumReady`.
record IsUnready (o : Outcome) : Type 0 where
  ne : o.condition ≢ quorum_ready

data IsOther : ConditionQuorum → Type 0 where
  not_ready : IsOther quorum_not_ready
  waiting : IsOther wait_a_term
  down : IsOther downgraded
  up : IsOther upgraded

other_ne : {c : ConditionQuorum} → IsOther c → c ≢ quorum_ready
other_ne not_ready = λ h. cc
other_ne waiting = λ h. cc
other_ne down = λ h. cc
other_ne up = λ h. cc

outcome-IsUnready :
    (c : ConditionQuorum) (n : ℕ) (e : Option Error)
    → IsOther c
    → IsUnready (record { condition = c; size = n; error = e })
outcome-IsUnready c n e r = record { ne = other_ne r }

ruleset unready_rules = (returns_rules, outcome-IsUnready, not_ready, waiting, down, up)

-- The state of the first pod.
abbrev first_state : TypesenseCluster → Probes → NodeState
first_state ts probes =
    (get_or (with_state missing) (cluster_stateful_set ts ++ codes "-0") probes.statuses).state

module _ (C : Client) where
  downgrade_quorum-IsUnready :
      (ts : TypesenseCluster) (cm : ConfigMap) (key : ObjectKey) (h m : ℕ)
      → Returns IsUnready (downgrade_quorum C ts cm key h m)
  unfolding downgrade_quorum
  downgrade_quorum-IsUnready ts cm key h m = search unready_rules depth 16

  upgrade_quorum-IsUnready :
      (ts : TypesenseCluster) (cm : ConfigMap) (key : ObjectKey)
      → Returns IsUnready (upgrade_quorum C ts cm key)
  unfolding upgrade_quorum
  upgrade_quorum-IsUnready ts cm key = search unready_rules depth 16

  downgrade_or_wait-IsUnready :
      (ts : TypesenseCluster) (cm : ConfigMap) (key : ObjectKey) (h m : ℕ)
      → Returns IsUnready (downgrade_or_wait C ts cm key h m)
  unfolding downgrade_or_wait
  downgrade_or_wait-IsUnready ts cm key h m =
      search (unready_rules, downgrade_quorum-IsUnready) depth 16

  single_node-IsUnready :
      (ts : TypesenseCluster) (sts : StatefulSet) (s : NodeState)
      → Returns IsUnready (single_node C ts sts s)
  unfolding single_node
  single_node-IsUnready ts sts error_state = search unready_rules depth 16
  single_node-IsUnready ts sts unreachable = search unready_rules depth 16
  single_node-IsUnready ts sts _ = search unready_rules depth 16

  -- What holds where `act` returns `QuorumReady`.
  abbrev Supports : TypesenseCluster → StatefulSet → Members → ℕ → ClusterStatus → Type 0
  Supports ts sts q n status =
      (q.min_required_nodes ≤ n)
      × (status ≢ election_deadlock)
      × (status ≡ cluster_ok → ts.replicas ≤ get_spec_replicas sts.spec_replicas)

  settle_ready :
      (q : Members) (n : ℕ) (w : World C)
      → (settle C q n w).0.condition ≡ quorum_ready
      → (q.min_required_nodes ≤ n) × ((settle C q n w).1 ≡ w)
  unfolding settle pure
  settle_ready q n w h = ground arith

  act_ready :
      (ts : TypesenseCluster) (key : ObjectKey) (sts : StatefulSet) (q : Members) (probes : Probes)
      (n : ℕ) (status : ClusterStatus) (w : World C)
      → (act C ts key sts q probes n status w).0.condition ≡ quorum_ready
      → Supports ts sts q n status × ((act C ts key sts q probes n status w).1 ≡ w)
  unfolding act pure
  act_ready ts key sts q probes n election_deadlock w h =
      absurd (((downgrade_or_wait-IsUnready ts _ key n _).at w).ne h)
  act_ready ts key sts q probes n cluster_not_ready w h =
      ground (
        arith,
        settle_ready q n w,
        ((single_node-IsUnready ts sts (first_state ts probes)).at w).ne,
      )
  act_ready ts key sts q probes n cluster_ok w h = ground (
    arith,
    settle_ready q n w,
    ((upgrade_quorum-IsUnready ts q.nodes_list_config_map key).at w).ne,
  )
  act_ready ts key sts q probes n split_brain w h = ground (arith, settle_ready q n w)

  -- The decision of a pass over the quorum, from the readiness gates on, is `QuorumReady` only if the
  -- healthy nodes reach the required number, no node needs attention, the queued writes do not
  -- exceed the threshold while a node is healthy, there is no election deadlock, and a quorum that
  -- is in order has as many replicas as the spec asks for, at least. Then nothing was written.
  pub decide_ready :
      (ts : TypesenseCluster) (key : ObjectKey) (sts : StatefulSet) (q : Members) (probes : Probes)
      (status : ClusterStatus) (threshold : ℤ) (gates : Gates) (w : World C)
      → (decide C ts key sts q probes status threshold gates w).0.condition ≡ quorum_ready
      → (q.min_required_nodes ≤ healthy_nodes gates.health)
        × (gates.needs_attention ≡ false)
        × ((ltb_ℤ threshold probes.queued && ltb 0 (healthy_nodes gates.health)) ≡ false)
        × (status ≢ election_deadlock)
        × (status ≡ cluster_ok → ts.replicas ≤ get_spec_replicas sts.spec_replicas)
        × ((decide C ts key sts q probes status threshold gates w).1 ≡ w)
  unfolding decide pure
  decide_ready ts key sts q probes status threshold gates w h =
      ground (arith, act_ready ts key sts q probes (healthy_nodes gates.health) status w)
