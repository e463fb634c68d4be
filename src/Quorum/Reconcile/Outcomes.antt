-- ===== src/Quorum/Reconcile/Outcomes.antt =====
-- What `ReconcileQuorum` returns, in every world.
use typesense_operator.Base.{
  Text, text_eq, ℕ, ◌≡◌, refl, ◌≢◌, false, none, some, List, [], ◌∷◌, arith,
}
use typesense_operator.Base.Dict.{Dict}
use typesense_operator.Base.Int.{ℤ}
use typesense_operator.StatefulSet.{purge_stateful_set_pods}
use typesense_operator.Base.Exec.{Error, Result, ok, err, pure, on_result, or_return}
use typesense_operator.Base.Exec.Rules.{
  Returns, returns_rules, Returns-pure, Returns-if, Returns-bind, Returns-on_result, Returns-then,
}
use typesense_operator.Api.{PodCondition, ConfigMap, StatefulSet, TypesenseCluster, ObjectKey}
use typesense_operator.Api.Client.{Client, World}
use typesense_operator.Node.{
  NodeStatus, NodeEndpoint, NodeState, error_state, unreachable, ClusterStatus, cluster_ok,
  split_brain, cluster_not_ready, election_deadlock, quorum_ready, quorum_not_ready,
  memory_or_disk_issue, ConditionQuorum, downgraded, upgraded, wait_a_term, cluster_is_lagging,
  queued_writes_pending, stateful_set_not_ready,
}
use typesense_operator.Quorum.Gate.{
  calculate_pod_readiness_gate, gate_reason_text, node_not_recoverable,
}
use typesense_operator.Quorum.Gate.Conditions.{gate_condition_lem}
use typesense_operator.Quorum.Members.{Members}
use typesense_operator.Quorum.Resize.{Outcome, reached, failed, downgrade_quorum, upgrade_quorum}
use typesense_operator.Quorum.Reconcile.{
  Probes, Gates, note_gate, update_gates, downgrade_or_wait, single_node, settle, act, decide,
  judge, probe_and_judge, reconcile_quorum,
}

-- An error comes with `QuorumNotReady`, and the memory or disk issue is never reported.
pub record IsCoherent (o : Outcome) : Type 0 where
  pub never_blocking : o.condition ≢ memory_or_disk_issue
  pub error_not_ready : (e : Error) → o.error ≡ some e → o.condition ≡ quorum_not_ready

-- The conditions that `ReconcileQuorum` can return.
data IsReported : ConditionQuorum → Type 0 where
  ready : IsReported quorum_ready
  not_ready : IsReported quorum_not_ready
  waiting : IsReported wait_a_term
  down : IsReported downgraded
  up : IsReported upgraded
  lagging : IsReported cluster_is_lagging
  queued : IsReported queued_writes_pending
  stateful_set : IsReported stateful_set_not_ready

reported_ne : {c : ConditionQuorum} → IsReported c → c ≢ memory_or_disk_issue
reported_ne ready = λ h. cc
reported_ne not_ready = λ h. cc
reported_ne waiting = λ h. cc
reported_ne down = λ h. cc
reported_ne up = λ h. cc
reported_ne lagging = λ h. cc
reported_ne queued = λ h. cc
reported_ne stateful_set = λ h. cc

outcome-IsCoherent :
    (c : ConditionQuorum) (n : ℕ)
    → IsReported c
    → IsCoherent (record { condition = c; size = n; error = none })
outcome-IsCoherent c n r = record { never_blocking = reported_ne r; error_not_ready = λ e h. cc }

failed-IsCoherent : (e : Error) → IsCoherent (failed e)
failed-IsCoherent e = record { never_blocking = λ h. cc; error_not_ready = λ d h. refl }

ruleset coherent_rules = (
  returns_rules, failed-IsCoherent, outcome-IsCoherent, ready, not_ready, waiting, down, up,
  lagging, queued, stateful_set,
)

module _ (C : Client) where
  downgrade_quorum-IsCoherent :
      (ts : TypesenseCluster) (cm : ConfigMap) (key : ObjectKey) (h m : ℕ)
      → Returns IsCoherent (downgrade_quorum C ts cm key h m)
  unfolding downgrade_quorum
  downgrade_quorum-IsCoherent ts cm key h m = search coherent_rules depth 16

  upgrade_quorum-IsCoherent :
      (ts : TypesenseCluster) (cm : ConfigMap) (key : ObjectKey)
      → Returns IsCoherent (upgrade_quorum C ts cm key)
  unfolding upgrade_quorum
  upgrade_quorum-IsCoherent ts cm key = search coherent_rules depth 16

  downgrade_or_wait-IsCoherent :
      (ts : TypesenseCluster) (cm : ConfigMap) (key : ObjectKey) (h m : ℕ)
      → Returns IsCoherent (downgrade_or_wait C ts cm key h m)
  unfolding downgrade_or_wait
  downgrade_or_wait-IsCoherent ts cm key h m =
      search (coherent_rules, downgrade_quorum-IsCoherent) depth 16

  purged-IsCoherent :
      (sts : StatefulSet)
      → Returns IsCoherent (
          or_return
            (purge_stateful_set_pods C sts)
            (λ e. pure (failed e))
            λ _. pure (reached quorum_not_ready))
  purged-IsCoherent sts = search coherent_rules depth 16

  single_node-IsCoherent :
      (ts : TypesenseCluster) (sts : StatefulSet) (s : NodeState)
      → Returns IsCoherent (single_node C ts sts s)
  unfolding single_node
  single_node-IsCoherent ts sts error_state = purged-IsCoherent sts
  single_node-IsCoherent ts sts unreachable = purged-IsCoherent sts
  single_node-IsCoherent ts sts _ = search coherent_rules depth 16

  settle-IsCoherent : (q : Members) (healthy : ℕ) → Returns IsCoherent (settle C q healthy)
  unfolding settle
  settle-IsCoherent q healthy = search coherent_rules depth 16

  act-IsCoherent :
      (ts : TypesenseCluster) (key : ObjectKey) (sts : StatefulSet) (q : Members) (probes : Probes)
      (healthy : ℕ) (status : ClusterStatus)
      → Returns IsCoherent (act C ts key sts q probes healthy status)
  unfolding act
  act-IsCoherent ts key sts q probes healthy election_deadlock =
      downgrade_or_wait-IsCoherent ts _ key healthy _
  act-IsCoherent ts key sts q probes healthy cluster_not_ready =
      search (coherent_rules, settle-IsCoherent, single_node-IsCoherent) depth 16
  act-IsCoherent ts key sts q probes healthy cluster_ok =
      search (coherent_rules, settle-IsCoherent, upgrade_quorum-IsCoherent) depth 16
  act-IsCoherent ts key sts q probes healthy split_brain = settle-IsCoherent q healthy

  calculate-reason :
      (ne : NodeEndpoint) (status : NodeStatus) (ts : TypesenseCluster) (logs : Text)
      → Returns
          (λ c. text_eq c.reason (gate_reason_text node_not_recoverable) ≡ false)
          (calculate_pod_readiness_gate C ne status ts logs)
  unfolding calculate_pod_readiness_gate
  calculate-reason ne status ts logs =
      Returns-bind _ _ λ health. Returns-pure _ (gate_condition_lem status health).1

  note_gate-needs_attention :
      (key : Text) (c : PodCondition) (gates : Gates)
      → gates.needs_attention ≡ false
      → text_eq c.reason (gate_reason_text node_not_recoverable) ≡ false
      → (note_gate key c gates).needs_attention ≡ false
  unfolding note_gate
  note_gate-needs_attention key c gates h r = ground arith

  update_gates-needs_attention :
      (ts : TypesenseCluster) (logs : Dict Text) (statuses : Dict NodeStatus)
      (nes : List NodeEndpoint) (gates : Gates)
      → gates.needs_attention ≡ false
      → Returns
          (λ r. (g : Gates) → r ≡ ok g → g.needs_attention ≡ false)
          (update_gates C ts logs statuses nes gates)
  unfolding update_gates
  update_gates-needs_attention ts logs statuses [] gates h = Returns-pure _ (λ g e. ground arith)
  update_gates-needs_attention ts logs statuses (ne ∷ nes) gates h =
      Returns-then _ _ (calculate-reason ne _ ts _) λ c r. Returns-bind _ _ λ written.
        Returns-on_result written _ _ (λ e. Returns-pure _ (λ g k. cc))
          λ _.
            update_gates-needs_attention ts logs statuses nes _
              (note_gate-needs_attention ne.pod_name c gates h r)

  decide-IsCoherent :
      (ts : TypesenseCluster) (key : ObjectKey) (sts : StatefulSet) (q : Members) (probes : Probes)
      (status : ClusterStatus) (threshold : ℤ) (gates : Gates)
      → gates.needs_attention ≡ false
      → Returns IsCoherent (decide C ts key sts q probes status threshold gates)
  unfolding decide
  decide-IsCoherent ts key sts q probes status threshold gates h =
      Returns-if gates.needs_attention _ _ (λ e. absurd (cc))
        λ _. search (coherent_rules, act-IsCoherent) depth 16

  decided-IsCoherent :
      (ts : TypesenseCluster) (key : ObjectKey) (sts : StatefulSet) (q : Members) (probes : Probes)
      (status : ClusterStatus) (threshold : ℤ) (r : Result Gates)
      → ((g : Gates) → r ≡ ok g → g.needs_attention ≡ false)
      → Returns IsCoherent
          (on_result r (λ e. pure (failed e)) (decide C ts key sts q probes status threshold))
  unfolding on_result
  decided-IsCoherent ts key sts q probes status threshold (ok g) h =
      decide-IsCoherent ts key sts q probes status threshold g (h g refl)
  decided-IsCoherent ts key sts q probes status threshold (err e) h =
      Returns-pure _ (failed-IsCoherent e)

  judge-IsCoherent :
      (ts : TypesenseCluster) (key : ObjectKey) (sts : StatefulSet) (q : Members) (logs : Dict Text)
      (threshold : ℤ) (probes : Probes) (status : ClusterStatus)
      → Returns IsCoherent (judge C ts key sts q logs threshold probes status)
  unfolding judge
  judge-IsCoherent ts key sts q logs threshold probes split_brain =
      downgrade_or_wait-IsCoherent ts _ key _ _
  judge-IsCoherent ts key sts q logs threshold probes _ =
      Returns-then _ _ (update_gates-needs_attention ts logs _ _ _ refl)
        (decided-IsCoherent ts key sts q probes _ threshold)

  probe_and_judge-IsCoherent :
      (ts : TypesenseCluster) (api_key : Text) (key : ObjectKey) (sts : StatefulSet) (q : Members)
      → Returns IsCoherent (probe_and_judge C ts api_key key sts q)
  unfolding probe_and_judge
  probe_and_judge-IsCoherent ts api_key key sts q =
      search (coherent_rules, judge-IsCoherent) depth 16

  reconcile_quorum-Returns :
      (ts : TypesenseCluster) (api_key : Text) (key : ObjectKey)
      → Returns IsCoherent (reconcile_quorum C ts api_key key)
  unfolding reconcile_quorum
  reconcile_quorum-Returns ts api_key key =
      search (coherent_rules, probe_and_judge-IsCoherent) depth 20

  -- Whatever the API and the nodes answer, `ReconcileQuorum` never returns
  -- `QuorumNeedsAttentionMemoryOrDiskIssue`, and with an error it returns `QuorumNotReady`.
  pub reconcile_quorum-IsCoherent :
      (ts : TypesenseCluster) (api_key : Text) (key : ObjectKey) (w : World C)
      → IsCoherent (reconcile_quorum C ts api_key key w).0
  reconcile_quorum-IsCoherent ts api_key key w = (reconcile_quorum-Returns ts api_key key).at w
