-- ===== src/Controller.antt =====
-- The status of a cluster (typesensecluster_condition_types.go, typesensecluster_helpers.go), and
-- the end of `Reconcile` in typesensecluster_controller.go, from line 212 on: what a pass reports
-- after every object is up to date.
--
-- A patch of the status leaves the cluster as it was sent. The duration until the next pass is in
-- seconds.
pub mod Report
pub mod Pass
pub mod Parts
use typesense_operator.Base.{
  Text, codes, text_eq, contains_text, ℕ, ◌+◌, Bool, true, false, not, Option, none, some, List, [],
  ◌∷◌, ◌++◌, if◌then◌else◌,
}
use typesense_operator.Base.Exec.{
  Error, not_found, other, panic, Result, ok, err, pure, ◌>>=◌, ◌>>◌, on_result, attempt, or_return,
}
use typesense_operator.Api.{Condition, TypesenseCluster, ObjectKey}
use typesense_operator.Api.Client.{Client, M, request, record_event, patch_status as patch}
use typesense_operator.ConfigMap.Force.{force_pods_config_map_update}
use typesense_operator.Node.{
  ConditionQuorum, condition_text, quorum_ready, wait_a_term, cluster_is_lagging,
  memory_or_disk_issue,
}
use typesense_operator.Quorum.Resize.{Outcome}
use typesense_operator.Quorum.Reconcile.{reconcile_quorum}

-- `err.Error()`
unfoldable pub error_text : Error → Text
error_text (not_found m) = m
error_text (other m) = m
error_text (panic m) = m

-- A condition of the type `Ready`.
abbrev pub ready_condition : Text → Text → Text → Condition
ready_condition status reason message = record {
  kind = codes "Ready";
  status = status;
  reason = reason;
  message = message;
}

-- `strings.Contains(string(condition), "QuorumNeedsAttention")`
unfoldable pub needs_attention : ConditionQuorum → Bool
unfolding contains_text condition_text
needs_attention c = contains_text (condition_text c) (codes "QuorumNeedsAttention")

unfoldable pub is_ready : ConditionQuorum → Bool
is_ready quorum_ready = true
is_ready _ = false

-- The message of a condition that needs attention.
unfoldable pub attention_message : ConditionQuorum → Text
attention_message cluster_is_lagging =
    codes "cluster needs manual administrative attention: queued_writes > healthyWriteLagThreshold"
attention_message memory_or_disk_issue =
    codes "cluster needs manual administrative attention: out of memory or disk"
attention_message _ = codes "cluster needs manual administrative attention: "

-- `if err == nil { err = errors.New("quorum is not ready") }`
unfoldable pub unready_message : Option Error → Text
unfolding error_text
unready_message none = codes "quorum is not ready"
unready_message (some e) = error_text e

-- Lines 229 and 242, with the period of line 213.
unfoldable pub requeue_after : Bool → ℕ → ℕ
requeue_after true grace = 120
requeue_after false grace = 60 + grace

module _ (C : Client) where
  -- `meta.SetStatusCondition` on the conditions, and the phase.
  unfoldable pub with_status : TypesenseCluster → Condition → Text → TypesenseCluster
  with_status ts condition phase = record ts {
    conditions = C.set_status_condition ts.conditions condition;
    phase = phase;
  }

  -- `patchStatus`
  unfoldable pub patch_status :
      TypesenseCluster → (TypesenseCluster → TypesenseCluster) → M C (Result TypesenseCluster)
  patch_status ts patcher = attempt (request C (patch (patcher ts))) λ _. pure (ok (patcher ts))

  -- `initConditions`
  unfoldable pub init_conditions : TypesenseCluster → M C (Result TypesenseCluster)
  init_conditions ts = elim ts.conditions [
    | [] ↦ patch_status ts λ t.
        with_status t
          (ready_condition (codes "Unknown") (codes "ReconciliationInProgress")
            (codes "Starting reconciliation"))
          (codes "Bootstrapping")
    | c ∷ cs ↦ pure (ok ts)
  ]

  -- `setConditionNotReady`
  unfoldable pub set_condition_not_ready :
      TypesenseCluster → Text → Text → M C (Result TypesenseCluster)
  set_condition_not_ready ts reason message =
      patch_status ts λ t. with_status t (ready_condition (codes "False") reason message) reason

  -- `setConditionReady`
  unfoldable pub set_condition_ready : TypesenseCluster → Text → M C (Result TypesenseCluster)
  set_condition_ready ts reason =
      patch_status ts
        λ t. with_status t (ready_condition (codes "True") reason (codes "Cluster is Ready")) reason

  -- A condition that is not ready, and the event about it.
  unfoldable pub report_not_ready : TypesenseCluster → Text → Text → M C (Result TypesenseCluster)
  report_not_ready ts reason message =
      attempt (set_condition_not_ready ts reason message)
        λ u. record_event C (codes "Warning") reason message >> pure (ok u)

  -- `ts.Status.Conditions[0].Status`, which panics where there is no condition.
  unfoldable pub report_ready : TypesenseCluster → Text → M C (Result TypesenseCluster)
  report_ready ts reason = elim ts.conditions [
    | [] ↦ pure (err (panic (codes "index out of range")))
    | c ∷ cs ↦ attempt (set_condition_ready ts reason) λ u.
        (if text_eq c.status (codes "True")
          then pure tt
          else record_event C (codes "Normal") reason (codes "quorum is ready"))
        >> pure (ok u)
  ]

  -- Lines 257 to 298: what is reported of the outcome of `ReconcileQuorum`.
  unfoldable pub report_quorum : TypesenseCluster → Outcome → M C (Result TypesenseCluster)
  report_quorum ts o =
      if needs_attention o.condition
      then report_not_ready ts (condition_text o.condition) (attention_message o.condition)
      else if is_ready o.condition
      then report_ready ts (condition_text o.condition)
      else report_not_ready ts (condition_text o.condition) (unready_message o.error)

  -- Lines 229 to 250: after an update of the config map.
  unfoldable pub report_update : TypesenseCluster → Bool → M C (Result TypesenseCluster)
  report_update ts false = pure (ok ts)
  report_update ts true =
      force_pods_config_map_update C ts
      >> report_not_ready ts (condition_text wait_a_term) (codes "wait on configmap updates")

  -- The end of `Reconcile`, from line 212 on: the cluster as it was reported and the time until the
  -- next pass. `updated` is the result of `ReconcileConfigMap`, `grace` the termination grace
  -- period of the pods.
  unfoldable pub finish :
      TypesenseCluster → Text → ObjectKey → Option Bool → ℕ → M C (Result (TypesenseCluster × ℕ))
  finish ts api_key key none grace = pure (ok (ts, 15))
  finish ts api_key key (some updated) grace = attempt (report_update ts updated) λ t.
      reconcile_quorum C t api_key key >>= λ o.
      attempt (report_quorum t o) λ u. pure (ok (u, requeue_after updated grace))
