-- ===== src/StatefulSet/Decision/Laws.antt =====
-- What the comparisons of the stateful set with the desired one come to.
use typesense_operator.Base.{
  Text, codes, text_eq, text_eq_iff, text_eq_refl, ℕ, ◌≡◌, ◌≢◌, refl, ◌∙◌, ◌⊎◌, Bool, true, false,
  not, ◌||◌, Option, none, some, List, [], ◌∷◌, length, ◌<◌, arith,
}
use typesense_operator.Base.Dict.{get_or}
use typesense_operator.Api.{Container, StatefulSet, Condition, TypesenseCluster}
use typesense_operator.Node.{condition_text, downgraded, queued_writes_pending}
use typesense_operator.Api.Spec.{
  get_pod_security_context, get_typesense_security_context, get_metrics_security_context,
  get_healthcheck_security_context,
}
use typesense_operator.Api.Semantic.{Semantic, IsReflexive}
use typesense_operator.StatefulSet.Decision.{
  Trigger, Verdict, no_change, get_condition_ready, replicas_changed, note, note_replicas,
  note_containers, note_changes, should_update_stateful_set, should_emergency_update_stateful_set,
  container_emergency, sidecar_emergency, own_annotations, own_pod_annotations, hash_annotation_key,
}

-- The two tests of the reason cannot both fail.
reason-counts :
    (reason : Text)
    → (not (text_eq reason (condition_text downgraded))
        || not (text_eq reason (condition_text queued_writes_pending)))
      ≡ true
unfolding condition_text
reason-counts reason = ground (
  arith,
  text_eq_iff reason (codes "QuorumDowngraded"),
  text_eq_iff reason (codes "QuorumQueuedWrites"),
)

replicas_changed_ne :
    (sts : StatefulSet) (ts : TypesenseCluster) (condition : Condition) (n : ℕ)
    → sts.spec_replicas ≡ some n
    → n ≢ ts.replicas
    → replicas_changed sts ts condition ≡ some true
unfolding replicas_changed
replicas_changed_ne sts ts condition n e ne =
    rw (e, replicas_changed) (ground (arith, reason-counts condition.reason))

module _ (E : Semantic) where
  -- Where the stateful set has other replicas than the spec, an emergency update is required
  -- whatever the reason of the condition is: a downgrade of the quorum does not hold it back.
  pub should_emergency_update-replicas :
      (sts : StatefulSet) (ts : TypesenseCluster) {condition : Condition} {n : ℕ}
      → get_condition_ready ts.conditions ≡ some (some condition)
      → sts.spec_replicas ≡ some n
      → n ≢ ts.replicas
      → should_emergency_update_stateful_set E sts ts ≡ some true
  unfolding should_emergency_update_stateful_set
  should_emergency_update-replicas sts ts {condition} {n} c e ne =
      ground (arith, replicas_changed_ne sts ts condition n e ne)

  note-scale_only : (b : Bool) (t : Trigger) (v : Verdict) → (note b t v).scale_only ≡ v.scale_only
  unfolding note
  note-scale_only b t v = ground arith

  note_containers-scale_only :
      (cs : List Container) (ts : TypesenseCluster) (v : Verdict) {u : Verdict}
      → note_containers E cs ts v ≡ some u
      → u.scale_only ≡ v.scale_only
  unfolding note_containers note
  note_containers-scale_only [] ts v h = cc
  note_containers-scale_only (c0 ∷ []) ts v h = cc
  note_containers-scale_only (c0 ∷ c1 ∷ []) ts v h = cc
  note_containers-scale_only (c0 ∷ c1 ∷ c2 ∷ cs) ts v h = ground arith

  note_changes-scale_only :
      (sts desired : StatefulSet) (ts : TypesenseCluster) (v : Verdict) {u : Verdict}
      → note_changes E sts desired ts v ≡ some u
      → u.scale_only ≡ v.scale_only
  unfolding note_changes
  note_changes-scale_only sts desired ts v h =
      note_containers-scale_only sts.containers ts _ h ∙ simp note-scale_only

  pub should_update-scale_only :
      (sts : StatefulSet) (desired : Option StatefulSet) (ts : TypesenseCluster)
      {condition : Condition} {n : ℕ}
      → get_condition_ready ts.conditions ≡ some (some condition)
      → sts.spec_replicas ≡ some n
      → n ≢ ts.replicas
      → {v : Verdict} → should_update_stateful_set E sts desired ts ≡ some v
      → v.scale_only ≡ true
  unfolding should_update_stateful_set note_replicas
  should_update-scale_only sts none ts {condition} {n} c e ne {v} u =
      ground (arith, replicas_changed_ne sts ts condition n e ne)
  should_update-scale_only sts (some d) ts {condition} {n} c e ne {v} u = ground (
    arith,
    replicas_changed_ne sts ts condition n e ne,
    note_changes-scale_only sts d ts (note_replicas true) {u = v},
  )

  note_containers-short :
      (cs : List Container) (ts : TypesenseCluster) (v : Verdict)
      → length cs < 3
      → note_containers E cs ts v ≡ none
  unfolding note_containers
  note_containers-short [] ts v h = refl
  note_containers-short (c0 ∷ []) ts v h = refl
  note_containers-short (c0 ∷ c1 ∷ []) ts v h = refl
  note_containers-short (c0 ∷ c1 ∷ c2 ∷ cs) ts v h = absurd (omega arith)

  note_changes-short :
      (sts desired : StatefulSet) (ts : TypesenseCluster) (v : Verdict)
      → length sts.containers < 3
      → note_changes E sts desired ts v ≡ none
  unfolding note_changes
  note_changes-short sts desired ts v h = note_containers-short sts.containers ts _ h

  -- The comparison indexes three containers and reads the desired stateful set.
  pub should_update-panics :
      (sts : StatefulSet) (desired : Option StatefulSet) (ts : TypesenseCluster)
      {condition : Condition}
      → get_condition_ready ts.conditions ≡ some (some condition)
      → (length sts.containers < 3) ⊎ (desired ≡ none)
      → should_update_stateful_set E sts desired ts ≡ none
  unfolding should_update_stateful_set
  should_update-panics sts none ts c h = ground arith
  should_update-panics sts (some d) ts c h = ground (
    arith,
    note_changes-short sts d ts (note_replicas true),
    note_changes-short sts d ts (note_replicas false),
  )

  container_emergency-short :
      (sts : StatefulSet) (ts : TypesenseCluster) (cs : List Container)
      → length cs < 3
      → container_emergency E sts ts cs ≢ some false
  unfolding container_emergency sidecar_emergency
  container_emergency-short sts ts [] h = ground arith
  container_emergency-short sts ts (c0 ∷ []) h = ground arith
  container_emergency-short sts ts (c0 ∷ c1 ∷ []) h = ground arith
  container_emergency-short sts ts (c0 ∷ c1 ∷ c2 ∷ cs) h = absurd (omega arith)

  -- Fewer than three containers are an emergency, if the test does not panic.
  pub should_emergency_update-short :
      (sts : StatefulSet) (ts : TypesenseCluster) {condition : Condition}
      → get_condition_ready ts.conditions ≡ some (some condition)
      → length sts.containers < 3
      → should_emergency_update_stateful_set E sts ts ≢ some false
  unfolding should_emergency_update_stateful_set
  should_emergency_update-short sts ts {condition} c h =
      ground (arith, container_emergency-short sts ts sts.containers h)

  -- A stateful set that is as the desired one, under reflexive comparisons, is left as it is, and
  -- nothing is recorded: the replicas, the hash and the annotations that are not filtered out agree,
  -- and so do the security contexts of the pod and of its three containers.
  pub should_update-unchanged :
      IsReflexive E
      → (sts desired : StatefulSet) (ts : TypesenseCluster) {condition : Condition}
        {c0 c1 c2 : Container} {cs : List Container}
      → get_condition_ready ts.conditions ≡ some (some condition)
      → sts.spec_replicas ≡ some ts.replicas
      → get_or [] hash_annotation_key sts.template_annotations
        ≡ get_or [] hash_annotation_key desired.template_annotations
      → own_annotations E sts ts ≡ desired.annotations
      → own_pod_annotations E sts ts ≡ desired.template_annotations
      → sts.pod_security_context ≡ get_pod_security_context ts
      → sts.containers ≡ c0 ∷ c1 ∷ c2 ∷ cs
      → c0.security_context ≡ get_typesense_security_context ts
      → c1.security_context ≡ get_metrics_security_context ts
      → c2.security_context ≡ get_healthcheck_security_context ts
      → should_update_stateful_set E sts (some desired) ts ≡ some no_change
  unfolding should_update_stateful_set note_changes note_containers note note_replicas
      replicas_changed
  should_update-unchanged R sts desired ts {condition} {c0} {c1} {c2} c r h a p s k k0 k1 k2 =
      ground (
        arith,
        text_eq_refl (get_or [] hash_annotation_key desired.template_annotations),
        R.maps desired.annotations,
        R.maps desired.template_annotations,
        R.values (get_pod_security_context ts),
        R.pointers (get_typesense_security_context ts),
        R.pointers (get_metrics_security_context ts),
        R.pointers (get_healthcheck_security_context ts),
      )
