-- ===== src/StatefulSet/Decision.antt =====
-- typesensecluster_statefulset_hash.go: whether the stateful set has to be updated or scaled, and
-- what `ReconcileStatefulSet` makes of that verdict. An index out of range or a nil pointer, at
-- which Go panics, is `none`.
pub mod Laws
use typesense_operator.Base.{
  ◌≡◌, Text, codes, text_eq, ℕ, Bool, true, false, not, ◌&&◌, ◌||◌, Option, none, some, List, [],
  ◌∷◌, ◌++◌, length, ltb, ◌==◌, if◌then◌else◌,
}
use typesense_operator.Base.Dict.{Dict, lookup, get_or}
use typesense_operator.Api.{Container, StatefulSet, Condition, TypesenseCluster}
use typesense_operator.Crd.{SecurityContextSpec}
use typesense_operator.Node.{
  condition_text, downgraded, upgraded, memory_or_disk_issue, quorum_not_ready, wait_a_term,
  queued_writes_pending,
}
use typesense_operator.Api.Spec.{
  get_resources, get_pod_security_context, get_typesense_security_context,
  get_healthcheck_security_context, get_metrics_security_context,
}
use typesense_operator.Api.Semantic.{Semantic}
use typesense_operator.Utils.{filter_map, contains, is_member}

-- `UpdateStatefulSetTrigger`
pub data Trigger : Type 0 where
  spec_replicas_changed hash_annotation_changed pod_annotations_changed : Trigger
  stateful_set_annotations_changed spec_resources_changed pod_security_context_changed : Trigger
  invalid_container_count container_security_context_changed : Trigger
  spec_typesense_version_changed : Trigger

-- The three results of `shouldUpdateStatefulSet`.
pub record Verdict : Type 0 where
  pub update : Bool
  pub scale_only : Bool
  pub triggers : List Trigger

abbrev pub no_change : Verdict
no_change = record { update = false; scale_only = false; triggers = [] }

-- `getConditionReady`: `some none` is the nil pointer.
unfoldable pub get_condition_ready : List Condition → Option (Option Condition)
unfolding text_eq
get_condition_ready [] = none
get_condition_ready (c ∷ _) = some (if text_eq c.kind (codes "Ready") then some c else none)

abbrev pub hash_annotation_key : Text
hash_annotation_key = codes "ts.opentelekomcloud.com/pod-template-hash"

abbrev pub restart_pods_annotation_key : Text
restart_pods_annotation_key = codes "kubectl.kubernetes.io/restartedAt"

abbrev pub rancher_domain_annotation_key : Text
rancher_domain_annotation_key = codes "cattle.io"

-- `*sts.Spec.Replicas != ts.Spec.Replicas && (reason != … || reason != …)`, where the pointer is
-- nil: a panic.
unfoldable pub replicas_changed : StatefulSet → TypesenseCluster → Condition → Option Bool
replicas_changed sts ts condition = elim sts.spec_replicas [
  | none ↦ none
  | some n ↦ some (
      not (n == ts.replicas)
      && (not (text_eq condition.reason (condition_text downgraded))
          || not (text_eq condition.reason (condition_text queued_writes_pending))))
]

-- `triggers = append(triggers, t); update = true`, under a condition.
unfoldable pub note : Bool → Trigger → Verdict → Verdict
note b t v = if b then record v { update = true; triggers = v.triggers ++ (t ∷ []) } else v

unfoldable pub note_replicas : Bool → Verdict
note_replicas changed =
    if changed
    then record { update = false; scale_only = true; triggers = spec_replicas_changed ∷ [] }
    else no_change

module _ (E : Semantic) where
  -- The comparisons of the containers' security contexts; each indexes the list.
  unfoldable pub note_containers : List Container → TypesenseCluster → Verdict → Option Verdict
  note_containers (c0 ∷ c1 ∷ c2 ∷ _) ts v = some (
      note (not (E.equal_pointers c2.security_context (get_healthcheck_security_context ts)))
        container_security_context_changed
        (note (not (E.equal_pointers c1.security_context (get_metrics_security_context ts)))
          container_security_context_changed
          (note (not (E.equal_pointers c0.security_context (get_typesense_security_context ts)))
            container_security_context_changed v)))
  note_containers _ ts v = none

  -- The annotations of the stateful set that are compared.
  unfoldable pub own_annotations : StatefulSet → TypesenseCluster → Dict Text
  own_annotations sts ts =
      filter_map sts.annotations
        (rancher_domain_annotation_key ∷ ts.ignore_annotations_from_external_mutations)

  -- The annotations of its pods that are compared.
  unfoldable pub own_pod_annotations : StatefulSet → TypesenseCluster → Dict Text
  own_pod_annotations sts ts = filter_map sts.template_annotations (
      restart_pods_annotation_key ∷ rancher_domain_annotation_key
      ∷ ts.ignore_annotations_from_external_mutations)

  -- `shouldUpdateStatefulSet` behind the test of the replicas.
  unfoldable pub note_changes :
      StatefulSet → StatefulSet → TypesenseCluster → Verdict → Option Verdict
  note_changes sts desired ts v = note_containers sts.containers ts (
      note (ltb (length sts.containers) 3) invalid_container_count (
        note (not (E.equal_values sts.pod_security_context (get_pod_security_context ts)))
          pod_security_context_changed
          (note (not (E.equal_maps (own_annotations sts ts) desired.annotations))
            stateful_set_annotations_changed
            (note (not (E.equal_maps (own_pod_annotations sts ts) desired.template_annotations))
              pod_annotations_changed
              (note
                (not (
                  text_eq (get_or [] hash_annotation_key sts.template_annotations)
                    (get_or [] hash_annotation_key desired.template_annotations)))
                hash_annotation_changed v)))))

  -- `shouldUpdateStatefulSet`; `desired` is nil where it could not be built.
  unfoldable pub should_update_stateful_set :
      StatefulSet → Option StatefulSet → TypesenseCluster → Option Verdict
  should_update_stateful_set sts desired ts = elim (get_condition_ready ts.conditions) [
    | none ↦ none
    | some none ↦ some no_change
    | some (some condition) ↦ elim (replicas_changed sts ts condition) [
      | none ↦ none
      | some changed ↦ elim desired [
        | none ↦ none
        | some d ↦ note_changes sts d ts (note_replicas changed)
      ]
    ]
  ]

  -- Fewer than three containers are an emergency; else their security contexts decide.
  unfoldable pub sidecar_emergency : List Container → TypesenseCluster → Option Bool
  sidecar_emergency (c0 ∷ c1 ∷ c2 ∷ _) ts = some (
      not (E.equal_pointers c0.security_context (get_typesense_security_context ts))
      || not (E.equal_pointers c1.security_context (get_metrics_security_context ts))
      || not (E.equal_pointers c2.security_context (get_healthcheck_security_context ts)))
  sidecar_emergency _ ts = some true

  -- `shouldEmergencyUpdateStatefulSet` behind the test of the replicas.
  unfoldable pub container_emergency : StatefulSet → TypesenseCluster → List Container → Option Bool
  container_emergency sts ts [] = none
  container_emergency sts ts (c0 ∷ cs) =
      if not (E.equal_values c0.resources (get_resources ts))
      then some true
      else if not (E.equal_values sts.pod_security_context (get_pod_security_context ts))
      then some true
      else sidecar_emergency (c0 ∷ cs) ts

  -- `shouldEmergencyUpdateStatefulSet`
  unfoldable pub should_emergency_update_stateful_set : StatefulSet → TypesenseCluster → Option Bool
  should_emergency_update_stateful_set sts ts = elim (get_condition_ready ts.conditions) [
    | none ↦ none
    | some none ↦ some false
    | some (some condition) ↦ elim (replicas_changed sts ts condition) [
      | none ↦ none
      | some true ↦ some true
      | some false ↦ container_emergency sts ts sts.containers
    ]
  ]

-- `skipConditions` of `ReconcileStatefulSet`
abbrev pub skip_conditions : List Text
skip_conditions =
    codes "QuorumDowngraded"
    ∷ codes "QuorumUpgraded"
    ∷ codes "QuorumNeedsAttentionMemoryOrDiskIssue"
    ∷ codes "QuorumNotReady"
    ∷ codes "StatefulSetNotReady"
    ∷ codes "ReconciliationInProgress"
    ∷ codes "QuorumNotReadyWaitATerm"
    ∷ []

-- What `ReconcileStatefulSet` does with a stateful set that exists.
pub data Plan : Type 0 where
  leave replace scale : Plan

unfoldable pub plan_of : Verdict → Plan
plan_of v =
    if v.update && not v.scale_only
    then replace
    else if not v.update && v.scale_only
    then scale
    else leave
