-- ===== src/Tests/Templates.antt =====
-- The stateful set that is built: the theorem at concrete data.
use typesense_operator.Base.{
  codes, text_eq, contains_text, has_prefix, ◌≡◌, refl, true, some, [], ◌∷◌, arith, if◌then◌else◌,
}
use typesense_operator.Base.Dict.{lookup, insert}
use typesense_operator.Base.Exec.{Result, ok, err, ◌>>=◌, on_result}
use typesense_operator.Api.{Condition, TypesenseCluster, StatefulSet}
use typesense_operator.Api.Spec.{get_additional_server_configuration}
use typesense_operator.Quorum.Lag.{get_healthy_lag_thresholds, with_configuration}
use typesense_operator.StatefulSet.Build.{
  build_stateful_set, build_stateful_set_hash, read_configuration, stateful_set_of,
  pod_annotations_of,
}
use typesense_operator.StatefulSet.Decision.{
  Trigger, Verdict, replicas_changed, note_replicas, note_changes, note_containers, note, no_change,
  get_condition_ready, should_update_stateful_set,
}
use typesense_operator.StatefulSet.Reconcile.{
  updated_stateful_set, resize_stateful_set, reconcile_stateful_set,
}
use typesense_operator.StatefulSet.Reconcile.Replicas.{looked, reconcile_stateful_set-replicas}
use typesense_operator.Api.Client.{find, read}
use typesense_operator.Node.{condition_text}
use typesense_operator.StatefulSet.Reconcile.Settled.{IsCompared, updated_stateful_set-unchanged}
use typesense_operator.Utils.{copy_into}
use typesense_operator.Tests.Sample.{
  sample_client, cluster, key, set_of, start, lax, lax-IsReflexive,
}

abbrev stored : TypesenseCluster
stored = record cluster {
  storage = some (record {
    size = codes "100Mi";
    storage_class_name = codes "standard";
    access_mode = codes "ReadWriteOnce";
    annotations = [];
  });
}

abbrev set_or : StatefulSet → Result StatefulSet → StatefulSet
set_or d (ok sts) = sts
set_or d (err e) = d

abbrev built_set : StatefulSet
built_set = set_or (set_of 3) (build_stateful_set sample_client key stored (start 3)).0

built_run : (build_stateful_set sample_client key stored (start 3)).0 ≡ ok built_set
unfolding build_stateful_set build_stateful_set_hash read_configuration
    get_additional_server_configuration ◌>>=◌ on_result
built_run = refl

abbrev downgraded : Condition
downgraded = record {
  kind = codes "Ready";
  status = codes "False";
  reason = codes "QuorumDowngraded";
  message = [];
}

stored_condition : get_condition_ready stored.conditions ≡ some (some downgraded)
unfolding get_condition_ready text_eq
stored_condition = refl

built_set-IsCompared : IsCompared stored built_set
unfolding build_stateful_set build_stateful_set_hash read_configuration stateful_set_of
    pod_annotations_of get_additional_server_configuration get_healthy_lag_thresholds copy_into
    lookup insert text_eq contains_text has_prefix ◌>>=◌ on_result
built_set-IsCompared = ((refl, (refl, (refl, tt))), tt)

updated_stateful_set-unchanged_example :
    should_update_stateful_set lax
      (updated_stateful_set (set_of 3) built_set (codes "2025-01-01T00:00:00Z"))
      (some built_set)
      stored
    ≡ some no_change
updated_stateful_set-unchanged_example =
    updated_stateful_set-unchanged sample_client lax lax-IsReflexive stored key (set_of 3) built_set
      (codes "2025-01-01T00:00:00Z") {condition = downgraded} (start 3) built_run stored_condition
      built_set-IsCompared

-- One replica, of a spec that asks for three, and another hash.
abbrev both_changed : Verdict
both_changed = record {
  update = true;
  scale_only = true;
  triggers = Trigger.spec_replicas_changed ∷ Trigger.hash_annotation_changed ∷ [];
}

built_of_one_run : (build_stateful_set sample_client key stored (start 1)).0 ≡ ok built_set
unfolding build_stateful_set build_stateful_set_hash read_configuration
    get_additional_server_configuration ◌>>=◌ on_result get_healthy_lag_thresholds
    pod_annotations_of stateful_set_of with_configuration
built_of_one_run = refl

both_changed_run :
    should_update_stateful_set lax (set_of 1) (some built_set) stored ≡ some both_changed
unfolding should_update_stateful_set get_condition_ready text_eq replicas_changed condition_text
    note_replicas note_changes note_containers note lookup build_stateful_set
    build_stateful_set_hash read_configuration stateful_set_of pod_annotations_of
    get_additional_server_configuration get_healthy_lag_thresholds copy_into insert ◌>>=◌ on_result
both_changed_run = refl

reconcile_stateful_set-replicas_example :
    let y =
      (build_stateful_set sample_client key stored (looked sample_client lax stored (start 1))).1 in
    reconcile_stateful_set sample_client lax stored (start 1)
    ≡ (if true then (ok (set_of 1), y) else resize_stateful_set sample_client stored built_set y)
unfolding find ◌>>=◌ read
reconcile_stateful_set-replicas_example =
    reconcile_stateful_set-replicas sample_client lax stored (start 1) {sts = set_of 1}
      {d = built_set} {condition = downgraded} {n = 1} {v = both_changed} refl stored_condition refl
      (omega arith) built_of_one_run both_changed_run
