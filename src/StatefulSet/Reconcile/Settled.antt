-- ===== src/StatefulSet/Reconcile/Settled.antt =====
-- A stateful set that was just updated is as the operator wants it.
use typesense_operator.Base.{
  Text, text_eq, text_eq_iff, contains_text, has_prefix, ◌≡◌, refl, sym, ap, ◌∙◌, true, false, some,
  List, [], ◌∷◌, All, any, arith,
}
use mathlib.Core.Path.{subst}
use typesense_operator.Base.Dict.{Dict, lookup, insert, get_or, lookup-insert, get_or-insert}
use typesense_operator.Base.Exec.{ok, ok-injective, pure, ◌>>=◌, deref}
use typesense_operator.Base.Exec.Rules.{attempt-ok, check-ok}
use typesense_operator.Crd.{StorageSpec}
use typesense_operator.Api.{StatefulSet, Condition, TypesenseCluster, ObjectKey}
use typesense_operator.Api.Client.{Client, World}
use typesense_operator.Api.Semantic.{Semantic, IsReflexive}
use typesense_operator.Quorum.Lag.{get_healthy_lag_thresholds}
use typesense_operator.StatefulSet.Build.{
  stateful_set_of, pod_annotations_of, build_stateful_set, build_stateful_set_hash,
}
use typesense_operator.StatefulSet.Containers.{
  typesense_container, metrics_container, healthcheck_container,
}
use typesense_operator.StatefulSet.Decision.{
  no_change, hash_annotation_key, restart_pods_annotation_key, rancher_domain_annotation_key,
  get_condition_ready, own_annotations, own_pod_annotations, should_update_stateful_set,
}
use typesense_operator.StatefulSet.Decision.Laws.{should_update-unchanged}
use typesense_operator.StatefulSet.Reconcile.{updated_stateful_set}
use typesense_operator.Utils.{filter_map}

-- No key contains a filter.
abbrev pub IsClean : List Text → Dict Text → Type 0
IsClean filters m = All (λ e. any (contains_text e.0) filters ≡ false) m

-- No annotation of the stateful set or of its pods contains a key that the comparison filters out.
abbrev pub IsCompared : TypesenseCluster → StatefulSet → Type 0
IsCompared ts d =
    IsClean
      (restart_pods_annotation_key ∷ rancher_domain_annotation_key
        ∷ ts.ignore_annotations_from_external_mutations)
      d.template_annotations
    × IsClean (rancher_domain_annotation_key ∷ ts.ignore_annotations_from_external_mutations)
        d.annotations

filter_map-clean :
    (m : Dict Text) (filters : List Text) → IsClean filters m → filter_map m filters ≡ m
unfolding filter_map
filter_map-clean [] filters clean = refl
filter_map-clean ((k, v) ∷ m) filters (c, cs) =
    rw c (ap (λ r. (k, v) ∷ r) (filter_map-clean m filters cs))

filter_map-insert :
    (k v : Text) (m : Dict Text) (filters : List Text)
    → any (contains_text k) filters ≡ true
    → filter_map (insert k v m) filters ≡ filter_map m filters
unfolding filter_map insert
filter_map-insert k v [] filters h = rw h
filter_map-insert k v ((j, w) ∷ m) filters h =
    ground (arith, text_eq_iff j k, filter_map-insert k v m filters h)

insert_same : (k v : Text) (m : Dict Text) → lookup k m ≡ some v → insert k v m ≡ m
unfolding lookup insert
insert_same k v [] h = absurd (ground arith)
insert_same k v ((j, w) ∷ m) h = ground (arith, text_eq_iff j k, insert_same k v m)

-- The annotation with the time of the restart is never compared.
restart_filtered :
    (filters : List Text)
    → any (contains_text restart_pods_annotation_key) (restart_pods_annotation_key ∷ filters) ≡ true
unfolding contains_text has_prefix
restart_filtered filters = refl

hash_kept :
    (now h : Text) (m : Dict Text)
    → lookup hash_annotation_key
        (insert restart_pods_annotation_key now (insert hash_annotation_key h m))
      ≡ some h
unfolding text_eq
hash_kept now h m =
    lookup-insert restart_pods_annotation_key hash_annotation_key now
      (insert hash_annotation_key h m)
    ∙ lookup-insert hash_annotation_key hash_annotation_key h m

-- What `buildStatefulSet` returns.
abbrev built : ObjectKey → TypesenseCluster → StorageSpec → Dict Text → Text → StatefulSet
built key ts storage annotations hash = record (stateful_set_of key ts storage annotations) {
  template_annotations =
      insert hash_annotation_key hash
        (stateful_set_of key ts storage annotations).template_annotations;
}

build_stateful_set_lem :
    (C : Client) (key : ObjectKey) (ts : TypesenseCluster) (w : World C) {d : StatefulSet}
    → (build_stateful_set C key ts w).0 ≡ ok d
    → (storage : StorageSpec) × (annotations : Dict Text) × (hash : Text) × (d
        ≡ built key ts storage annotations hash)
unfolding build_stateful_set ◌>>=◌ pure
build_stateful_set_lem C key ts w {d} h =
    let lags = (get_healthy_lag_thresholds C ts w).0 in
    let x = (get_healthy_lag_thresholds C ts w).1 in
    let annotations = pod_annotations_of ts lags.0 lags.1 in
    let (storage, _, e) = check-ok (deref ts.storage) _ x h in
    let sts = stateful_set_of key ts storage annotations in
    let (hash, _, e1) = attempt-ok (build_stateful_set_hash C sts ts) _ x (rw e at h) in
    (storage, annotations, hash, sym (ok-injective (rw e1 at (rw e at h))))

-- Writing the hash a second time, behind the time of the restart, changes nothing.
hash_again :
    (now h : Text) (m : Dict Text)
    → let t = insert hash_annotation_key h m in
      insert hash_annotation_key
        (get_or [] hash_annotation_key t)
        (insert restart_pods_annotation_key now t)
      ≡ insert restart_pods_annotation_key now t
hash_again now h m =
    let t = insert hash_annotation_key h m in
    ap (λ v. insert hash_annotation_key v (insert restart_pods_annotation_key now t))
      (get_or-insert [] h hash_annotation_key m)
    ∙ insert_same hash_annotation_key h (insert restart_pods_annotation_key now t)
        (hash_kept now h m)

built-unchanged :
    (C : Client) (E : Semantic)
    → IsReflexive E
    → (ts : TypesenseCluster) (key : ObjectKey) (sts : StatefulSet) (now : Text)
      (storage : StorageSpec) (annotations : Dict Text) (hash : Text) {condition : Condition}
    → get_condition_ready ts.conditions ≡ some (some condition)
    → let d = built key ts storage annotations hash in
      IsCompared ts d
      → should_update_stateful_set E (updated_stateful_set sts d now) (some d) ts ≡ some no_change
unfolding updated_stateful_set own_annotations own_pod_annotations stateful_set_of
    typesense_container metrics_container healthcheck_container
built-unchanged C E R ts key sts now storage annotations hash {condition} ready (pods, own) =
    let d = built key ts storage annotations hash in
    let ignored = ts.ignore_annotations_from_external_mutations in
    let filters = restart_pods_annotation_key ∷ rancher_domain_annotation_key ∷ ignored in
    should_update-unchanged E R (updated_stateful_set sts d now) d ts {condition = condition}
      {c0 = typesense_container ts} {c1 = metrics_container ts} {c2 = healthcheck_container ts}
      {cs = []} ready refl (get_or-insert [] _ hash_annotation_key _) (filter_map-clean _ _ own)
      (ap (λ m. filter_map m filters) (hash_again now hash annotations)
        ∙ (filter_map-insert restart_pods_annotation_key now d.template_annotations filters
              (restart_filtered (rancher_domain_annotation_key ∷ ignored))
            ∙ filter_map-clean d.template_annotations filters pods))
      refl refl refl refl refl

-- A stateful set that was just updated to what `buildStatefulSet` returned is left alone by the next
-- comparison with it, at whatever time the update was made: no field is found to differ, and
-- nothing is recorded. No annotation of the pods and of the stateful set may contain a key that the
-- comparison filters out, and the comparisons must be reflexive.
pub updated_stateful_set-unchanged :
    (C : Client) (E : Semantic)
    → IsReflexive E
    → (ts : TypesenseCluster) (key : ObjectKey) (sts desired : StatefulSet) (now : Text)
      {condition : Condition}
    → (w : World C) → (build_stateful_set C key ts w).0 ≡ ok desired
    → get_condition_ready ts.conditions ≡ some (some condition)
    → IsCompared ts desired
    → should_update_stateful_set E (updated_stateful_set sts desired now) (some desired) ts
      ≡ some no_change
unfolding updated_stateful_set own_annotations own_pod_annotations
updated_stateful_set-unchanged C E R ts key sts desired now {condition} w made ready compared =
    let (storage, annotations, hash, same) = build_stateful_set_lem C key ts w {d = desired} made in
    subst
      (λ d.
        IsCompared ts d
        → should_update_stateful_set E (updated_stateful_set sts d now) (some d) ts
          ≡ some no_change)
      (sym same)
      (built-unchanged C E R ts key sts now storage annotations hash {condition = condition} ready)
      compared
