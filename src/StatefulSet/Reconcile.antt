-- ===== src/StatefulSet/Reconcile.antt =====
-- `ReconcileStatefulSet`, `createStatefulSet` and `updateStatefulSet`.
pub mod Settled
pub mod Replicas
use typesense_operator.Base.{
  Text, codes, text_eq, ℕ, Bool, true, false, not, ◌&&◌, ◌||◌, Option, none, some, List, [], ◌∷◌,
  ◌++◌, if◌then◌else◌,
}
use typesense_operator.Base.Dict.{insert, get_or}
use typesense_operator.Base.Exec.{
  Error, not_found, other, panic, Result, ok, err, pure, ◌>>=◌, ◌>>◌, on_result, first, attempt,
  check, or_return,
}
use typesense_operator.Api.{
  ConfigMap, StatefulSet, Condition, TypesenseCluster, ObjectKey, stateful_set_key, config_map_key,
}
use typesense_operator.Api.Client.{
  Client, M, read, request, find, event, create_stateful_set as create, patch_stateful_set,
}
use typesense_operator.Api.Semantic.{Semantic}
use typesense_operator.ConfigMap.Force.{force_pods_config_map_update}
use typesense_operator.ConfigMap.Update.{Updated, update_config_map}
use typesense_operator.StatefulSet.{scale_stateful_set}
use typesense_operator.StatefulSet.Build.{build_stateful_set}
use typesense_operator.StatefulSet.Decision.{
  Verdict, Plan, leave, replace, scale, plan_of, get_condition_ready, skip_conditions,
  hash_annotation_key, restart_pods_annotation_key, should_update_stateful_set,
  should_emergency_update_stateful_set,
}
use typesense_operator.Utils.{get_image_tag, is_member}

-- `&corev1.ConfigMap{}`, which a `Get` that failed leaves empty.
abbrev pub no_config_map : ConfigMap
no_config_map = record { namespace = []; name = []; entries = [] }

-- A step of Go that panicked.
abbrev pub or_panic {ℓ} : {A : Type ℓ} → Option A → Result A
or_panic none = err (panic (codes "invalid memory address or index out of range"))
or_panic (some a) = ok a

-- What `updateStatefulSet` patches in, at a time: the new specification and annotations under the
-- name, the labels and the status of the old one.
unfoldable pub updated_stateful_set : StatefulSet → StatefulSet → Text → StatefulSet
unfolding insert
updated_stateful_set sts desired now = record desired {
  namespace = sts.namespace;
  name = sts.name;
  labels = sts.labels;
  template_annotations =
      insert hash_annotation_key (get_or [] hash_annotation_key desired.template_annotations)
        (insert restart_pods_annotation_key now desired.template_annotations);
  status_replicas = sts.status_replicas;
  ready_replicas = sts.ready_replicas;
}

-- The desired stateful set, which is nil where building it failed; a panic is not caught.
abbrev pub desired_of : Result StatefulSet → Result (Option StatefulSet)
desired_of (ok sts) = ok (some sts)
desired_of (err (panic m)) = err (panic m)
desired_of (err (not_found m)) = ok none
desired_of (err (other m)) = ok none

module _ (C : Client) where
  -- `createStatefulSet`
  unfoldable pub create_stateful_set : ObjectKey → TypesenseCluster → M C (Result StatefulSet)
  create_stateful_set key ts = attempt (build_stateful_set C key ts) λ sts.
      check (C.own_stateful_set ts sts)
        λ owned. attempt (request C (create owned)) λ _. pure (ok owned)

  -- `updateStatefulSet`
  unfoldable pub update_stateful_set : StatefulSet → StatefulSet → M C (Result StatefulSet)
  update_stateful_set sts desired = read C C.now >>= λ now.
      let new = updated_stateful_set sts desired now in
      attempt (request C (patch_stateful_set sts new)) λ _. pure (ok new)

  -- The event of a new version.
  unfoldable pub announce_version : Text → Text → M C (Unit {0})
  announce_version old new =
      if text_eq old new
      then pure tt
      else request C (
          event (codes "Normal") (codes "TypesenseVersionUpdate")
            (codes "Scheduled update from " ++ (old ++ (codes " to " ++ new))))
        >> pure tt

  -- The config map behind an update or a scaling; what cannot be read is empty.
  unfoldable pub update_listing : TypesenseCluster → Option ℕ → M C (Result Updated)
  update_listing ts size =
      or_return (read C (C.get_config_map (config_map_key ts)))
        (λ _. update_config_map C ts no_config_map size true)
        (λ cm. update_config_map C ts cm size true)

  -- `if updated && ts.Spec.ForceResetPeersConfigOnUpdate`
  unfoldable pub force_if : TypesenseCluster → Bool → M C (Unit {0})
  force_if ts updated =
      if updated && ts.force_reset_peers_config_on_update
      then force_pods_config_map_update C ts >> pure tt
      else pure tt

  -- Lines 89 to 123: an error of the config map is only logged.
  unfoldable pub replace_stateful_set :
      TypesenseCluster → StatefulSet → StatefulSet → M C (Result StatefulSet)
  unfolding first
  replace_stateful_set ts sts desired = check (first sts.containers) λ old.
      check (first desired.containers) λ new.
        announce_version (get_image_tag old.image) (get_image_tag new.image)
        >> attempt (update_stateful_set sts desired) λ updated.
          (or_return (update_listing ts updated.spec_replicas) (λ _. pure tt)
            (λ u. force_if ts u.updated))
          >> pure (ok updated)

  -- Lines 124 to 150.
  unfoldable pub resize_stateful_set : TypesenseCluster → StatefulSet → M C (Result StatefulSet)
  resize_stateful_set ts desired =
      attempt (scale_stateful_set C (stateful_set_key ts) ts.replicas) λ _.
        attempt (update_listing ts (some ts.replicas))
          λ u. force_if ts u.updated >> pure (ok desired)

  -- What is done of the verdict, with the desired stateful set.
  unfoldable pub carry_out :
      TypesenseCluster → StatefulSet → StatefulSet → Plan → M C (Result StatefulSet)
  carry_out ts sts desired leave = pure (ok sts)
  carry_out ts sts desired replace = replace_stateful_set ts sts desired
  carry_out ts sts desired scale = resize_stateful_set ts desired

  module _ (E : Semantic) where
    -- Lines 83 to 151. A comparison with a desired stateful set that is nil panics.
    unfoldable pub compare_and_carry_out : TypesenseCluster → StatefulSet → M C (Result StatefulSet)
    compare_and_carry_out ts sts = build_stateful_set C (stateful_set_key ts) ts >>= λ built.
        check (desired_of built) λ desired.
          check (or_panic (should_update_stateful_set E sts desired ts))
            λ verdict. check (or_panic desired) λ d. carry_out ts sts d (plan_of verdict)

    -- Lines 80 to 157, from the condition on.
    unfoldable pub keep_stateful_set :
        TypesenseCluster → StatefulSet → Option Condition → M C (Result StatefulSet)
    keep_stateful_set ts sts none = pure (ok sts)
    keep_stateful_set ts sts (some condition) =
        check (or_panic (should_emergency_update_stateful_set E sts ts)) λ emergency.
          if not (is_member skip_conditions condition.reason) || emergency
          then compare_and_carry_out ts sts
          else pure (ok sts)

    -- `ReconcileStatefulSet`, without the flag that `Reconcile` ignores.
    unfoldable pub reconcile_stateful_set : TypesenseCluster → M C (Result StatefulSet)
    reconcile_stateful_set ts = attempt (find C (C.get_stateful_set (stateful_set_key ts))) λ f.
        elim f [
          | none ↦ create_stateful_set (stateful_set_key ts) ts
          | some sts ↦
              check (or_panic (get_condition_ready ts.conditions)) (keep_stateful_set ts sts)
        ]
