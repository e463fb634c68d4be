-- ===== src/Tests/Resources.antt =====
-- The stateful set and its pods: the theorems at concrete data.
use typesense_operator.Base.{Text, codes, text_eq, ◌≡◌, refl, true, some, [], ◌∷◌, arith}
use typesense_operator.Base.Exec.{ok, err, panic, pure, ◌>>=◌, on_result}
use typesense_operator.Api.{Condition, StatefulSet}
use typesense_operator.Api.Client.{World, read, request}
use typesense_operator.StatefulSet.{get_fresh_stateful_set, scale_stateful_set}
use typesense_operator.Api.Spec.{
  get_pod_security_context, get_typesense_security_context, get_metrics_security_context,
  get_healthcheck_security_context,
}
use typesense_operator.StatefulSet.Decision.{
  get_condition_ready, should_emergency_update_stateful_set, own_annotations, own_pod_annotations,
}
use typesense_operator.StatefulSet.Decision.Laws.{should_emergency_update-replicas}
use typesense_operator.StatefulSet.Reconcile.{reconcile_stateful_set}
use typesense_operator.StatefulSet.Reconcile.Replicas.{reconcile_stateful_set-panics}
use typesense_operator.Utils.{filter_map}
use typesense_operator.Tests.Sample.{sample_client, cluster, key, set_of, start, lax, container}

abbrev downgraded_ready : Condition
downgraded_ready = record {
  kind = codes "Ready";
  status = codes "False";
  reason = codes "QuorumDowngraded";
  message = [];
}

ready_condition_run : get_condition_ready cluster.conditions ≡ some (some downgraded_ready)
unfolding get_condition_ready text_eq
ready_condition_run = refl

should_emergency_update-replicas_example :
    should_emergency_update_stateful_set lax (set_of 1) cluster ≡ some true
should_emergency_update-replicas_example =
    should_emergency_update-replicas lax (set_of 1) cluster {condition = downgraded_ready} {n = 1}
      ready_condition_run refl (omega arith)

abbrev two_containers : StatefulSet
two_containers = record (set_of 3) { containers = container ∷ container ∷ [] }

-- A stateful set that lacks a container.
abbrev short : World sample_client
short = record (start 3) { state = record ((start 3).state) { stateful_set = some two_containers } }

reconcile_stateful_set-panics_example :
    (m : Text) × ((reconcile_stateful_set sample_client lax cluster short).0 ≡ err (panic m))
reconcile_stateful_set-panics_example =
    reconcile_stateful_set-panics sample_client lax cluster short {sts = two_containers}
      {condition = downgraded_ready} refl ready_condition_run (omega arith)

no_annotations : own_annotations lax (set_of 3) cluster ≡ []
unfolding own_annotations filter_map
no_annotations = refl

no_pod_annotations : own_pod_annotations lax (set_of 3) cluster ≡ []
unfolding own_pod_annotations filter_map
no_pod_annotations = refl

default_context : (set_of 3).pod_security_context ≡ get_pod_security_context cluster
unfolding get_pod_security_context
default_context = refl

no_context : container.security_context ≡ get_typesense_security_context cluster
unfolding get_typesense_security_context
no_context = refl

no_metrics_context : container.security_context ≡ get_metrics_security_context cluster
unfolding get_metrics_security_context
no_metrics_context = refl

no_healthcheck_context : container.security_context ≡ get_healthcheck_security_context cluster
unfolding get_healthcheck_security_context
no_healthcheck_context = refl

scale_run : (scale_stateful_set sample_client key 3 (start 1)).0 ≡ ok tt
unfolding scale_stateful_set get_fresh_stateful_set read request ◌>>=◌ on_result pure
scale_run = refl
