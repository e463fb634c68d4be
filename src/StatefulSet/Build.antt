-- ===== src/StatefulSet/Build.antt =====
-- `buildStatefulSet` and `buildStatefulSetHash`.
use typesense_operator.Base.{
  Text, codes, text_eq, itoa, Option, none, some, List, [], ◌∷◌, if◌then◌else◌,
}
use typesense_operator.Base.Int.{ℤ}
use typesense_operator.Base.Dict.{Dict, insert}
use typesense_operator.Base.Exec.{Result, ok, pure, ◌>>=◌, deref, attempt, check}
use typesense_operator.Kube.{Volume, VolumeClaim}
use typesense_operator.Crd.{StorageSpec}
use typesense_operator.Api.{
  PodSpec, StatefulSet, TypesenseCluster, ObjectKey, cluster_nodes_config_map,
}
use typesense_operator.Api.Client.{Client, M, read}
use typesense_operator.Api.Spec.{
  get_pod_security_context, get_additional_server_configuration, get_topology_spread_constraints,
  get_pod_management_policy, get_termination_grace_period_seconds, get_storage,
}
use typesense_operator.Quorum.Lag.{get_healthy_lag_thresholds}
use typesense_operator.Services.{headless_key}
use typesense_operator.StatefulSet.Containers.{
  typesense_container, metrics_container, healthcheck_container,
}
use typesense_operator.StatefulSet.Decision.{hash_annotation_key}
use typesense_operator.Utils.{copy_into}
use typesense_operator.Utils.Meta.{get_labels, get_object_meta}

abbrev pub read_lag_annotation_key : Text
read_lag_annotation_key = codes "ts.opentelekomcloud.com/read-lag-threshold"

abbrev pub write_lag_annotation_key : Text
write_lag_annotation_key = codes "ts.opentelekomcloud.com/write-lag-threshold"

-- `podAnnotations`, from the two thresholds.
unfoldable pub pod_annotations_of : TypesenseCluster → ℤ → ℤ → Dict Text
unfolding itoa insert copy_into
pod_annotations_of ts read_lag write_lag =
    let lags : Dict Text =
      (read_lag_annotation_key, itoa read_lag) ∷ (write_lag_annotation_key, itoa write_lag) ∷ [] in
    let own = copy_into lags ts.pod_annotations in
    if ts.pods_inherit_stateful_set_annotations
    then copy_into own ts.stateful_set_annotations
    else own

-- `podManagementPolicy`
abbrev pub policy_of : TypesenseCluster → Text
policy_of ts =
    if text_eq (get_pod_management_policy ts) (codes "OrderedReady")
    then codes "OrderedReady"
    else codes "Parallel"

abbrev volumes_of : TypesenseCluster → List Volume
volumes_of ts =
    record {
      name = codes "nodeslist";
      config_map = some (record { name = cluster_nodes_config_map ts; default_mode = none });
      claim = none;
      rest = [];
    }
    ∷ record { name = codes "data"; config_map = none; claim = some (codes "data"); rest = [] }
    ∷ []

-- `ts.Spec.Storage.StorageClassName` is read through the pointer, whatever `GetStorage` returns.
abbrev claim_of : TypesenseCluster → StorageSpec → VolumeClaim
claim_of ts storage = record {
  name = codes "data";
  labels = get_labels ts;
  annotations = (get_storage ts).annotations;
  access_modes = (get_storage ts).access_mode ∷ [];
  size = (get_storage ts).size;
  storage_class_name = storage.storage_class_name;
}

abbrev name_or_empty : Option Text → Text
name_or_empty none = []
name_or_empty (some name) = name

abbrev pub pod_spec_of : TypesenseCluster → PodSpec
pod_spec_of ts = record {
  termination_grace_period_seconds = some (get_termination_grace_period_seconds ts);
  readiness_gates = codes "RaftQuorumReady" ∷ [];
  priority_class_name = name_or_empty ts.priority_class_name;
  image_pull_secrets = ts.image_pull_secrets;
  affinity = ts.affinity;
  node_selector = ts.node_selector;
  tolerations = ts.tolerations;
  topology_spread_constraints = get_topology_spread_constraints ts (get_labels ts);
  volumes = volumes_of ts;
}

-- Lines 225 to 495: the stateful set without the hash of its template.
unfoldable pub stateful_set_of :
    ObjectKey → TypesenseCluster → StorageSpec → Dict Text → StatefulSet
unfolding get_object_meta copy_into
stateful_set_of key ts storage pod_annotations =
    let meta = get_object_meta ts (some key.name) (copy_into [] ts.stateful_set_annotations) in
    record {
      namespace = meta.namespace;
      name = meta.name;
      labels = meta.labels;
      annotations = meta.annotations;
      spec_replicas = some ts.replicas;
      pod_management_policy = policy_of ts;
      match_labels = get_labels ts;
      service_name = (headless_key ts).name;
      template_labels = meta.labels;
      template_annotations = pod_annotations;
      pod_security_context = get_pod_security_context ts;
      containers = typesense_container ts ∷ metrics_container ts ∷ healthcheck_container ts ∷ [];
      pod = pod_spec_of ts;
      volume_claims = claim_of ts storage ∷ [];
      status_replicas = 0;
      ready_replicas = 0;
    }

module _ (C : Client) where
  -- `additionalConfData`
  unfoldable pub read_configuration :
      TypesenseCluster → List Text → Dict (Dict Text) → M C (Result (Dict (Dict Text)))
  unfolding insert
  read_configuration ts [] found = pure (ok found)
  read_configuration ts (name ∷ names) found =
      attempt (read C (C.get_config_map (record { namespace = ts.namespace; name = name })))
        λ cm. read_configuration ts names (insert cm.name cm.entries found)

  -- `buildStatefulSetHash`. Its `delete` is on a nil map, and deletes nothing.
  unfoldable pub build_stateful_set_hash : StatefulSet → TypesenseCluster → M C (Result Text)
  build_stateful_set_hash sts ts =
      attempt (read_configuration ts (get_additional_server_configuration ts) []) λ configuration.
        pure (
          C.hash_template (record {
            annotations = sts.template_annotations;
            security_context = sts.pod_security_context;
            containers = sts.containers;
            pod = sts.pod;
            configuration = configuration;
          }))

  -- `buildStatefulSet`
  unfoldable pub build_stateful_set : ObjectKey → TypesenseCluster → M C (Result StatefulSet)
  unfolding deref
  build_stateful_set key ts = get_healthy_lag_thresholds C ts >>= λ lags.
      check (deref ts.storage) λ storage.
        let sts = stateful_set_of key ts storage (pod_annotations_of ts lags.0 lags.1) in
        attempt (build_stateful_set_hash sts ts) λ hash. pure (
          ok (record sts {
            template_annotations = insert hash_annotation_key hash sts.template_annotations;
          }))
