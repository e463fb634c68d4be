-- ===== src/Ingress/Proxy.antt =====
-- The reverse proxy behind the ingress: its deployment, with what `ReconcileIngress` changes in it,
-- its volumes as utils.go compares them, and its service.
use typesense_operator.Base.{
  Text, codes, text_lt, Bool, true, false, not, ◌||◌, Option, none, some, List, [], ◌∷◌, ◌++◌, map,
  if◌then◌else◌,
}
use typesense_operator.Base.Dict.{insert}
use typesense_operator.Kube.{Volume, VolumeMount, Deployment, ProxyContainer, Service}
use typesense_operator.Crd.{IngressSpec, ReadOnlyRootFilesystemSpec}
use typesense_operator.Api.{TypesenseCluster, ObjectKey}
use typesense_operator.Api.Semantic.{Semantic}
use typesense_operator.Ingress.Objects.{proxy_config_map_key, reverse_proxy_key}
use typesense_operator.StatefulSet.Decision.{restart_pods_annotation_key}
use typesense_operator.Utils.Meta.{get_reverse_proxy_object_meta, get_reverse_proxy_labels}

-- `getDefaultReverseProxyVolumes`
abbrev pub get_default_reverse_proxy_volumes : TypesenseCluster → List Volume
get_default_reverse_proxy_volumes ts =
    record {
      name = codes "nginx-config";
      config_map = some (record { name = (proxy_config_map_key ts).name; default_mode = none });
      claim = none;
      rest = [];
    }
    ∷ []

-- `getDefaultReverseProxyVolumeMounts`
abbrev pub get_default_reverse_proxy_volume_mounts : List VolumeMount
get_default_reverse_proxy_volume_mounts =
    record {
      name = codes "nginx-config";
      mount_path = codes "/etc/nginx/nginx.conf";
      sub_path = codes "nginx.conf";
      read_only = false;
    }
    ∷ []

-- `GetReverseProxyResources`, with its default as a text
unfoldable pub get_reverse_proxy_resources : IngressSpec → Text
get_reverse_proxy_resources spec = elim spec.resources [
  | some r ↦ r
  | none ↦ codes "limits:cpu=150m,memory=64Mi;requests:cpu=100m,memory=32Mi"
]

-- The security context of a file system that is read-only.
unfoldable pub read_only_context : ReadOnlyRootFilesystemSpec → Text
read_only_context r = elim r.security_context [
  | some c ↦ c
  | none ↦ codes "readOnlyRootFilesystem:true"
]

unfoldable pub proxy_volumes : TypesenseCluster → IngressSpec → List Volume
proxy_volumes ts spec = elim spec.read_only_root_filesystem [
  | none ↦ get_default_reverse_proxy_volumes ts
  | some r ↦ get_default_reverse_proxy_volumes ts ++ r.volumes
]

unfoldable pub proxy_mounts : IngressSpec → List VolumeMount
proxy_mounts spec = elim spec.read_only_root_filesystem [
  | none ↦ get_default_reverse_proxy_volume_mounts
  | some r ↦ get_default_reverse_proxy_volume_mounts ++ r.volume_mounts
]

unfoldable pub proxy_context : IngressSpec → Option Text
proxy_context spec = elim spec.read_only_root_filesystem [
  | none ↦ none
  | some r ↦ some (read_only_context r)
]

-- The deployment that `createIngressDeployment` builds.
unfoldable pub deployment_of : ObjectKey → TypesenseCluster → IngressSpec → Deployment
unfolding get_reverse_proxy_object_meta
deployment_of key ts spec = record {
  meta = get_reverse_proxy_object_meta ts (some key.name) [];
  replicas = some 3;
  match_labels = get_reverse_proxy_labels ts;
  template_labels = get_reverse_proxy_labels ts;
  template_annotations = [];
  image_pull_secrets = ts.image_pull_secrets;
  containers =
      record {
        name = (reverse_proxy_key ts).name;
        image = spec.image;
        ports = 80 ∷ [];
        resources = get_reverse_proxy_resources spec;
        volume_mounts = proxy_mounts spec;
        security_context = proxy_context spec;
      }
      ∷ [];
  volumes = proxy_volumes ts spec;
}

-- The service that `createIngressService` builds.
unfoldable pub proxy_service_of : ObjectKey → TypesenseCluster → IngressSpec → Service
unfolding get_reverse_proxy_object_meta
proxy_service_of key ts spec = record {
  meta = get_reverse_proxy_object_meta ts (some key.name) spec.service_annotations;
  kind = codes "NodePort";
  cluster_ip = [];
  publish_not_ready_addresses = false;
  selector = get_reverse_proxy_labels ts;
  ports = record { name = codes "http"; port = 80; target_port = 80 } ∷ [];
}

-- `cm.DefaultMode = nil`. The config map source is shared with the volume that was copied, so this
-- also changes the volumes that `normalizeVolumes` is given.
abbrev pub without_mode : Volume → Volume
without_mode v = record v {
  config_map = elim v.config_map [
    | none ↦ none
    | some cm ↦ some (record cm { default_mode = none })
  ];
}

abbrev pub without_modes : List Volume → List Volume
without_modes vs = map without_mode vs

-- `sort.Slice` by a name. The names of volumes and mounts that are sorted are distinct, or their
-- order is not determined by the source.
unfoldable pub insert_by {ℓ} : {A : Type ℓ} → (A → Text) → A → List A → List A
insert_by name a [] = a ∷ []
insert_by name a (b ∷ bs) =
    let rest = insert_by name a bs in if text_lt (name b) (name a) then b ∷ rest else a ∷ b ∷ bs

unfoldable pub sort_by {ℓ} : {A : Type ℓ} → (A → Text) → List A → List A
unfolding insert_by
sort_by name [] = []
sort_by name (a ∷ as_) = insert_by name a (sort_by name as_)

-- `normalizeVolumes`
abbrev pub normalize_volumes : List Volume → List Volume
normalize_volumes vs = sort_by (λ v. v.name) (without_modes vs)

-- `normalizeVolumeMounts`
abbrev pub normalize_volume_mounts : List VolumeMount → List VolumeMount
normalize_volume_mounts ms = sort_by (λ m. m.name) ms

-- What is changed in the first container and the volumes, and whether anything is.
pub record Amended : Type 0 where
  pub container : ProxyContainer
  pub volumes : List Volume
  pub changed : Bool

module _ (E : Semantic) where
  -- `needsSyncVolumes`
  abbrev pub needs_sync_volumes : List Volume → List Volume → Bool
  needs_sync_volumes desired existing =
      not (E.equal_volumes (normalize_volumes desired) (normalize_volumes existing))

  -- `needsSyncMounts`
  abbrev pub needs_sync_mounts : List VolumeMount → List VolumeMount → Bool
  needs_sync_mounts desired existing =
      not (E.equal_mounts (normalize_volume_mounts desired) (normalize_volume_mounts existing))

  -- Lines 190 to 228, by the specification of a read-only file system: the security context, the
  -- volumes and the mounts.
  unfoldable pub amend_file_system :
      TypesenseCluster → IngressSpec → Option ReadOnlyRootFilesystemSpec → Amended → Amended
  amend_file_system ts spec none a = elim a.container.security_context [
    | none ↦ a
    | some c ↦ record {
      container = record a.container {
        volume_mounts = get_default_reverse_proxy_volume_mounts;
        security_context = none;
      };
      volumes = get_default_reverse_proxy_volumes ts;
      changed = true;
    }
  ]
  amend_file_system ts spec (some r) a =
      let context = some (read_only_context r) in
      let context_differs = not (E.equal_pointers context a.container.security_context) in
      let volumes_differ = needs_sync_volumes (proxy_volumes ts spec) a.volumes in
      let mounts_differ = needs_sync_mounts (proxy_mounts spec) a.container.volume_mounts in
      record {
        container = record a.container {
          security_context = if context_differs then context else a.container.security_context;
          volume_mounts = if mounts_differ then proxy_mounts spec else a.container.volume_mounts;
        };
        volumes = without_modes (if volumes_differ then proxy_volumes ts spec else a.volumes);
        changed = a.changed || (context_differs || (volumes_differ || mounts_differ));
      }

  -- Lines 190 to 228.
  unfoldable pub amend_read_only : TypesenseCluster → IngressSpec → Amended → Amended
  unfolding amend_file_system
  amend_read_only ts spec a = amend_file_system ts spec spec.read_only_root_filesystem a

  -- Lines 179 to 188: resources and image.
  unfoldable pub amend_container : IngressSpec → Deployment → ProxyContainer → Amended
  amend_container spec d c =
      let resources_differ = not (E.equal_values (get_reverse_proxy_resources spec) c.resources) in
      let image_differs = not (E.equal_values spec.image c.image) in
      record {
        container = record c {
          resources = if resources_differ then get_reverse_proxy_resources spec else c.resources;
          image = if image_differs then spec.image else c.image;
        };
        volumes = d.volumes;
        changed = resources_differ || image_differs;
      }

abbrev pub with_first_container : ProxyContainer → List ProxyContainer → List ProxyContainer
with_first_container c [] = []
with_first_container c (_ ∷ cs) = c ∷ cs

-- The deployment as it is sent, with the time of the restart.
unfoldable pub amended_deployment : Deployment → Amended → Text → Deployment
unfolding insert
amended_deployment d a now = record d {
  template_annotations = insert restart_pods_annotation_key now d.template_annotations;
  containers = with_first_container a.container d.containers;
  volumes = a.volumes;
}
