-- ===== src/Services.antt =====
-- internal/controller/typesensecluster_services.go: the headless service of the stateful set's pods
-- and the service in front of the nodes.
--
-- A port fits into an `int32`: the specification is validated to at most 65535.
pub mod Headless
pub mod Sync
pub mod Again
use typesense_operator.Base.{
  Text, codes, ℕ, true, false, not, ◌||◌, Option, none, some, List, [], ◌∷◌, ◌++◌, length, ltb,
  ◌==◌, if◌then◌else◌,
}
use typesense_operator.Base.Exec.{
  Result, ok, err, pure, ◌>>=◌, ◌>>◌, on_result, first, found, attempt, check, or_return,
}
use typesense_operator.Kube.{Service, ServicePort, service, service_kind}
use typesense_operator.Api.{TypesenseCluster, ObjectKey}
use typesense_operator.Api.Client.{
  Client, M, read, request, find, create_owned, patch_object, delete_object,
}
use typesense_operator.Api.Semantic.{Semantic}
use typesense_operator.Utils.Meta.{get_object_meta, get_labels}

-- `ClusterHeadlessService`
abbrev pub headless_key : TypesenseCluster → ObjectKey
headless_key ts = record { namespace = ts.namespace; name = ts.name ++ codes "-sts-svc" }

-- `ClusterRestService`
abbrev pub cluster_rest_service : Text → Text
cluster_rest_service name = name ++ codes "-svc"

abbrev pub service_key : TypesenseCluster → ObjectKey
service_key ts = record { namespace = ts.namespace; name = cluster_rest_service ts.name }

abbrev pub http_port : TypesenseCluster → ServicePort
http_port ts = record { name = codes "http"; port = ts.api_port; target_port = 8108 }

-- The service that `createHeadlessService` builds.
unfoldable pub headless_of : ObjectKey → TypesenseCluster → Service
unfolding get_object_meta
headless_of key ts = record {
  meta = get_object_meta ts (some key.name) [];
  kind = [];
  cluster_ip = codes "None";
  publish_not_ready_addresses = true;
  selector = get_labels ts;
  ports = http_port ts ∷ [];
}

-- The service that `createService` builds.
unfoldable pub service_of : ObjectKey → TypesenseCluster → Service
unfolding get_object_meta
service_of key ts = record {
  meta = get_object_meta ts (some key.name) ts.service_annotations;
  kind = codes "ClusterIP";
  cluster_ip = [];
  publish_not_ready_addresses = false;
  selector = get_labels ts;
  ports =
      http_port ts ∷ record { name = codes "healthcheck"; port = 8808; target_port = 8808 } ∷ [];
}

-- `svc.Spec.Ports[0].Port = port`, of a list that is not empty
abbrev pub with_first_port : ℕ → List ServicePort → List ServicePort
with_first_port n [] = []
with_first_port n (p ∷ ps) = record p { port = n } ∷ ps

module _ (C : Client) where
  -- `createHeadlessService`
  abbrev pub create_headless_service : ObjectKey → TypesenseCluster → M C (Result (Unit {0}))
  create_headless_service key ts = create_owned C ts (service (headless_of key ts))

  -- `updateHeadlessService`
  unfoldable pub update_headless_service : Service → TypesenseCluster → M C (Result (Unit {0}))
  unfolding first
  update_headless_service svc ts = check (first svc.ports) λ _. request C (
      patch_object (service svc)
        (service (record svc { ports = with_first_port ts.api_port svc.ports })))

  -- `createService`
  abbrev pub create_service : ObjectKey → TypesenseCluster → M C (Result (Unit {0}))
  create_service key ts = create_owned C ts (service (service_of key ts))

  -- `updateService`
  unfoldable pub update_service : Service → TypesenseCluster → M C (Result (Unit {0}))
  unfolding first
  update_service svc ts = check (first svc.ports) λ _. request C (
      patch_object (service svc) (
        service (record svc {
          meta = record svc.meta { annotations = ts.service_annotations };
          ports = with_first_port ts.api_port svc.ports;
        })))

  -- `deleteService`
  unfoldable pub delete_service : Service → M C (Result (Unit {0}))
  delete_service svc = request C (delete_object service_kind svc.meta.namespace svc.meta.name)

  -- Lines 33 to 51, from what was found of the headless service.
  unfoldable pub ensure_headless : TypesenseCluster → Option Service → M C (Result (Unit {0}))
  unfolding first
  ensure_headless ts none = create_headless_service (headless_key ts) ts
  ensure_headless ts (some headless) = check (first headless.ports) λ port.
      if not (ts.api_port == port.port) then update_headless_service headless ts else pure (ok tt)

  module _ (E : Semantic) where
    -- Lines 90 to 98.
    unfoldable pub amend_service : TypesenseCluster → Service → M C (Result (Unit {0}))
    unfolding first
    amend_service ts svc = check (first svc.ports) λ port.
        if not (ts.api_port == port.port)
          || not (E.equal_maps svc.meta.annotations ts.service_annotations)
        then update_service svc ts
        else pure (ok tt)

    -- Lines 67 to 99, from what was found of the service. A service of fewer than two ports is
    -- deleted and created again, and `svc` goes on holding what was deleted.
    unfoldable pub ensure_service : TypesenseCluster → Option Service → M C (Result (Unit {0}))
    ensure_service ts none = create_service (service_key ts) ts
    ensure_service ts (some svc) =
        if ltb (length svc.ports) 2
        then (attempt (delete_service svc)
            λ _. attempt (create_service (service_key ts) ts) λ _. amend_service ts svc)
        else amend_service ts svc

    -- `ReconcileServices`
    unfoldable pub reconcile_services : TypesenseCluster → M C (Result (Unit {0}))
    reconcile_services ts = attempt (find C (C.get_service (headless_key ts))) λ headless.
        attempt (ensure_headless ts headless)
          λ _. attempt (find C (C.get_service (service_key ts))) λ svc. ensure_service ts svc
