-- ===== src/Ingress.antt =====
-- internal/controller/typesensecluster_ingress.go: the ingress of a cluster, and the config map, the
-- deployment and the service of the reverse proxy behind it.
pub mod Nginx
pub mod Objects
pub mod Proxy
pub mod Laws
pub mod Tls
use typesense_operator.Base.{
  Text, codes, text_eq, Bool, true, false, not, ◌&&◌, ◌||◌, Option, none, some, List, [], ◌∷◌,
  if◌then◌else◌,
}
use typesense_operator.Base.Dict.{Dict, get_or}
use typesense_operator.Base.Exec.{Result, ok, err, pure, ◌>>=◌, on_result, first, attempt, check}
use typesense_operator.Kube.{
  Ingress, Deployment, Service, ingress, deployment, service, ingress_kind,
}
use typesense_operator.Crd.{IngressSpec}
use typesense_operator.Api.{ConfigMap, TypesenseCluster, ObjectKey}
use typesense_operator.Api.Client.{
  Client, M, read, request, find, create_owned, create_object, patch_object, update_object,
  delete_object, create_config_map, update_config_map,
}
use typesense_operator.Api.Semantic.{Semantic}
use Nginx.{get_ingress_nginx_conf}
use Objects.{
  reverse_proxy_key, proxy_config_map_key, proxy_service_key, require_tls_secret, ingress_of,
  updated_ingress, ingress_differs,
}
use Proxy.{
  Amended, deployment_of, proxy_service_of, amend_container, amend_read_only, amended_deployment,
}

abbrev pub nginx_data : TypesenseCluster → Dict Text
nginx_data ts = (codes "nginx.conf", get_ingress_nginx_conf ts) ∷ []

-- `shouldUpdateIngressConfigMap`
unfoldable pub should_update_ingress_config_map : ConfigMap → TypesenseCluster → Bool
should_update_ingress_config_map cm ts =
    not (text_eq (get_or [] (codes "nginx.conf") cm.entries) (get_ingress_nginx_conf ts))

module _ (C : Client) where
  -- `createIngress`
  unfoldable pub create_ingress : ObjectKey → TypesenseCluster → IngressSpec → M C (Result Ingress)
  create_ingress key ts spec = check (require_tls_secret (codes "creation") spec) λ _.
      let ig = ingress_of key ts spec in attempt (create_owned C ts (ingress ig)) λ _. pure (ok ig)

  -- `updateIngress`
  unfoldable pub update_ingress : Ingress → TypesenseCluster → IngressSpec → M C (Result Ingress)
  update_ingress ig ts spec =
      check (updated_ingress ts spec ig)
        λ new. attempt (request C (patch_object (ingress ig) (ingress new))) λ _. pure (ok new)

  -- `deleteIngress`
  abbrev pub delete_ingress : Ingress → M C (Result (Unit {0}))
  delete_ingress ig = request C (delete_object ingress_kind ig.meta.namespace ig.meta.name)

  -- `createIngressConfigMap`
  unfoldable pub create_ingress_config_map :
      ObjectKey → TypesenseCluster → Ingress → M C (Result (Unit {0}))
  create_ingress_config_map key ts ig =
      check
        (C.own_config_map_by_ingress ig
          (record { namespace = ts.namespace; name = key.name; entries = nginx_data ts }))
        λ cm. request C (create_config_map cm)

  -- `updateIngressConfigMap`
  abbrev pub update_ingress_config_map : ConfigMap → TypesenseCluster → M C (Result (Unit {0}))
  update_ingress_config_map cm ts =
      request C (update_config_map (record cm { entries = nginx_data ts }))

  -- Lines 129 to 154: whether an existing config map was updated.
  unfoldable pub sync_ingress_config_map :
      TypesenseCluster → Ingress → Option ConfigMap → M C (Result Bool)
  sync_ingress_config_map ts ig none =
      attempt (create_ingress_config_map (proxy_config_map_key ts) ts ig) λ _. pure (ok false)
  sync_ingress_config_map ts ig (some cm) =
      if should_update_ingress_config_map cm ts
      then (attempt (update_ingress_config_map cm ts) λ _. pure (ok true))
      else pure (ok false)

  -- `createIngressDeployment`
  unfoldable pub create_ingress_deployment :
      ObjectKey → TypesenseCluster → IngressSpec → Ingress → M C (Result (Unit {0}))
  create_ingress_deployment key ts spec ig =
      let d = deployment (deployment_of key ts spec) in
      check (C.own_by_ingress ig d) λ _. request C (create_object d)

  -- `createIngressService`
  unfoldable pub create_ingress_service :
      ObjectKey → TypesenseCluster → IngressSpec → Ingress → M C (Result (Unit {0}))
  create_ingress_service key ts spec ig =
      let s = service (proxy_service_of key ts spec) in
      check (C.own_by_ingress ig s) λ _. request C (create_object s)

  -- `updateIngressService`
  abbrev pub update_ingress_service : Service → IngressSpec → M C (Result (Unit {0}))
  update_ingress_service svc spec = request C (
      patch_object (service svc) (
        service (record svc { meta = record svc.meta { annotations = spec.service_annotations } })))

  module _ (E : Semantic) where
    -- Lines 87 to 113, from what was found of the ingress.
    unfoldable pub sync_ingress :
        TypesenseCluster → IngressSpec → Option Ingress → M C (Result Ingress)
    sync_ingress ts spec none = create_ingress (reverse_proxy_key ts) ts spec
    sync_ingress ts spec (some ig) =
        check (ingress_differs E ts spec ig)
          λ differs. if differs then update_ingress ig ts spec else pure (ok ig)

    -- Lines 179 to 242.
    unfoldable pub amend_deployment :
        TypesenseCluster → IngressSpec → Bool → Deployment → M C (Result (Unit {0}))
    unfolding first
    amend_deployment ts spec config_map_updated d = check (first d.containers) λ c.
        let a = amend_read_only E ts spec (amend_container E spec d c) in
        if config_map_updated || a.changed
        then (read C C.now >>= λ now.
            request C (update_object (deployment (amended_deployment d a now))))
        else pure (ok tt)

    -- Lines 170 to 243, from what was found of the deployment.
    unfoldable pub sync_deployment :
        TypesenseCluster
        → IngressSpec
        → Ingress
        → Bool
        → Option Deployment
        → M C (Result (Unit {0}))
    sync_deployment ts spec ig config_map_updated none =
        create_ingress_deployment (reverse_proxy_key ts) ts spec ig
    sync_deployment ts spec ig config_map_updated (some d) =
        amend_deployment ts spec config_map_updated d

    -- Lines 259 to 275, from what was found of the service.
    unfoldable pub sync_ingress_service :
        TypesenseCluster → IngressSpec → Ingress → Option Service → M C (Result (Unit {0}))
    sync_ingress_service ts spec ig none = create_ingress_service (proxy_service_key ts) ts spec ig
    sync_ingress_service ts spec ig (some svc) =
        if E.equal_maps svc.meta.annotations spec.service_annotations
        then pure (ok tt)
        else update_ingress_service svc spec

    -- Lines 87 to 277.
    unfoldable pub ensure_ingress :
        TypesenseCluster → IngressSpec → Option Ingress → M C (Result (Unit {0}))
    ensure_ingress ts spec found = attempt (sync_ingress ts spec found) λ ig.
        attempt (find C (C.get_config_map (proxy_config_map_key ts))) λ cm.
          attempt (sync_ingress_config_map ts ig cm) λ updated.
            attempt (find C (C.get_deployment (reverse_proxy_key ts))) λ d.
              attempt (sync_deployment ts spec ig updated d) λ _.
                attempt (find C (C.get_service (proxy_service_key ts)))
                  λ svc. sync_ingress_service ts spec ig svc

    -- Lines 77 to 277, from what was found of the ingress.
    unfoldable pub choose_ingress :
        TypesenseCluster → Option IngressSpec → Option Ingress → M C (Result (Unit {0}))
    choose_ingress ts none none = pure (ok tt)
    choose_ingress ts none (some ig) = delete_ingress ig
    choose_ingress ts (some spec) none =
        if ts.has_http_routes then pure (ok tt) else ensure_ingress ts spec none
    choose_ingress ts (some spec) (some ig) =
        if ts.has_http_routes then delete_ingress ig else ensure_ingress ts spec (some ig)

    -- `ReconcileIngress`
    unfoldable pub reconcile_ingress : TypesenseCluster → M C (Result (Unit {0}))
    reconcile_ingress ts =
        attempt (find C (C.get_ingress (reverse_proxy_key ts))) (choose_ingress ts ts.ingress)
