-- ===== src/Tests/Routes.antt =====
-- The routes, the ingress and the stateful set: the theorems at concrete data.
use typesense_operator.Base.{
  Text, codes, text_eq, ◌≡◌, refl, inl, true, false, Option, none, some, [], ◌∷◌,
}
use typesense_operator.Base.Exec.{
  Error, Result, ok, err, other, pure, ◌>>=◌, on_result, first, deref, found,
}
use typesense_operator.Base.Exec.Rules.{Keeps}
use typesense_operator.Kube.{
  HttpRoute, ReferenceGrant, Ingress, Deployment, ProxyContainer, ingress_kind,
}
use typesense_operator.Crd.{HttpRouteSpec, IngressSpec}
use typesense_operator.Api.{TypesenseCluster, ObjectKey}
use typesense_operator.Api.Client.{Client, World, find, read, request, delete_object}
use typesense_operator.Api.Client.Stored.{IsStored}
use typesense_operator.Api.Client.Trace.{Sent}
use typesense_operator.Api.Semantic.{Semantic}
use typesense_operator.HttpRoute.{
  is_feature_supported, http_route_key, create_reference_grant, amend_reference_grant,
  update_reference_grant, delete_listed_grants, remove_http_route, amend_http_route,
  keep_http_route, reconcile_http_route,
}
use typesense_operator.HttpRoute.Objects.{
  gateway_api_group, http_route_of, reference_grant_of, get_other_labels, updated_http_route,
  http_route_differs, get_gateway_parent_ref, first_path,
}
use typesense_operator.HttpRoute.Laws.{updated_http_route-labels}
use typesense_operator.HttpRoute.Grants.{grants, Granted, grant_key, keep_http_route-Granted}
use typesense_operator.HttpRoute.Requests.{SparesRoutes, reconcile_http_route-SparesRoutes}
use typesense_operator.Ingress.{create_ingress, amend_deployment, reconcile_ingress}
use typesense_operator.Ingress.Laws.{amend_deployment-again, reconcile_ingress-absent}
use typesense_operator.Ingress.Objects.{reverse_proxy_key}
use typesense_operator.Ingress.Proxy.{
  deployment_of, amend_container, amend_read_only, amended_deployment,
}
use typesense_operator.Ingress.Tls.{tls_name_or_empty, create_ingress_lem}
use typesense_operator.Utils.{copy_into}
use typesense_operator.Utils.Meta.{get_reference_grant_object_meta, get_http_route_object_meta}
use typesense_operator.Controller.Parts.{cluster_parts}
use typesense_operator.Controller.Parts.Blocked.{HasGateway, reconcile_parts-StopsAt}
use typesense_operator.Controller.Pass.{reconcile_parts}
use typesense_operator.Controller.Pass.Stages.{all_parts, nothing, StopsAt}
use typesense_operator.PodMonitor.{is_api_group_deployed}
use typesense_operator.Tests.Sample.{sample_client, cluster, start, lax, lax-IsReflexive}
use typesense_operator.Tests.Store.{Store}
use typesense_operator.Tests.Tables.{tables-IsStored}

abbrev view_grant : ObjectKey → Store → Option ReferenceGrant
view_grant k s = s.objects.grants k

grants-IsStored : IsStored (grants sample_client view_grant)
grants-IsStored =
    tables-IsStored (grants sample_client view_grant) (λ key s. refl) (λ o s k. refl)
      (λ old o s k. refl) (λ key s k. refl) (λ o. refl)

abbrev route_spec : HttpRouteSpec
route_spec = record {
  enabled = false;
  name = codes "api";
  parent_ref = record { name = codes "gw"; namespace = some (codes "infra"); section_name = none };
  hostnames = [];
  path = codes "/";
  path_type = some (codes "PathPrefix");
  labels = [];
  annotations = [];
  reference_grant = some true;
}

abbrev routed : TypesenseCluster
routed = record cluster { http_routes = route_spec ∷ [] }

abbrev route : HttpRoute
route = http_route_of (http_route_key routed route_spec) route_spec routed

granted_run :
    keep_http_route sample_client lax routed route_spec route (start 3)
    ≡ (ok tt, (keep_http_route sample_client lax routed route_spec route (start 3)).1)
unfolding keep_http_route remove_http_route delete_listed_grants amend_http_route
    update_reference_grant amend_reference_grant create_reference_grant reference_grant_of
    get_reference_grant_object_meta http_route_differs get_other_labels first_path first deref find
    read request found text_eq http_route_of copy_into get_http_route_object_meta
    get_gateway_parent_ref ◌>>=◌ on_result pure
granted_run = refl

keep_http_route-Granted_example :
    Granted sample_client view_grant
      (grant_key routed route_spec (codes "infra"))
      true
      (keep_http_route sample_client lax routed route_spec route (start 3)).1.state
keep_http_route-Granted_example =
    keep_http_route-Granted sample_client view_grant grants-IsStored lax routed route_spec route
      true (start 3) (keep_http_route sample_client lax routed route_spec route (start 3)).1
      (codes "infra") refl refl granted_run

-- Comparisons in which labels always differ.
abbrev picky : Semantic
picky = record lax { equal_maps = λ a b. false }

abbrev ok_or : HttpRoute → Result HttpRoute → HttpRoute
ok_or d (ok a) = a
ok_or d (err e) = d

abbrev patched_route : HttpRoute
patched_route = ok_or route (updated_http_route route_spec route routed)

patched_run : updated_http_route route_spec route routed ≡ ok patched_route
unfolding updated_http_route first_path first deref http_route_of copy_into
    get_http_route_object_meta get_gateway_parent_ref
patched_run = refl

updated_http_route-labels_example :
    http_route_differs picky patched_route route_spec routed ≡ ok true
updated_http_route-labels_example =
    updated_http_route-labels sample_client picky routed route_spec route patched_route refl
      patched_run

abbrev open_routes : TypesenseCluster
open_routes = record cluster { http_routes = record route_spec { enabled = true } ∷ [] }

reconcile_http_route-SparesRoutes_example :
    Keeps
      (Sent sample_client (SparesRoutes open_routes))
      (reconcile_http_route sample_client lax open_routes)
reconcile_http_route-SparesRoutes_example =
    reconcile_http_route-SparesRoutes sample_client open_routes lax (refl, tt)

abbrev ingress_spec : IngressSpec
ingress_spec = record {
  referer = none;
  host = codes "search.example.com";
  http_directives = none;
  server_directives = none;
  location_directives = none;
  cluster_issuer = some (codes "letsencrypt");
  ingress_class_name = codes "nginx";
  service_annotations = [];
  annotations = [];
  tls_secret_name = none;
  resources = none;
  image = codes "nginx:alpine";
  read_only_root_filesystem =
      some (record { security_context = none; volumes = []; volume_mounts = [] });
  path = codes "/";
  path_type = none;
}

create_ingress_lem_example :
    ((ig : Ingress)
      → (create_ingress sample_client (reverse_proxy_key cluster) cluster ingress_spec (start 3)).0
        ≡ ok ig
      → ig.tls
        ≡ record {
          hosts = ingress_spec.host ∷ [];
          secret_name = tls_name_or_empty ingress_spec.tls_secret_name;
        }
          ∷ [])
    × ((i : Text)
        → ingress_spec.cluster_issuer ≡ some i
        → ingress_spec.tls_secret_name ≡ none
        → create_ingress sample_client (reverse_proxy_key cluster) cluster ingress_spec (start 3)
          ≡ (err (other (codes "tls secret name is required, skipping ingress creation")), start 3))
create_ingress_lem_example =
    create_ingress_lem sample_client (reverse_proxy_key cluster) cluster ingress_spec (start 3)

abbrev an_ingress : Ingress
an_ingress = record {
  meta = record {
    name = codes "ts-reverse-proxy";
    namespace = codes "search";
    labels = [];
    annotations = [];
  };
  ingress_class_name = none;
  tls = [];
  rules = [];
}

-- A server that has an ingress.
abbrev with_ingress : Client
with_ingress = record sample_client { get_ingress = λ k s. (ok an_ingress, s) }

abbrev unrouted : World with_ingress
unrouted = record { state = (start 3).state; writes = [] }

reconcile_ingress-absent_example :
    let v = (reconcile_ingress with_ingress lax cluster unrouted).1 in
    ((ig : Ingress)
      → ok an_ingress ≡ ok ig
      → v.writes ≡ delete_object ingress_kind ig.meta.namespace ig.meta.name ∷ [])
    × ((e : Error) → ok an_ingress ≡ err e → v.writes ≡ [])
reconcile_ingress-absent_example =
    reconcile_ingress-absent with_ingress lax cluster unrouted (inl refl)

abbrev proxy : ProxyContainer
proxy = record {
  name = codes "ts-reverse-proxy";
  image = codes "nginx:1.0";
  ports = 80 ∷ [];
  resources = [];
  volume_mounts = [];
  security_context = none;
}

abbrev proxies : Deployment
proxies = record (deployment_of (reverse_proxy_key cluster) cluster ingress_spec) {
  containers = proxy ∷ [];
}

amend_deployment-again_example :
    amend_deployment sample_client lax cluster ingress_spec false
      (amended_deployment proxies
        (amend_read_only lax cluster ingress_spec (amend_container lax ingress_spec proxies proxy))
        (codes "2025-01-01T00:00:00Z"))
      (start 3)
    ≡ (ok tt, start 3)
amend_deployment-again_example =
    amend_deployment-again lax lax-IsReflexive cluster ingress_spec sample_client proxies proxy []
      (codes "2025-01-01T00:00:00Z") (start 3) refl

-- An API server with the Gateway API.
abbrev gateway_client : Client
gateway_client = record sample_client { server_groups = λ s. (ok (gateway_api_group ∷ []), s) }

gateway : HasGateway gateway_client
unfolding is_feature_supported is_api_group_deployed read text_eq ◌>>=◌ on_result pure
gateway = record { supported = λ w. refl; deployed = λ w. refl }

abbrev gateway_start : World gateway_client
gateway_start = record { state = (start 3).state; writes = [] }

reconcile_parts-StopsAt_example :
    StopsAt gateway_client
      (cluster_parts gateway_client lax)
      routed
      all_parts
      (nothing gateway_client (cluster_parts gateway_client lax) routed)
      gateway_start
      (reconcile_parts gateway_client (cluster_parts gateway_client lax) routed gateway_start)
reconcile_parts-StopsAt_example =
    reconcile_parts-StopsAt gateway_client lax routed route_spec [] [] gateway refl refl
      (λ s. (_, refl)) gateway_start
