-- ===== src/HttpRoute.antt =====
-- internal/controller/typesensecluster_httproute.go: the routes of the Gateway API and the reference
-- grants in the namespaces of their gateways. `Objects` builds and compares them, `Orphans` deletes
-- those that nothing asks for.
pub mod Objects
pub mod Orphans
pub mod Laws
pub mod Grants
pub mod Requests
use typesense_operator.Base.{
  Text, codes, text_eq, Bool, true, false, not, ◌&&◌, ◌||◌, Option, none, some, List, [], ◌∷◌, any,
  if◌then◌else◌,
}
use typesense_operator.Base.Exec.{
  Result, ok, err, pure, ◌>>=◌, ◌>>◌, on_result, deref, in_context, attempt, check, or_return,
}
use typesense_operator.Kube.{
  HttpRoute, ReferenceGrant, PathMatch, http_route, http_route_kind, reference_grant,
  reference_grant_kind,
}
use typesense_operator.Crd.{HttpRouteSpec}
use typesense_operator.Api.{TypesenseCluster, ObjectKey}
use typesense_operator.Api.Client.{
  Client, M, read, request, find, create_owned, create_object, patch_object, delete_object,
}
use typesense_operator.Api.Semantic.{Semantic}
use typesense_operator.PodMonitor.{is_api_group_deployed}
use typesense_operator.Utils.Meta.{cluster_http_route, cluster_reference_grant}
use Objects.{
  gateway_api_group, no_http_route, http_route_of, reference_grant_of, first_path,
  updated_http_route, http_route_differs,
}
use Orphans.{
  delete_http_route, delete_reference_grant, delete_orphaned_http_routes,
  delete_orphaned_reference_grants,
}

abbrev pub http_route_key : TypesenseCluster → HttpRouteSpec → ObjectKey
http_route_key ts spec = record { namespace = ts.namespace; name = cluster_http_route ts spec.name }

module _ (C : Client) where
  -- `IsFeatureSupported`, without the version for the log.
  unfoldable pub is_feature_supported : Text → M C (Result Bool)
  is_feature_supported minimum = attempt (read C C.server_version) λ git.
      check (C.parse_version git)
        λ ver. check (C.parse_version (b'v' ∷ minimum)) λ req. pure (ok (C.at_least ver req))

  -- `createHttpRoute`
  abbrev pub create_http_route :
      ObjectKey → HttpRouteSpec → TypesenseCluster → M C (Result (Unit {0}))
  create_http_route key spec ts = create_owned C ts (http_route (http_route_of key spec ts))

  -- `createReferenceGrant`
  unfoldable pub create_reference_grant : HttpRouteSpec → TypesenseCluster → M C (Result (Unit {0}))
  create_reference_grant spec ts =
      check (reference_grant_of spec ts) λ grant. request C (create_object (reference_grant grant))

  -- `updateHttpRoute`
  unfoldable pub update_http_route :
      HttpRouteSpec → HttpRoute → TypesenseCluster → M C (Result (Unit {0}))
  update_http_route spec route ts =
      check (updated_http_route spec route ts)
        λ new. request C (patch_object (http_route route) (http_route new))

  -- Lines 451 to 481 of `updateReferenceGrant`, from what was found of the grant.
  unfoldable pub amend_reference_grant :
      HttpRouteSpec → TypesenseCluster → Bool → Option ReferenceGrant → M C (Result (Unit {0}))
  amend_reference_grant spec ts true none = create_reference_grant spec ts
  amend_reference_grant spec ts true (some grant) = pure (ok tt)
  amend_reference_grant spec ts false none = pure (ok tt)
  amend_reference_grant spec ts false (some grant) = delete_reference_grant C grant

  -- `updateReferenceGrant`
  unfoldable pub update_reference_grant : HttpRouteSpec → TypesenseCluster → M C (Result (Unit {0}))
  update_reference_grant spec ts = check (deref spec.parent_ref.namespace) λ ns.
      attempt
        (find C (
          C.get_reference_grant
            (record { namespace = ns; name = cluster_reference_grant ts spec.name })))
        λ grant.
          check (deref spec.reference_grant) λ asked. amend_reference_grant spec ts asked grant

  -- The loop of lines 101 to 108: what fails is only logged.
  unfoldable pub delete_listed_grants : List ReferenceGrant → M C (Unit {0})
  delete_listed_grants [] = pure tt
  delete_listed_grants (g ∷ gs) = delete_reference_grant C g >> delete_listed_grants gs

  -- Lines 87 to 116, for a route that is not enabled.
  unfoldable pub remove_http_route : HttpRoute → M C (Result (Unit {0}))
  remove_http_route route =
      or_return (read C (C.list_reference_grants ((codes "route", route.meta.name) ∷ [])))
        (λ e. pure (err (in_context (codes "failed to list reference grants") e)))
        λ grants.
          delete_listed_grants grants
          >> or_return (delete_http_route C route)
              (λ e. pure (err (in_context (codes "deleting http route failed") e)))
              λ _. pure (ok tt)

  -- Lines 71 to 85.
  unfoldable pub start_http_route : TypesenseCluster → HttpRouteSpec → M C (Result (Unit {0}))
  start_http_route ts spec = attempt (create_http_route (http_route_key ts spec) spec ts) λ _.
      check (deref spec.reference_grant)
        λ asked. if asked then create_reference_grant spec ts else pure (ok tt)

  module _ (E : Semantic) where
    -- Lines 118 to 158, which also run behind the deletion of a route that is not enabled.
    unfoldable pub amend_http_route :
        TypesenseCluster → HttpRouteSpec → HttpRoute → M C (Result (Unit {0}))
    amend_http_route ts spec route = check (http_route_differs E route spec ts) λ differs.
        attempt (if differs then update_http_route spec route ts else pure (ok tt))
          λ _. update_reference_grant spec ts

    -- Lines 86 to 159, for a route that is not created.
    unfoldable pub keep_http_route :
        TypesenseCluster → HttpRouteSpec → HttpRoute → M C (Result (Unit {0}))
    keep_http_route ts spec route =
        attempt (if spec.enabled then pure (ok tt) else remove_http_route route)
          λ _. amend_http_route ts spec route

    -- Lines 70 to 159, from what was found of the route.
    unfoldable pub sync_http_route :
        TypesenseCluster → HttpRouteSpec → Option HttpRoute → M C (Result (Unit {0}))
    sync_http_route ts spec none =
        if spec.enabled then start_http_route ts spec else keep_http_route ts spec no_http_route
    sync_http_route ts spec (some route) = keep_http_route ts spec route

    unfoldable pub sync_http_routes :
        TypesenseCluster → List HttpRouteSpec → M C (Result (Unit {0}))
    sync_http_routes ts [] = pure (ok tt)
    sync_http_routes ts (spec ∷ specs) =
        attempt (find C (C.get_http_route (http_route_key ts spec)))
          λ route. attempt (sync_http_route ts spec route) λ _. sync_http_routes ts specs

    -- Lines 43 to 162.
    unfoldable pub ensure_http_routes : TypesenseCluster → M C (Result (Unit {0}))
    ensure_http_routes ts =
        attempt (delete_orphaned_http_routes C ts)
          λ _. attempt (delete_orphaned_reference_grants C) λ _. sync_http_routes ts ts.http_routes

    -- `ReconcileHttpRoute`
    unfoldable pub reconcile_http_route : TypesenseCluster → M C (Result (Unit {0}))
    reconcile_http_route ts = attempt (is_feature_supported (codes "1.26.0")) λ supported.
        if not supported
        then pure (ok tt)
        else or_return (is_api_group_deployed C gateway_api_group) (λ _. pure (ok tt))
            λ deployed. if deployed then ensure_http_routes ts else pure (ok tt)
