-- ===== src/HttpRoute/Orphans.antt =====
-- `deleteOrphanedHttpRoutes` and `deleteOrphanedReferenceGrants`.
use typesense_operator.Base.{Text, codes, text_eq, Bool, not, List, [], ◌∷◌, any, if◌then◌else◌}
use typesense_operator.Base.Dict.{get_or}
use typesense_operator.Base.Exec.{Result, ok, err, pure, in_context, or_return}
use typesense_operator.Kube.{HttpRoute, ReferenceGrant, http_route_kind, reference_grant_kind}
use typesense_operator.Crd.{HttpRouteSpec}
use typesense_operator.Api.{TypesenseCluster}
use typesense_operator.Api.Client.{Client, M, read, request, delete_object}
use typesense_operator.Utils.Meta.{cluster_app_label, cluster_http_route, get_labels}

-- Whether the specification has a route of this name.
abbrev pub is_asked_for : TypesenseCluster → Text → List HttpRouteSpec → Bool
is_asked_for ts name specs = any (λ spec. text_eq name (cluster_http_route ts spec.name)) specs

-- Whether the label `app` names one of the clusters.
abbrev pub has_cluster : ReferenceGrant → List TypesenseCluster → Bool
has_cluster grant clusters =
    any (λ c. text_eq (get_or [] (codes "app") grant.meta.labels) (cluster_app_label c.name))
      clusters

module _ (C : Client) where
  -- `deleteHttpRoute`
  abbrev pub delete_http_route : HttpRoute → M C (Result (Unit {0}))
  delete_http_route r = request C (delete_object http_route_kind r.meta.namespace r.meta.name)

  -- `deleteReferenceGrant`
  abbrev pub delete_reference_grant : ReferenceGrant → M C (Result (Unit {0}))
  delete_reference_grant g =
      request C (delete_object reference_grant_kind g.meta.namespace g.meta.name)

  -- Lines 255 to 276.
  unfoldable pub delete_routes : TypesenseCluster → List HttpRoute → M C (Result (Unit {0}))
  delete_routes ts [] = pure (ok tt)
  delete_routes ts (route ∷ routes) =
      let rest = delete_routes ts routes in
      if not (is_asked_for ts route.meta.name ts.http_routes)
      then (or_return (delete_http_route route)
          (λ e. pure (err (in_context (codes "deleting http route failed") e))) λ _. rest)
      else rest

  -- `deleteOrphanedHttpRoutes`
  unfoldable pub delete_orphaned_http_routes : TypesenseCluster → M C (Result (Unit {0}))
  delete_orphaned_http_routes ts =
      or_return (read C (C.list_http_routes ts.namespace (get_labels ts)))
        (λ e. pure (err (in_context (codes "failed to list http routes") e)))
        λ routes. delete_routes ts routes

  -- Lines 410 to 429.
  unfoldable pub delete_grants :
      List TypesenseCluster → List ReferenceGrant → M C (Result (Unit {0}))
  delete_grants clusters [] = pure (ok tt)
  delete_grants clusters (grant ∷ grants) =
      let rest = delete_grants clusters grants in
      if not (has_cluster grant clusters)
      then (or_return (delete_reference_grant grant)
          (λ e. pure (err (in_context (codes "deleting reference grant failed") e))) λ _. rest)
      else rest

  -- `deleteOrphanedReferenceGrants`, in all namespaces and for all clusters.
  unfoldable pub delete_orphaned_reference_grants : M C (Result (Unit {0}))
  delete_orphaned_reference_grants =
      or_return
        (read C (
          C.list_reference_grants
            ((codes "app.kubernetes.io/managed-by", codes "typesense-operator") ∷ [])))
        (λ e. pure (err (in_context (codes "failed to list reference grants") e)))
        λ grants.
          or_return (read C C.list_clusters)
            (λ e. pure (err (in_context (codes "failed to list typesense clusters") e)))
            λ clusters. delete_grants clusters grants
