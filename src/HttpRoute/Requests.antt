-- ===== src/HttpRoute/Requests.antt =====
-- Which HTTP routes a pass deletes.
use typesense_operator.Base.{
  ◌≢◌, Text, ◌≡◌, sym, ◌∙◌, Bool, true, false, not, Option, none, some, List, [], ◌∷◌, All, arith,
}
use mathlib.Core.Bool.{true≢false}
use typesense_operator.Base.Strings.Laws.{any-text_eq}
use typesense_operator.Utils.Meta.{cluster_http_route}
use typesense_operator.Base.Exec.{Result}
use typesense_operator.Base.Exec.Rules.{
  Keeps, Keeps-pure, Keeps-if, Keeps-bind, Keeps-on_result, Keeps-attempt, keeps_rules,
}
use typesense_operator.Kube.{
  HttpRoute, ReferenceGrant, Object, http_route_kind, reference_grant_kind,
}
use typesense_operator.Crd.{HttpRouteSpec}
use typesense_operator.Api.{TypesenseCluster}
use typesense_operator.Api.Client.{Client, M, Write, delete_object, find, create_owned}
use typesense_operator.Api.Client.Trace.{Sent, sent_rules, request-Sent}
use typesense_operator.Api.Semantic.{Semantic}
use typesense_operator.HttpRoute.{
  start_http_route, create_reference_grant, update_http_route, amend_reference_grant,
  update_reference_grant, amend_http_route, keep_http_route, sync_http_route, sync_http_routes,
  ensure_http_routes, reconcile_http_route, is_feature_supported,
}
use typesense_operator.HttpRoute.Orphans.{
  is_asked_for, has_cluster, delete_routes, delete_grants, delete_orphaned_http_routes,
  delete_orphaned_reference_grants,
}
use typesense_operator.PodMonitor.{is_api_group_deployed}

-- A route is deleted only if the specification has none of its name.
abbrev pub SparesRoutes : TypesenseCluster → Write → Type 0
SparesRoutes ts (delete_object http_route_kind ns name) =
    All (λ spec. name ≢ cluster_http_route ts spec.name) ts.http_routes
SparesRoutes ts _ = Unit

module _ (C : Client) (ts : TypesenseCluster) where
  abbrev Spares : {A : Type 0} → M C A → Type 0
  Spares m = Keeps (Sent C (SparesRoutes ts)) m

  delete_routes-Spares : (routes : List HttpRoute) → Spares (delete_routes C ts routes)
  unfolding delete_routes
  delete_routes-Spares [] = Keeps-pure _
  delete_routes-Spares (route ∷ routes) =
      let rest = delete_routes-Spares routes in
      let asked = is_asked_for ts route.meta.name ts.http_routes in
      Keeps-if (not asked) _ _
        (λ orphan.
          (let spared : asked ≡ false = ground arith in
            let sent =
              request-Sent C (SparesRoutes ts)
                (delete_object http_route_kind route.meta.namespace route.meta.name)
                ((any-text_eq (λ spec. cluster_http_route ts spec.name) route.meta.name
                    ts.http_routes).0
                  spared) in
            Keeps-bind _ _ sent (λ r. Keeps-on_result r _ _ (λ _. Keeps-pure _) (λ _. rest))))
        (λ _. rest)

  delete_grants-Spares :
      (clusters : List TypesenseCluster) (grants : List ReferenceGrant)
      → Spares (delete_grants C clusters grants)
  unfolding delete_grants
  delete_grants-Spares clusters [] = Keeps-pure _
  delete_grants-Spares clusters (grant ∷ grants) =
      let rest = delete_grants-Spares clusters grants in
      Keeps-if (not (has_cluster grant clusters)) _ _
        (λ _.
          Keeps-bind _ _
            (request-Sent C (SparesRoutes ts)
              (delete_object reference_grant_kind grant.meta.namespace grant.meta.name) tt)
            (λ r. Keeps-on_result r _ _ (λ _. Keeps-pure _) (λ _. rest)))
        (λ _. rest)

  orphans-Spares : Spares (delete_orphaned_http_routes C ts)
  unfolding delete_orphaned_http_routes
  orphans-Spares = search (sent_rules, delete_routes-Spares) depth 8

  orphaned_grants-Spares : Spares (delete_orphaned_reference_grants C)
  unfolding delete_orphaned_reference_grants
  orphaned_grants-Spares = search (sent_rules, delete_grants-Spares) depth 10

  find-Spares : {A : Type 0} (get : C.State → Result A × C.State) → Spares (find C get)
  unfolding find
  find-Spares get = search sent_rules

  create_owned-Spares : (o : Object) → Spares (create_owned C ts o)
  unfolding create_owned
  create_owned-Spares o = Keeps-on_result _ _ _ (λ _. Keeps-pure _) (λ _. request-Sent C _ _ tt)

  grant-Spares : (spec : HttpRouteSpec) → Spares (create_reference_grant C spec ts)
  unfolding create_reference_grant
  grant-Spares spec = Keeps-on_result _ _ _ (λ _. Keeps-pure _) (λ _. request-Sent C _ _ tt)

  start-Spares : (spec : HttpRouteSpec) → Spares (start_http_route C ts spec)
  unfolding start_http_route
  start-Spares spec = search (keeps_rules, create_owned-Spares, grant-Spares) depth 10

  update_http-Spares :
      (spec : HttpRouteSpec) (route : HttpRoute) → Spares (update_http_route C spec route ts)
  unfolding update_http_route
  update_http-Spares spec route =
      Keeps-on_result _ _ _ (λ _. Keeps-pure _) (λ _. request-Sent C _ _ tt)

  amend_grant-Spares :
      (spec : HttpRouteSpec) (asked : Bool) (f : Option ReferenceGrant)
      → Spares (amend_reference_grant C spec ts asked f)
  unfolding amend_reference_grant
  amend_grant-Spares spec true none = grant-Spares spec
  amend_grant-Spares spec true (some g) = Keeps-pure _
  amend_grant-Spares spec false none = Keeps-pure _
  amend_grant-Spares spec false (some g) = request-Sent C _ _ tt

  update_grant-Spares : (spec : HttpRouteSpec) → Spares (update_reference_grant C spec ts)
  unfolding update_reference_grant
  update_grant-Spares spec = search (keeps_rules, find-Spares, amend_grant-Spares) depth 10

  module _ (E : Semantic) where
    amend-Spares :
        (spec : HttpRouteSpec) (route : HttpRoute) → Spares (amend_http_route C E ts spec route)
    unfolding amend_http_route
    amend-Spares spec route = search (keeps_rules, update_http-Spares, update_grant-Spares) depth 10

    keep-Spares :
        (spec : HttpRouteSpec) (route : HttpRoute)
        → spec.enabled ≡ true
        → Spares (keep_http_route C E ts spec route)
    unfolding keep_http_route
    keep-Spares spec route on =
        Keeps-attempt _ _
          (Keeps-if spec.enabled _ _ (λ _. Keeps-pure _)
            (λ off. absurd (true≢false (sym on ∙ off))))
          (λ _. amend-Spares spec route)

    sync-Spares :
        (spec : HttpRouteSpec) (f : Option HttpRoute)
        → spec.enabled ≡ true
        → Spares (sync_http_route C E ts spec f)
    unfolding sync_http_route
    sync-Spares spec (some route) on = keep-Spares spec route on
    sync-Spares spec none on =
        Keeps-if spec.enabled _ _ (λ _. start-Spares spec) (λ _. keep-Spares spec _ on)

    sync_http_routes-Spares :
        (specs : List HttpRouteSpec)
        → All (λ spec. spec.enabled ≡ true) specs
        → Spares (sync_http_routes C E ts specs)
    unfolding sync_http_routes
    sync_http_routes-Spares [] on = Keeps-pure _
    sync_http_routes-Spares (spec ∷ specs) (on, ons) =
        Keeps-attempt _ _ (find-Spares _)
          λ f. Keeps-attempt _ _ (sync-Spares spec f on) λ _. sync_http_routes-Spares specs ons

    ensure-Spares :
        All (λ spec. spec.enabled ≡ true) ts.http_routes → Spares (ensure_http_routes C E ts)
    unfolding ensure_http_routes
    ensure-Spares on =
        Keeps-attempt _ _ orphans-Spares λ _.
          Keeps-attempt _ _ orphaned_grants-Spares λ _. sync_http_routes-Spares ts.http_routes on

    group-Spares : (group : Text) → Spares (is_api_group_deployed C group)
    unfolding is_api_group_deployed
    group-Spares group = search sent_rules depth 8

    feature-Spares : (minimum : Text) → Spares (is_feature_supported C minimum)
    unfolding is_feature_supported
    feature-Spares minimum = search sent_rules depth 10

    -- Where every route of the specification is enabled, a pass deletes no route that the
    -- specification names, whatever the API server answers.
    pub reconcile_http_route-SparesRoutes :
        All (λ spec. spec.enabled ≡ true) ts.http_routes → Spares (reconcile_http_route C E ts)
    unfolding reconcile_http_route
    reconcile_http_route-SparesRoutes on = Keeps-attempt _ _ (feature-Spares _) λ supported.
        Keeps-if (not supported) _ _ (λ _. Keeps-pure _)
          λ _. Keeps-bind _ _ (group-Spares _) λ r.
            Keeps-on_result r _ _ (λ _. Keeps-pure _)
              λ deployed. Keeps-if deployed _ _ (λ _. ensure-Spares on) (λ _. Keeps-pure _)
