-- ===== src/Controller/Parts/Blocked.antt =====
-- What a route that is not enabled does to a whole pass.
use typesense_operator.Base.{codes, Text, ◌≡◌, ◌≢◌, ap, inl, inr, true, false, List, ◌∷◌, ◌++◌}
use typesense_operator.Base.Exec.{ok, err, not_found, pure, ◌>>=◌, on_result}
use typesense_operator.Crd.{HttpRouteSpec}
use typesense_operator.Api.{TypesenseCluster}
use typesense_operator.Api.Client.{Client, World}
use typesense_operator.Api.Semantic.{Semantic}
use typesense_operator.Controller.Parts.{cluster_parts}
use typesense_operator.Controller.Pass.{reconcile_parts}
use typesense_operator.Controller.Pass.Stages.{
  Found, Runs, then_, all_parts, nothing, StopsAt, reconcile_parts-Ends,
}
use typesense_operator.HttpRoute.{http_route_key, is_feature_supported, reconcile_http_route}
use typesense_operator.HttpRoute.Laws.{ensure_http_routes-disabled}
use typesense_operator.HttpRoute.Objects.{gateway_api_group}
use typesense_operator.PodMonitor.{is_api_group_deployed}

-- The API server has the Gateway API.
pub record HasGateway (C : Client) : Type 0 where
  pub supported : (w : World C) → (is_feature_supported C (codes "1.26.0") w).0 ≡ ok true
  pub deployed : (w : World C) → (is_api_group_deployed C gateway_api_group w).0 ≡ ok true

module _ (C : Client) (E : Semantic) (ts : TypesenseCluster) where
  reconcile_http_route-disabled :
      (spec : HttpRouteSpec) (before after : List HttpRouteSpec)
      → HasGateway C
      → ts.http_routes ≡ before ++ (spec ∷ after)
      → spec.enabled ≡ false
      → ((s : C.State)
          → (m : Text) × ((C.get_http_route (http_route_key ts spec) s).0 ≡ err (not_found m)))
      → (w : World C) → (reconcile_http_route C E ts w).0 ≢ ok tt
  unfolding reconcile_http_route ◌>>=◌ on_result pure
  reconcile_http_route-disabled spec before after gateway routes off missing w h =
      let v = (is_feature_supported C (codes "1.26.0") w).1 in
      let u = (is_api_group_deployed C gateway_api_group v).1 in
      ensure_http_routes-disabled C E ts spec before after routes off missing u
        (rw (gateway.supported w, gateway.deployed v) at h)

  Runs-reconcile_http_route :
      (f g : Found C (cluster_parts C E) ts) (w v : World C)
      → Runs C (cluster_parts C E) ts all_parts f w g v
      → (u : World C) × ((reconcile_http_route C E ts u).0 ≡ ok tt)
  unfolding cluster_parts
  Runs-reconcile_http_route f g w v
        (then_ _ (then_ _ (then_ _ (then_ {v = u} _ (then_ (h, _) _))))) =
      (_, ap (λ p. p.0) h)

  -- Where the specification has a route that is not enabled and is not there, and the Gateway API is
  -- deployed, no pass over the cluster completes: one of its parts fails, and the quorum is not
  -- reconciled.
  pub reconcile_parts-StopsAt :
      (spec : HttpRouteSpec) (before after : List HttpRouteSpec)
      → HasGateway C
      → ts.http_routes ≡ before ++ (spec ∷ after)
      → spec.enabled ≡ false
      → ((s : C.State)
          → (m : Text) × ((C.get_http_route (http_route_key ts spec) s).0 ≡ err (not_found m)))
      → (w : World C)
      → StopsAt C
          (cluster_parts C E)
          ts
          all_parts
          (nothing C (cluster_parts C E) ts)
          w
          (reconcile_parts C (cluster_parts C E) ts w)
  reconcile_parts-StopsAt spec before after gateway routes off missing w =
      elim (reconcile_parts-Ends C (cluster_parts C E) ts w) [
        | inr stops ↦ stops
        | inl (g, v, runs, _) ↦
            let (u, h) = Runs-reconcile_http_route _ g w v runs in
            absurd (reconcile_http_route-disabled spec before after gateway routes off missing u h)
      ]
