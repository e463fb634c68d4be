-- ===== src/HttpRoute/Laws.antt =====
-- What a pass over the HTTP routes does with routes that are not enabled, with changed labels and
-- with reference grants.
use typesense_operator.Base.{
  Text, ◌≡◌, sym, ap, ◌∙◌, ◌≢◌, true, false, Option, none, List, [], ◌∷◌, ◌++◌, arith, if-false,
  if◌then◌else◌,
}
use typesense_operator.Base.Exec.{Result, ok, err, not_found, pure, ◌>>=◌, on_result, found}
use typesense_operator.Base.Exec.Rules.{attempt-ok}
use typesense_operator.Kube.{HttpRoute}
use typesense_operator.Crd.{HttpRouteSpec}
use typesense_operator.Api.{TypesenseCluster}
use typesense_operator.Api.Client.{Client, World, M, find, read}
use typesense_operator.Api.Semantic.{Semantic}
use typesense_operator.HttpRoute.{
  http_route_key, remove_http_route, amend_http_route, keep_http_route, sync_http_route,
  sync_http_routes, ensure_http_routes,
}
use typesense_operator.HttpRoute.Objects.{
  no_http_route, first_path, get_other_labels, updated_http_route, http_route_differs,
}
use typesense_operator.HttpRoute.Orphans.{
  delete_orphaned_http_routes, delete_orphaned_reference_grants,
}
use mathlib.Core.Path.{subst}

module _ (C : Client) (E : Semantic) where
  found_none :
      {A : Type 0} (get : C.State → Result A × C.State) (w : World C) {m : Text}
      → (get w.state).0 ≡ err (not_found m)
      → {f : Option A} → (find C get w).0 ≡ ok f
      → f ≡ none
  unfolding find read ◌>>=◌ pure found
  found_none get w missing got = ground arith

  -- The comparison of the empty route panics.
  keep_nothing :
      (ts : TypesenseCluster) (spec : HttpRouteSpec) (w : World C)
      → (keep_http_route C E ts spec no_http_route w).0 ≢ ok tt
  unfolding keep_http_route amend_http_route http_route_differs on_result pure
  keep_nothing ts spec w h =
      let (_, _, e) =
        attempt-ok (if spec.enabled then pure (ok tt) else remove_http_route C no_http_route) _ w
          h in
      absurd (ground (arith, rw e at h))

  sync_http_routes-disabled :
      (ts : TypesenseCluster) (spec : HttpRouteSpec) (before after : List HttpRouteSpec)
      → spec.enabled ≡ false
      → ((s : C.State)
          → (m : Text) × ((C.get_http_route (http_route_key ts spec) s).0 ≡ err (not_found m)))
      → (w : World C) → (sync_http_routes C E ts (before ++ (spec ∷ after)) w).0 ≢ ok tt
  unfolding sync_http_routes sync_http_route
  sync_http_routes-disabled ts spec [] after off missing w h =
      let key = http_route_key ts spec in
      let (f, got, e) = attempt-ok (find C (C.get_http_route key)) _ w h in
      let (_, done, _) = attempt-ok (sync_http_route C E ts spec f) _ _ (rw e at h) in
      let none_yet : (sync_http_route C E ts spec none _).0 ≡ ok tt = rw (gone f got) at done in
      keep_nothing ts spec _ (
        ap (λ (m : M C (Result (Unit {0}))). (m (find C (C.get_http_route key) w).1).0)
          (sym (if-false spec.enabled _ _ off))
        ∙ none_yet)
    where
      gone :
          (f : Option HttpRoute)
          → (find C (C.get_http_route (http_route_key ts spec)) w).0 ≡ ok f
          → f ≡ none
      gone f got =
          let (m, absent) = missing w.state in
          found_none (C.get_http_route (http_route_key ts spec)) w {m = m} absent {f = f} got
  sync_http_routes-disabled ts spec (other ∷ before) after off missing w h =
      let (f, got, e) = attempt-ok (find C (C.get_http_route (http_route_key ts other))) _ w h in
      let (_, _, e1) = attempt-ok (sync_http_route C E ts other f) _ _ (rw e at h) in
      sync_http_routes-disabled ts spec before after off missing _ (rw e1 at (rw e at h))

  -- A route that is not enabled and is not there makes every pass over the routes fail.
  pub ensure_http_routes-disabled :
      (ts : TypesenseCluster) (spec : HttpRouteSpec) (before after : List HttpRouteSpec)
      → ts.http_routes ≡ before ++ (spec ∷ after)
      → spec.enabled ≡ false
      → ((s : C.State)
          → (m : Text) × ((C.get_http_route (http_route_key ts spec) s).0 ≡ err (not_found m)))
      → (w : World C) → (ensure_http_routes C E ts w).0 ≢ ok tt
  unfolding ensure_http_routes
  ensure_http_routes-disabled ts spec before after routes off missing w h =
      let (_, _, e) = attempt-ok (delete_orphaned_http_routes C ts) _ w h in
      let v = (delete_orphaned_http_routes C ts w).1 in
      let (_, _, e1) = attempt-ok (delete_orphaned_reference_grants C) _ v (rw e at h) in
      let u = (delete_orphaned_reference_grants C v).1 in
      sync_http_routes-disabled ts spec before after off missing u
        (subst (λ l. (sync_http_routes C E ts l u).0 ≡ ok tt) routes (rw e1 at (rw e at h)))

  -- An update of a route leaves its labels alone: where they are not those of the specification,
  -- the updated route differs again.
  pub updated_http_route-labels :
      (ts : TypesenseCluster) (spec : HttpRouteSpec) (route new : HttpRoute)
      → E.equal_maps spec.labels (get_other_labels route spec ts) ≡ false
      → updated_http_route spec route ts ≡ ok new
      → http_route_differs E new spec ts ≡ ok true
  unfolding updated_http_route http_route_differs get_other_labels first_path
  updated_http_route-labels ts spec route new differs h = ground (arith)
