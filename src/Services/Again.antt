-- ===== src/Services/Again.antt =====
-- A second pass over the services.
use typesense_operator.Base.{◌≡◌, refl, sym, ◌∙◌, Option, some, length, le→not_ltb, arith}
use typesense_operator.Base.Exec.{ok, pure, ◌>>=◌, on_result, attempt}
use typesense_operator.Kube.{Service}
use typesense_operator.Api.{TypesenseCluster, ObjectKey}
use typesense_operator.Api.Semantic.{Semantic, IsReflexive}
use typesense_operator.Api.Client.{Client, World, find}
use typesense_operator.Api.Client.Stored
use typesense_operator.Api.Client.Stored.{Stored, Holds, key_of}
use typesense_operator.Services.{
  headless_key, service_key, ensure_headless, amend_service, ensure_service, reconcile_services,
}
use typesense_operator.Services.Headless.{services, HeadlessInSync}
use typesense_operator.Services.Sync.{ServiceInSync, Synced, service_half}

module _ (C : Client) (view : ObjectKey → C.State → Option Service)
    (I : Stored.IsStored (services C view)) (E : Semantic) (reflexive : IsReflexive E) where
  ensure_headless-quiet :
      (ts : TypesenseCluster) (h : Service) (w : World C)
      → HeadlessInSync C view ts h
      → ensure_headless C ts (some h) w ≡ (ok tt, w)
  unfolding ensure_headless on_result pure
  ensure_headless-quiet ts h w (p, first_is, same) = rw first_is (ground arith)

  ensure_service-quiet :
      (ts : TypesenseCluster) (o : Service) (w : World C)
      → ServiceInSync C view I E reflexive ts o
      → ensure_service C E ts (some o) w ≡ (ok tt, w)
  unfolding ensure_service amend_service on_result pure
  ensure_service-quiet ts o w ((p, first_is, same), enough, annotations) =
      rw (le→not_ltb (length o.ports) 2 enough, first_is, annotations) (ground arith)

  -- A pass over services that are as the code wants them sends nothing.
  pub reconcile_services-again :
      (ts : TypesenseCluster) (w : World C)
      → Synced C view I E reflexive ts w
      → (reconcile_services C E ts w).1.writes ≡ w.writes
  unfolding reconcile_services ◌>>=◌ on_result
  reconcile_services-again ts w ((h, there, sync), (o, service_there, service_sync)) =
      Stored.find_then (services C view) I (headless_key ts) w _ λ f is.
        let v = (find C (C.get_service (headless_key ts)) w).1 in
        let unmoved = Stored.find_keeps (services C view) I (headless_key ts) (service_key ts) w in
        let e : attempt (ensure_headless C ts f) (λ _. service_half C view I E reflexive ts) v
            ≡ service_half C view I E reflexive ts v =
          (let k : f ≡ some h = sym is ∙ there in rw (k, ensure_headless-quiet ts h v sync) refl) in
        rw e (
          Stored.find_then (services C view) I (service_key ts) v _ λ g now.
            let x = (find C (C.get_service (service_key ts)) v).1 in
            let q : some o ≡ g = sym service_there ∙ (sym unmoved.0 ∙ now) in
            rw (sym q, ensure_service-quiet ts o x service_sync) refl)
