-- ===== src/Services/Sync.antt =====
-- What a pass over the services leaves in the API server.
use typesense_operator.Base.{
  codes, ℕ, ◌≤◌, ◌≡◌, refl, sym, ap, ◌∙◌, ◌≢◌, inl, inr, Bool-cases, true, not, ◌||◌, Option, none,
  some, List, ◌∷◌, length, ◌==◌, le→not_ltb, lt→ltb, ◌<◌, ◌⊎◌, arith,
}
use mathlib.Core.List.{append_cancel_left}
use typesense_operator.Base.Exec.{Result, ok, pure, on_result, first, attempt}
use typesense_operator.Base.Exec.Rules.{attempt-ok, check-ok}
use typesense_operator.Kube.{Service, ServicePort}
use typesense_operator.Api.{TypesenseCluster, ObjectKey}
use typesense_operator.Api.Semantic.{Semantic, IsReflexive}
use typesense_operator.Api.Client.{Client, World, M, find}
use typesense_operator.Api.Client.Stored
use typesense_operator.Api.Client.Stored.{Stored, Holds, key_of}
use typesense_operator.Services.{
  headless_key, service_key, service_of, with_first_port, update_service, delete_service,
  create_service, ensure_headless, amend_service, ensure_service, reconcile_services,
}
use typesense_operator.Services.Headless.{
  services, FirstPortIs, first-with_first_port, HeadlessInSync, Leaves, patch_lem,
  delete_service_lem, ensure_headless_lem,
}

-- The second port is the one for the health checks.
abbrev pub HasHealthPort : List ServicePort → Type 0
HasHealthPort ports =
    (p : ServicePort) × (others : List ServicePort) × (ports
      ≡ p ∷ record { name = codes "healthcheck"; port = 8808; target_port = 8808 } ∷ others)

HasHealthPort-with_first_port :
    (n : ℕ) (ports : List ServicePort)
    → HasHealthPort ports
    → HasHealthPort (with_first_port n ports)
HasHealthPort-with_first_port n ports (p, others, e) =
    (record p { port = n }, others, ap (with_first_port n) e)

HasHealthPort-length : (ports : List ServicePort) → HasHealthPort ports → 2 ≤ length ports
HasHealthPort-length ports (p, others, e) = rw e (omega arith)

-- The two services have different names.
headless_ne : (ts : TypesenseCluster) → headless_key ts ≢ service_key ts
headless_ne ts p =
    let names = append_cancel_left ts.name (codes "-sts-svc") (codes "-svc") (ap (λ k. k.name) p) in
    cc

module _ (C : Client) (view : ObjectKey → C.State → Option Service)
    (I : Stored.IsStored (services C view)) (E : Semantic) (reflexive : IsReflexive E) where
  abbrev pub ServiceInSync : TypesenseCluster → Service → Type 0
  ServiceInSync ts o =
      FirstPortIs ts.api_port o.ports
      × (2 ≤ length o.ports)
      × (E.equal_maps o.meta.annotations ts.service_annotations ≡ true)

  -- The service is in sync, and its second port is the one for the health checks.
  abbrev ServedBy : TypesenseCluster → Service → Type 0
  ServedBy ts o = ServiceInSync ts o × HasHealthPort o.ports

  update_service_lem :
      (ts : TypesenseCluster) (o : Service) (w : World C)
      → view (key_of (services C view) o) w.state ≡ some o
      → HasHealthPort o.ports
      → (update_service C o ts w).0 ≡ ok tt
      → Leaves C view (ServedBy ts) (key_of (services C view) o) w (update_service C o ts w).1
  unfolding update_service
  update_service_lem ts o w there enough r =
      let (p, first_is, e) = check-ok (first o.ports) _ w r in
      let new = record o {
        meta = record o.meta { annotations = ts.service_annotations };
        ports = with_first_port ts.api_port o.ports;
      } in
      let ((q, found, (same, annotations)), keeps) = patch_lem C view I o new w there (rw e at r) in
      let health : HasHealthPort q.ports =
        rw same (HasHealthPort-with_first_port ts.api_port o.ports enough) in
      let sync : ServedBy ts q = (
        (
          rw same (first-with_first_port ts.api_port o.ports {p = p} first_is),
          HasHealthPort-length q.ports health,
          rw annotations (reflexive.maps ts.service_annotations),
        ),
        health,
      ) in
      rw e ((q, found, sync), keeps)

  amend_service_lem :
      (ts : TypesenseCluster) (o : Service) (w : World C)
      → view (service_key ts) w.state ≡ some o
      → key_of (services C view) o ≡ service_key ts
      → HasHealthPort o.ports
      → (amend_service C E ts o w).0 ≡ ok tt
      → Leaves C view (ServedBy ts) (service_key ts) w (amend_service C E ts o w).1
  unfolding amend_service pure
  amend_service_lem ts o w there k enough r =
      let (p, first_is, e) = check-ok (first o.ports) _ w r in
      let differ =
        not (ts.api_port == p.port)
        || not (E.equal_maps o.meta.annotations ts.service_annotations) in
      elim (Bool-cases differ) [
        | inl differs ↦
            rw (e, differs)
              (rw k at (update_service_lem ts o w (rw k there) enough (rw (e, differs) at r)))
        | inr same ↦
            rw (e, same)
              (let sync : ServiceInSync ts o = (
                (p, first_is, ground arith),
                HasHealthPort-length o.ports enough,
                ground arith,
              ) in
                ((o, there, (sync, enough)), λ _ _. refl))
      ]

  create_service_lem :
      (ts : TypesenseCluster) (w : World C)
      → (create_service C (service_key ts) ts w).0 ≡ ok tt
      → Leaves C view (ServedBy ts) (service_key ts) w (create_service C (service_key ts) ts w).1
  unfolding service_of first
  create_service_lem ts w r =
      let ((o, found, (same, annotations)), keeps) =
        Stored.create_owned_lem (services C view) I ts (service_of (service_key ts) ts) w r in
      let health : HasHealthPort o.ports = (_, _, same) in
      let sync : ServiceInSync ts o = (
        rw same (_, refl, refl),
        HasHealthPort-length o.ports health,
        rw annotations (reflexive.maps ts.service_annotations),
      ) in
      ((o, found, (sync, health)), keeps)

  -- A service of fewer than two ports whose port and annotations are those of the specification.
  abbrev IsOutdated : TypesenseCluster → Service → Type 0
  IsOutdated ts o =
      (length o.ports < 2)
      × FirstPortIs ts.api_port o.ports
      × (E.equal_maps o.meta.annotations ts.service_annotations ≡ true)

  -- What a service that was there must be.
  abbrev pub MayStay : TypesenseCluster → Service → Type 0
  MayStay ts o = HasHealthPort o.ports ⊎ IsOutdated ts o

  amend_service-quiet :
      (ts : TypesenseCluster) (o : Service) (w : World C)
      → FirstPortIs ts.api_port o.ports
      → E.equal_maps o.meta.annotations ts.service_annotations ≡ true
      → amend_service C E ts o w ≡ (ok tt, w)
  unfolding amend_service on_result pure
  amend_service-quiet ts o w (p, first_is, same) annotations =
      rw (first_is, annotations) (ground arith)

  -- An outdated service is deleted and created again.
  renew_service_lem :
      (ts : TypesenseCluster) (w : World C) (o : Service)
      → key_of (services C view) o ≡ service_key ts
      → IsOutdated ts o
      → (ensure_service C E ts (some o) w).0 ≡ ok tt
      → Leaves C view (ServedBy ts) (service_key ts) w (ensure_service C E ts (some o) w).1
  unfolding ensure_service
  renew_service_lem ts w o keyed (short, port, annotations) r =
      let few = lt→ltb (length o.ports) 2 short in
      let create = create_service C (service_key ts) ts in
      let r0 = rw few at r in
      let (_, gone, e) = attempt-ok (delete_service C o) _ w r0 in
      let v = (delete_service C o w).1 in
      let (_, made, e1) = attempt-ok create (λ _. amend_service C E ts o) v (rw e at r0) in
      let u = (create v).1 in
      let (held, keeps) = create_service_lem ts v made in
      let (_, kept) = delete_service_lem C view I o w gone in
      rw (few, e, e1, amend_service-quiet ts o u port annotations)
        (held, λ k ne. keeps k ne ∙ kept k (rw keyed ne))

  ensure_service_lem :
      (ts : TypesenseCluster) (w : World C) (f : Option Service)
      → view (service_key ts) w.state ≡ f
      → ((o : Service) → f ≡ some o → key_of (services C view) o ≡ service_key ts)
      → ((o : Service) → f ≡ some o → MayStay ts o)
      → (ensure_service C E ts f w).0 ≡ ok tt
      → Leaves C view (ServedBy ts) (service_key ts) w (ensure_service C E ts f w).1
  unfolding ensure_service
  ensure_service_lem ts w none there keyed stays r = create_service_lem ts w r
  ensure_service_lem ts w (some o) there keyed stays r = elim (stays o refl) [
    | inl enough ↦
        let e = le→not_ltb (length o.ports) 2 (HasHealthPort-length o.ports enough) in
        rw e (amend_service_lem ts o w there (keyed o refl) enough (rw e at r))
    | inr outdated ↦ renew_service_lem ts w o (keyed o refl) outdated r
  ]

  -- Both services of a cluster are as the code wants them.
  abbrev pub Synced : TypesenseCluster → World C → Type 0
  Synced ts w =
      Holds (services C view) (HeadlessInSync C view ts) (headless_key ts) w.state
      × Holds (services C view) (ServiceInSync ts) (service_key ts) w.state

  -- The same, and the second port of the service in front of the nodes is the one for the
  -- health checks.
  abbrev pub Served : TypesenseCluster → World C → Type 0
  Served ts w =
      Holds (services C view) (HeadlessInSync C view ts) (headless_key ts) w.state
      × Holds (services C view) (ServedBy ts) (service_key ts) w.state

  pub Served-Synced : (ts : TypesenseCluster) (w : World C) → Served ts w → Synced ts w
  Served-Synced ts w (headless, (o, there, sync)) = (headless, (o, there, sync.0))

  -- Lines 53 to 99.
  abbrev pub service_half : TypesenseCluster → M C (Result (Unit {0}))
  service_half ts = attempt (find C (C.get_service (service_key ts))) (ensure_service C E ts)

  -- A service that stands under the key has the port for the health checks, or is one of fewer
  -- than two ports with the API port and the annotations of the specification.
  abbrev pub HasPorts : TypesenseCluster → World C → Type 0
  HasPorts ts w = (o : Service) → view (service_key ts) w.state ≡ some o → MayStay ts o

  service_half-Served :
      (ts : TypesenseCluster) (u : World C)
      → Holds (services C view) (HeadlessInSync C view ts) (headless_key ts) u.state
      → HasPorts ts u
      → (service_half ts u).0 ≡ ok tt
      → Served ts (service_half ts u).1
  service_half-Served ts u (h, there, sync) enough r =
      let (g, got, e) = attempt-ok (find C (C.get_service (service_key ts))) _ u r in
      let x = (find C (C.get_service (service_key ts)) u).1 in
      let (is, keyed) = Stored.find_lem (services C view) I (service_key ts) u {f = g} got in
      let kept = Stored.find_keeps (services C view) I (service_key ts) (service_key ts) u in
      let headless_kept =
        Stored.find_keeps (services C view) I (service_key ts) (headless_key ts) u in
      let (held, keeps) =
        ensure_service_lem ts x g (kept.0 ∙ is) keyed (λ o p. enough o (is ∙ p)) (rw e at r) in
      rw e ((h, keeps (headless_key ts) (headless_ne ts) ∙ headless_kept.0 ∙ there, sync), held)

  -- After a pass over the services that succeeds, the headless service listens on the API port
  -- of the specification; so does the other service, its second port is the one for the health
  -- checks, and its annotations are those of the specification. A headless service that was
  -- there is arbitrary. The other one, if it was there, must have had the port for the health
  -- checks as its second one, or fewer than two ports with the API port and the annotations of
  -- the specification: this one is deleted and created again.
  pub reconcile_services-Synced :
      (ts : TypesenseCluster) (w : World C)
      → HasPorts ts w
      → (reconcile_services C E ts w).0 ≡ ok tt
      → Served ts (reconcile_services C E ts w).1
  unfolding reconcile_services
  reconcile_services-Synced ts w enough r =
      let (f, found_headless, e) = attempt-ok (find C (C.get_service (headless_key ts))) _ w r in
      let v = (find C (C.get_service (headless_key ts)) w).1 in
      let (_, done, e1) = attempt-ok (ensure_headless C ts f) _ v (rw e at r) in
      let u = (ensure_headless C ts f v).1 in
      let (is, keyed) =
        Stored.find_lem (services C view) I (headless_key ts) w {f = f} found_headless in
      let kept = Stored.find_keeps (services C view) I (headless_key ts) (headless_key ts) w in
      let service_kept =
        Stored.find_keeps (services C view) I (headless_key ts) (service_key ts) w in
      let (held, keeps) = ensure_headless_lem C view I ts v f (kept.0 ∙ is) keyed done in
      let unmoved : view (service_key ts) u.state ≡ view (service_key ts) w.state =
        keeps (service_key ts) (λ p. headless_ne ts (sym p)) ∙ service_kept.0 in
      rw (e, e1)
        (service_half-Served ts u held (λ o p. enough o (sym unmoved ∙ p)) (rw (e, e1) at r))
