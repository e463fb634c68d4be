-- ===== src/HttpRoute/Grants.antt =====
-- The reference grant that a route leaves in the namespace of its gateway.
use typesense_operator.Base.{
  Text, ◌≡◌, refl, sym, ap, ◌∙◌, Bool, true, false, Option, none, some, arith, if◌then◌else◌,
}
use typesense_operator.Base.Exec.{ok, pure, deref, deref_lem}
use typesense_operator.Base.Exec.Rules.{attempt-ok, check-ok}
use typesense_operator.Kube.{HttpRoute, ReferenceGrant, reference_grant, reference_grant_kind}
use typesense_operator.Crd.{HttpRouteSpec}
use typesense_operator.Api.{TypesenseCluster, ObjectKey}
use typesense_operator.Api.Client.{Client, World, find, request, create_object}
use typesense_operator.Api.Client.Stored
use typesense_operator.Api.Client.Stored.{Stored, Holds, key_of}
use typesense_operator.Api.Semantic.{Semantic}
use typesense_operator.HttpRoute.{
  create_reference_grant, amend_reference_grant, update_reference_grant, update_http_route,
  remove_http_route, amend_http_route, keep_http_route,
}
use typesense_operator.HttpRoute.Objects.{http_route_differs, reference_grant_of}
use typesense_operator.Utils.Meta.{cluster_reference_grant}
use mathlib.Core.Logic.{inl}
use mathlib.Core.Path.{subst}

-- The key of a route's reference grant, in a namespace.
abbrev pub grant_key : TypesenseCluster → HttpRouteSpec → Text → ObjectKey
grant_key ts spec ns = record { namespace = ns; name = cluster_reference_grant ts spec.name }

module _ (C : Client) (view : ObjectKey → C.State → Option ReferenceGrant) where
  -- The reference grants of the API server: their targets are read back as they were sent.
  abbrev pub grants : Stored C ReferenceGrant
  grants = record {
    get = C.get_reference_grant;
    wrap = reference_grant;
    kind = reference_grant_kind;
    meta = λ o. o.meta;
    Agrees = λ a b. b.targets ≡ a.targets;
    view = view;
  }

  -- There is a grant exactly if one is asked for.
  abbrev pub Granted : ObjectKey → Bool → C.State → Type 0
  Granted key true s = (o : ReferenceGrant) × (view key s ≡ some o)
  Granted key false s = view key s ≡ none

  grant_named :
      (ts : TypesenseCluster) (spec : HttpRouteSpec) (ns : Text) (g : ReferenceGrant)
      → spec.parent_ref.namespace ≡ some ns
      → reference_grant_of spec ts ≡ ok g
      → key_of grants g ≡ grant_key ts spec ns
  unfolding reference_grant_of deref
  grant_named ts spec ns g named made = ground arith

  module _ (I : Stored.IsStored grants) where
    create_reference_grant-Granted :
        (ts : TypesenseCluster) (spec : HttpRouteSpec) (w v : World C) (ns : Text)
        → spec.parent_ref.namespace ≡ some ns
        → create_reference_grant C spec ts w ≡ (ok tt, v)
        → Granted (grant_key ts spec ns) true v.state
    unfolding create_reference_grant
    create_reference_grant-Granted ts spec w v ns named r =
        let (g, made, e) = check-ok (reference_grant_of spec ts) _ w (ap (λ p. p.0) r) in
        let sent = create_object (reference_grant g) in
        let r' : request C sent w ≡ (ok tt, v) = sym e ∙ r in
        let ((o, there, _), _) = Stored.put_lem grants I g sent w (inl refl) (ap (λ p. p.0) r') in
        let key = grant_named ts spec ns g named made in
        (o, ap (λ p. view (grant_key ts spec ns) p.1.state) (sym r') ∙ (rw key at there))

    amend_reference_grant-Granted :
        (ts : TypesenseCluster) (spec : HttpRouteSpec) (asked : Bool) (f : Option ReferenceGrant)
        (w v : World C) (ns : Text)
        → spec.parent_ref.namespace ≡ some ns
        → view (grant_key ts spec ns) w.state ≡ f
        → ((o : ReferenceGrant) → f ≡ some o → key_of grants o ≡ grant_key ts spec ns)
        → amend_reference_grant C spec ts asked f w ≡ (ok tt, v)
        → Granted (grant_key ts spec ns) asked v.state
    unfolding amend_reference_grant pure
    amend_reference_grant-Granted ts spec true none w v ns named there keyed r =
        create_reference_grant-Granted ts spec w v ns named r
    amend_reference_grant-Granted ts spec true (some g) w v ns named there keyed r =
        (g, ap (λ p. view (grant_key ts spec ns) p.1.state) (sym r) ∙ there)
    amend_reference_grant-Granted ts spec false none w v ns named there keyed r =
        ap (λ p. view (grant_key ts spec ns) p.1.state) (sym r) ∙ there
    amend_reference_grant-Granted ts spec false (some g) w v ns named there keyed r =
        let key = key_of grants g in
        let gone = (Stored.delete_lem grants I key w (ap (λ p. p.0) r)).0 in
        rw (keyed g refl) at (ap (λ p. view key p.1.state) (sym r) ∙ gone)

    update_reference_grant-Granted :
        (ts : TypesenseCluster) (spec : HttpRouteSpec) (asked : Bool) (w v : World C) (ns : Text)
        → spec.parent_ref.namespace ≡ some ns
        → spec.reference_grant ≡ some asked
        → update_reference_grant C spec ts w ≡ (ok tt, v)
        → Granted (grant_key ts spec ns) asked v.state
    unfolding update_reference_grant
    update_reference_grant-Granted ts spec asked w v ns named wants r =
        let (n, is_n, e) = check-ok (deref spec.parent_ref.namespace) _ w (ap (λ p. p.0) r) in
        let key = grant_key ts spec n in
        let (f, got, e1) =
          attempt-ok (find C (C.get_reference_grant key)) _ w (ap (λ p. p.0) (sym e ∙ r)) in
        let x = (find C (C.get_reference_grant key) w).1 in
        let (a, is_a, e2) =
          check-ok (deref spec.reference_grant) _ x (ap (λ p. p.0) (sym e1 ∙ (sym e ∙ r))) in
        let (is, keyed) = Stored.find_lem grants I key w {f = f} got in
        let asked_is : a ≡ asked = ground (arith, deref_lem spec.reference_grant {a = a} is_a) in
        let ns_is : n ≡ ns = ground (arith, deref_lem spec.parent_ref.namespace {a = n} is_n) in
        let held =
          amend_reference_grant-Granted ts spec a f x v n (deref_lem _ is_n)
            ((Stored.find_keeps grants I key key w).0 ∙ is) keyed
            (sym e2 ∙ (sym e1 ∙ (sym e ∙ r))) in
        subst (λ b. Granted (grant_key ts spec ns) b v.state) asked_is
          (subst (λ m. Granted (grant_key ts spec m) a v.state) ns_is held)

    -- A call on a route that was there, or that is not enabled, leaves a reference grant if it
    -- succeeds and the route's specification asks for one, and none if it does not ask: also where
    -- the route is not enabled and was just deleted together with its grants.
    pub keep_http_route-Granted :
        (E : Semantic) (ts : TypesenseCluster) (spec : HttpRouteSpec) (route : HttpRoute)
        (asked : Bool) (w v : World C) (ns : Text)
        → spec.parent_ref.namespace ≡ some ns
        → spec.reference_grant ≡ some asked
        → keep_http_route C E ts spec route w ≡ (ok tt, v)
        → Granted (grant_key ts spec ns) asked v.state
    unfolding keep_http_route amend_http_route
    keep_http_route-Granted E ts spec route asked w v ns named wants r =
        let first_step = if spec.enabled then pure (ok tt) else remove_http_route C route in
        let (_, _, e) = attempt-ok first_step _ w (ap (λ p. p.0) r) in
        let x = (first_step w).1 in
        let r1 = sym e ∙ r in
        let (d, _, e1) = check-ok (http_route_differs E route spec ts) _ x (ap (λ p. p.0) r1) in
        let r2 = sym e1 ∙ r1 in
        let second_step = if d then update_http_route C spec route ts else pure (ok tt) in
        let (_, _, e2) = attempt-ok second_step _ x (ap (λ p. p.0) r2) in
        update_reference_grant-Granted ts spec asked (second_step x).1 v ns named wants
          (sym e2 ∙ r2)
