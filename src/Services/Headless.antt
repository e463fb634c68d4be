-- ===== src/Services/Headless.antt =====
-- The services in the API server, and the headless one after a pass.
use typesense_operator.Base.{
  ℕ, ◌≡◌, refl, ◌≢◌, inl, inr, Bool-cases, Option, none, some, List, [], ◌∷◌, ◌==◌, arith,
}
use typesense_operator.Base.Exec.{ok, pure, first}
use typesense_operator.Base.Exec.Rules.{check-ok}
use typesense_operator.Kube.{Service, ServicePort, service, service_kind}
use typesense_operator.Api.{TypesenseCluster, ObjectKey}
use typesense_operator.Api.Client.{Client, World, request, patch_object}
use typesense_operator.Api.Client.Stored
use typesense_operator.Api.Client.Stored.{Stored, Holds, key_of}
use typesense_operator.Services.{
  headless_key, headless_of, with_first_port, update_headless_service, delete_service,
  ensure_headless,
}

-- The first port, which the code compares and sets.
abbrev pub FirstPortIs : ℕ → List ServicePort → Type 0
FirstPortIs n ports = (p : ServicePort) × (first ports ≡ ok p) × (p.port ≡ n)

pub first-with_first_port :
    (n : ℕ) (ports : List ServicePort) {p : ServicePort}
    → first ports ≡ ok p
    → FirstPortIs n (with_first_port n ports)
unfolding first
first-with_first_port n [] h = absurd (ground arith)
first-with_first_port n (p ∷ ports) h = (record p { port = n }, refl, refl)

module _ (C : Client) (view : ObjectKey → C.State → Option Service) where
  -- The services of the API server: their ports and annotations are read back as they were sent.
  abbrev pub services : Stored C Service
  services = record {
    get = C.get_service;
    wrap = service;
    kind = service_kind;
    meta = λ o. o.meta;
    Agrees = λ a b. (b.ports ≡ a.ports) × (b.meta.annotations ≡ a.meta.annotations);
    view = view;
  }

  abbrev pub HeadlessInSync : TypesenseCluster → Service → Type 0
  HeadlessInSync ts o = FirstPortIs ts.api_port o.ports

  -- After a call there is a service of this kind under the key, and the others are as they were.
  abbrev pub Leaves : (Service → Type 0) → ObjectKey → World C → World C → Type 0
  Leaves P key w v =
      Holds services P key v.state × ((k : ObjectKey) → k ≢ key → view k v.state ≡ view k w.state)

  module _ (I : Stored.IsStored services) where
    pub patch_lem :
        (old new : Service) (w : World C)
        → view (key_of services new) w.state ≡ some old
        → (request C (patch_object (service old) (service new)) w).0 ≡ ok tt
        → Leaves
            (services.Agrees new)
            (key_of services new)
            w
            (request C (patch_object (service old) (service new)) w).1
    patch_lem old new w there =
        Stored.put_lem services I new (patch_object (service old) (service new)) w
          (inr (old, refl, there))

    pub delete_service_lem :
        (o : Service) (w : World C)
        → (delete_service C o w).0 ≡ ok tt
        → (view (key_of services o) (delete_service C o w).1.state ≡ none)
          × ((k : ObjectKey)
              → k ≢ key_of services o
              → view k (delete_service C o w).1.state ≡ view k w.state)
    unfolding delete_service
    delete_service_lem o w r = Stored.delete_lem services I (key_of services o) w r

    update_headless_service_lem :
        (ts : TypesenseCluster) (h : Service) (w : World C)
        → view (key_of services h) w.state ≡ some h
        → (update_headless_service C h ts w).0 ≡ ok tt
        → Leaves (HeadlessInSync ts) (key_of services h) w (update_headless_service C h ts w).1
    unfolding update_headless_service
    update_headless_service_lem ts h w there r =
        let (p, first_is, e) = check-ok (first h.ports) _ w r in
        let new = record h { ports = with_first_port ts.api_port h.ports } in
        let ((o, found, (same, _)), keeps) = patch_lem h new w there (rw e at r) in
        rw e
          ((o, found, rw same (first-with_first_port ts.api_port h.ports {p = p} first_is)), keeps)

    pub ensure_headless_lem :
        (ts : TypesenseCluster) (w : World C) (f : Option Service)
        → view (headless_key ts) w.state ≡ f
        → ((o : Service) → f ≡ some o → key_of services o ≡ headless_key ts)
        → (ensure_headless C ts f w).0 ≡ ok tt
        → Leaves (HeadlessInSync ts) (headless_key ts) w (ensure_headless C ts f w).1
    unfolding ensure_headless headless_of first pure
    ensure_headless_lem ts w none there keyed r =
        let ((o, found, (same, _)), keeps) =
          Stored.create_owned_lem services I ts (headless_of (headless_key ts) ts) w r in
        ((o, found, rw same (_, refl, refl)), keeps)
    ensure_headless_lem ts w (some h) there keyed r =
        let (p, first_is, e) = check-ok (first h.ports) _ w r in
        let k = keyed h refl in
        elim (Bool-cases (ts.api_port == p.port)) [
          | inl same ↦ rw (e, same) ((h, there, (p, first_is, ground arith)), λ _ _. refl)
          | inr differs ↦
              rw (e, differs)
                (rw k at (update_headless_service_lem ts h w (rw k there) (rw (e, differs) at r)))
        ]
