-- ===== src/Ingress/Laws.antt =====
-- What a pass over the ingress does where there is none to have, and what it leaves alone afterwards.
use typesense_operator.Base.{
  Text, ◌≡◌, refl, ◌⊎◌, inl, inr, Bool, Bool-cases, true, false, not, Option, none, some, List, [],
  ◌∷◌, arith, if-true, if◌then◌else◌,
}
use typesense_operator.Base.Exec.{
  Error, Result, found, ok, err, not_found, other, panic, pure, ◌>>=◌, on_result, first,
}
use typesense_operator.Kube.{Ingress, Deployment, ProxyContainer, Volume, VolumeMount, ingress_kind}
use typesense_operator.Crd.{IngressSpec, ReadOnlyRootFilesystemSpec}
use typesense_operator.Api.{TypesenseCluster}
use typesense_operator.Api.Client.{Client, World, M, find, read, request, delete_object}
use typesense_operator.Api.Semantic.{Semantic, IsReflexive}
use typesense_operator.Ingress.{amend_deployment, choose_ingress, reconcile_ingress}
use typesense_operator.Ingress.Objects.{reverse_proxy_key}
use typesense_operator.Ingress.Proxy.{
  needs_sync_volumes, needs_sync_mounts, amend_file_system, Amended, amend_container,
  amend_read_only, amended_deployment, without_modes, normalize_volumes, normalize_volume_mounts,
  proxy_volumes, proxy_mounts, read_only_context, get_reverse_proxy_resources,
}

without_modes_twice : (vs : List Volume) → without_modes (without_modes vs) ≡ without_modes vs
without_modes_twice [] = refl
without_modes_twice (v ∷ vs) = ground (arith, without_modes_twice vs)

module _ (E : Semantic) (R : IsReflexive E) (ts : TypesenseCluster) (spec : IngressSpec) where
  -- The resources and the image are those of the specification.
  abbrev HasImage : ProxyContainer → Type 0
  HasImage c =
      (E.equal_values (get_reverse_proxy_resources spec) c.resources ≡ true)
      × (E.equal_values spec.image c.image ≡ true)

  amend_container-HasImage :
      (d : Deployment) (c : ProxyContainer) → HasImage (amend_container E spec d c).container
  unfolding amend_container
  amend_container-HasImage d c =
      ground (arith, R.values (get_reverse_proxy_resources spec), R.values spec.image)

  amend_container-quiet :
      (d : Deployment) (c : ProxyContainer)
      → HasImage c
      → amend_container E spec d c ≡ record { container = c; volumes = d.volumes; changed = false }
  unfolding amend_container
  amend_container-quiet d c (resources, image) = rw (resources, image) refl

  -- A value that was replaced if it differs compares equal afterwards.
  replaced {ℓ} :
      {A : Type ℓ} (equal : A → A → Bool) (x c : A)
      → equal x x ≡ true
      → equal x (if not (equal x c) then x else c) ≡ true
  replaced equal x c h = elim (Bool-cases (equal x c)) [
    | inl same ↦ rw same same
    | inr differs ↦ rw differs h
  ]

  replaced_volumes :
      (desired existing : List Volume)
      → needs_sync_volumes E desired
          (without_modes (if needs_sync_volumes E desired existing then desired else existing))
        ≡ false
  replaced_volumes desired existing =
      elim (Bool-cases (E.equal_volumes (normalize_volumes desired) (normalize_volumes existing))) [
        | inl same ↦ rw (same, without_modes_twice) (rw same)
        | inr differs ↦
            rw (differs, without_modes_twice) (rw (R.volumes (normalize_volumes desired)))
      ]

  replaced_mounts :
      (desired existing : List VolumeMount)
      → needs_sync_mounts E desired
          (if needs_sync_mounts E desired existing then desired else existing)
        ≡ false
  replaced_mounts desired existing =
      elim (Bool-cases
        (E.equal_mounts (normalize_volume_mounts desired) (normalize_volume_mounts existing))) [
          | inl same ↦ rw same (rw same)
          | inr differs ↦ rw differs (rw (R.mounts (normalize_volume_mounts desired)))
        ]

  -- Security context, volumes and mounts are left alone by a second call.
  amend_file_system-again :
      (r : Option ReadOnlyRootFilesystemSpec) (a : Amended)
      → let b = amend_file_system E ts spec r a in
        (amend_file_system E ts spec r (record b { changed = false })).changed ≡ false
  unfolding amend_file_system
  amend_file_system-again none a = ground arith
  amend_file_system-again (some r) a =
      rw
        (
          replaced E.equal_pointers (some (read_only_context r)) a.container.security_context
              (R.pointers _),
          replaced_volumes (proxy_volumes ts spec) a.volumes,
          replaced_mounts (proxy_mounts spec) a.container.volume_mounts,
        )
        refl

  amend_file_system-HasImage :
      (r : Option ReadOnlyRootFilesystemSpec) (a : Amended)
      → HasImage a.container
      → HasImage (amend_file_system E ts spec r a).container
  unfolding amend_file_system
  amend_file_system-HasImage none a h = ground arith
  amend_file_system-HasImage (some r) a h = h

  -- The deployment as it is amended for a first container.
  abbrev amended : Deployment → ProxyContainer → Amended
  amended d c = amend_read_only E ts spec (amend_container E spec d c)

  -- A deployment that was amended to the specification, at whatever time, is left alone by the next
  -- pass, if the config map was not updated: nothing is sent.
  pub amend_deployment-again :
      (C : Client) (d : Deployment) (c : ProxyContainer) (cs : List ProxyContainer) (now : Text)
      (w : World C)
      → d.containers ≡ c ∷ cs
      → amend_deployment C E ts spec false (amended_deployment d (amended d c) now) w ≡ (ok tt, w)
  unfolding amend_deployment amend_read_only amended_deployment amend_container first ◌>>=◌
      on_result pure
  amend_deployment-again C d c cs now w h =
      let r = spec.read_only_root_filesystem in
      let a = amended d c in
      let d' = amended_deployment d a now in
      let image = amend_file_system-HasImage r _ (amend_container-HasImage d c) in
      rw h (
        rw
          (
            amend_container-quiet (record d' { containers = a.container ∷ cs }) a.container image,
            amend_file_system-again r (amend_container E spec d c),
          )
          refl)

-- No ingress is wanted: the one that was found is deleted.
abbrev discard : (C : Client) → Option Ingress → M C (Result (Unit {0}))
discard C none = pure (ok tt)
discard C (some ig) = request C (delete_object ingress_kind ig.meta.namespace ig.meta.name)

choose_ingress-absent :
    (C : Client) (E : Semantic) (ts : TypesenseCluster) (spec : Option IngressSpec)
    (f : Option Ingress)
    → (spec ≡ none) ⊎ (ts.has_http_routes ≡ true)
    → choose_ingress C E ts spec f ≡ discard C f
unfolding choose_ingress
choose_ingress-absent C E ts none none h = refl
choose_ingress-absent C E ts none (some ig) h = refl
choose_ingress-absent C E ts (some spec) f (inl p) = absurd (ground arith)
choose_ingress-absent C E ts (some spec) none (inr p) = if-true ts.has_http_routes _ _ p
choose_ingress-absent C E ts (some spec) (some ig) (inr p) = if-true ts.has_http_routes _ _ p

reconcile_ingress-unread :
    (C : Client) (E : Semantic) (ts : TypesenseCluster) (w : World C)
    → (ts.ingress ≡ none) ⊎ (ts.has_http_routes ≡ true)
    → (e : Error) → (C.get_ingress (reverse_proxy_key ts) w.state).0 ≡ err e
    → (reconcile_ingress C E ts w).1.writes ≡ w.writes
unfolding reconcile_ingress find read found ◌>>=◌ on_result pure
reconcile_ingress-unread C E ts w h (not_found m) e =
    rw (e, choose_ingress-absent C E ts ts.ingress none h) refl
reconcile_ingress-unread C E ts w h (other m) e = rw e refl
reconcile_ingress-unread C E ts w h (panic m) e = rw e refl

-- Where a pass has no ingress to keep, because the specification has none or has HTTP routes, an
-- ingress that it reads is deleted, and that deletion is all it sends. Where it reads none, for
-- whatever error, it sends nothing.
pub reconcile_ingress-absent :
    (C : Client) (E : Semantic) (ts : TypesenseCluster) (w : World C)
    → (ts.ingress ≡ none) ⊎ (ts.has_http_routes ≡ true)
    → let v = (reconcile_ingress C E ts w).1 in
      ((ig : Ingress)
        → (C.get_ingress (reverse_proxy_key ts) w.state).0 ≡ ok ig
        → v.writes ≡ delete_object ingress_kind ig.meta.namespace ig.meta.name ∷ w.writes)
      × ((e : Error)
          → (C.get_ingress (reverse_proxy_key ts) w.state).0 ≡ err e
          → v.writes ≡ w.writes)
unfolding reconcile_ingress find read request found ◌>>=◌ on_result pure
reconcile_ingress-absent C E ts w none_wanted = (
  λ ig. λ e. rw (e, choose_ingress-absent C E ts ts.ingress (some ig) none_wanted) refl,
  reconcile_ingress-unread C E ts w none_wanted,
)
