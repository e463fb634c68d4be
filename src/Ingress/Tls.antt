-- ===== src/Ingress/Tls.antt =====
-- The TLS secret of the ingress that `createIngress` makes.
use typesense_operator.Base.{
  Text, codes, ◌≡◌, refl, ap, inl, inr, Option, Option-cases, none, some, [], ◌∷◌, arith, ◌∙◌, sym,
}
use typesense_operator.Base.Exec.{ok, err, other, pure, ◌>>=◌, on_result, ok-injective}
use typesense_operator.Base.Exec.Rules.{attempt-ok, check-ok}
use typesense_operator.Kube.{Ingress, ingress}
use typesense_operator.Crd.{IngressSpec}
use typesense_operator.Api.{TypesenseCluster, ObjectKey}
use typesense_operator.Api.Client.{Client, World, create_owned}
use typesense_operator.Ingress.{create_ingress}
use typesense_operator.Ingress.Objects.{require_tls_secret, ingress_tls_secret_name, ingress_of}

abbrev pub tls_name_or_empty : Option Text → Text
tls_name_or_empty none = []
tls_name_or_empty (some name) = name

-- Past the guard there is a name or no issuer.
require_tls_secret-name :
    (what : Text) (ts : TypesenseCluster) (spec : IngressSpec) {u : Unit {0}}
    → require_tls_secret what spec ≡ ok u
    → ingress_tls_secret_name ts spec ≡ tls_name_or_empty spec.tls_secret_name
unfolding require_tls_secret ingress_tls_secret_name
require_tls_secret-name what ts spec h = elim (Option-cases spec.tls_secret_name) [
  | inr (name, p) ↦ rw p refl
  | inl p ↦ elim (Option-cases spec.cluster_issuer) [
    | inl q ↦ rw (p, q) refl
    | inr (i, q) ↦ absurd (ground arith)
  ]
]

-- An ingress is created with the TLS secret that the specification names, or with none: the name
-- that the source makes of the cluster and its issuer is never used. With an issuer and no name,
-- creating it fails and nothing is sent.
pub create_ingress_lem :
    (C : Client) (key : ObjectKey) (ts : TypesenseCluster) (spec : IngressSpec) (w : World C)
    → ((ig : Ingress)
        → (create_ingress C key ts spec w).0 ≡ ok ig
        → ig.tls
          ≡ record { hosts = spec.host ∷ []; secret_name = tls_name_or_empty spec.tls_secret_name }
            ∷ [])
      × ((i : Text)
          → spec.cluster_issuer ≡ some i
          → spec.tls_secret_name ≡ none
          → create_ingress C key ts spec w
            ≡ (err (other (codes "tls secret name is required, skipping ingress creation")), w))
unfolding create_ingress require_tls_secret ingress_of ◌>>=◌ on_result pure
create_ingress_lem C key ts spec w = (
  λ ig h.
      let (_, guard, e) = check-ok (require_tls_secret (codes "creation") spec) _ w h in
      let made = ingress_of key ts spec in
      let (_, _, e2) = attempt-ok (create_owned C ts (ingress made)) _ w (rw e at h) in
      let same : made ≡ ig = ok-injective (ap (λ r. r.0) (sym (e ∙ e2)) ∙ h) in
      rw (sym same, require_tls_secret-name (codes "creation") ts spec guard) refl,
  λ i p q. rw (p, q) refl,
)
