-- ===== src/Ingress/Objects.antt =====
-- The ingress that typesensecluster_ingress.go builds, updates and compares with its specification.
-- An index out of range and a nil pointer, at which Go panics, are errors.
use typesense_operator.Base.{
  Text, codes, text_eq, Bool, true, false, not, Option, none, some, List, [], ◌∷◌, ◌++◌,
  if◌then◌else◌,
}
use typesense_operator.Base.Dict.{Dict, get_or}
use typesense_operator.Base.Exec.{Result, ok, err, other, first, deref, and_then}
use typesense_operator.Kube.{Ingress, IngressTls, IngressRule, IngressPath}
use typesense_operator.Crd.{IngressSpec}
use typesense_operator.Api.{TypesenseCluster, ObjectKey}
use typesense_operator.Api.Semantic.{Semantic}
use typesense_operator.HttpRoute.Objects.{cluster_issuer_annotation_key}
use typesense_operator.StatefulSet.Decision.{rancher_domain_annotation_key}
use typesense_operator.Utils.{copy_into, filter_map}
use typesense_operator.Utils.Meta.{get_object_meta}

-- `ClusterReverseProxyIngress`, `ClusterReverseProxy`
abbrev pub reverse_proxy_key : TypesenseCluster → ObjectKey
reverse_proxy_key ts = record { namespace = ts.namespace; name = ts.name ++ codes "-reverse-proxy" }

-- `ClusterReverseProxyConfigMap`
abbrev pub proxy_config_map_key : TypesenseCluster → ObjectKey
proxy_config_map_key ts = record {
  namespace = ts.namespace;
  name = ts.name ++ codes "-reverse-proxy-config";
}

-- `ClusterReverseProxyService`
abbrev pub proxy_service_key : TypesenseCluster → ObjectKey
proxy_service_key ts = record {
  namespace = ts.namespace;
  name = ts.name ++ codes "-reverse-proxy-svc";
}

-- The annotations that `createIngress` and `updateIngress` write.
unfoldable pub ingress_annotations : IngressSpec → Dict Text
unfolding copy_into
ingress_annotations spec =
    copy_into
      (elim spec.cluster_issuer [ none ↦ [] | some i ↦ (cluster_issuer_annotation_key, i) ∷ [] ])
      spec.annotations

-- `tlsSecretName` of both
unfoldable pub ingress_tls_secret_name : TypesenseCluster → IngressSpec → Text
ingress_tls_secret_name ts spec = elim spec.tls_secret_name [
  | some name ↦ name
  | none ↦ elim spec.cluster_issuer [
    | none ↦ []
    | some i ↦ ts.name ++ (codes "-reverse-proxy-" ++ (i ++ codes "-certificate-tls"))
  ]
]

-- The guard of both: an issuer wants a name for the secret.
unfoldable pub require_tls_secret : Text → IngressSpec → Result (Unit {0})
require_tls_secret what spec = elim spec.cluster_issuer [
  | none ↦ ok tt
  | some i ↦ elim spec.tls_secret_name [
    | some name ↦ ok tt
    | none ↦ err (other (codes "tls secret name is required, skipping ingress " ++ what))
  ]
]

-- The ingress that `createIngress` builds.
unfoldable pub ingress_of : ObjectKey → TypesenseCluster → IngressSpec → Ingress
unfolding get_object_meta ingress_annotations ingress_tls_secret_name
ingress_of key ts spec = record {
  meta = get_object_meta ts (some key.name) (ingress_annotations spec);
  ingress_class_name = some spec.ingress_class_name;
  tls = record { hosts = spec.host ∷ []; secret_name = ingress_tls_secret_name ts spec } ∷ [];
  rules =
      record {
        host = spec.host;
        http = some (
            record {
              path = spec.path;
              path_type = spec.path_type;
              service_name = (proxy_service_key ts).name;
              service_port = 80;
            }
            ∷ []);
      }
      ∷ [];
}

-- `Rules[0].HTTP.Paths[0]`
unfoldable pub first_http_path : Ingress → Result IngressPath
unfolding first deref
first_http_path ig =
    and_then (first ig.rules) λ rule. and_then (deref rule.http) λ paths. first paths

abbrev with_path : IngressSpec → List IngressPath → List IngressPath
with_path spec [] = []
with_path spec (p ∷ ps) = record p { path = spec.path; path_type = spec.path_type } ∷ ps

abbrev with_http : IngressSpec → Option (List IngressPath) → Option (List IngressPath)
with_http spec none = none
with_http spec (some paths) = some (with_path spec paths)

abbrev with_rule : IngressSpec → List IngressRule → List IngressRule
with_rule spec [] = []
with_rule spec (r ∷ rs) = record r { host = spec.host; http = with_http spec r.http } ∷ rs

abbrev with_secret_name : Text → List IngressTls → List IngressTls
with_secret_name name [] = []
with_secret_name name (t ∷ ts) = record t { secret_name = name } ∷ ts

-- The ingress that `updateIngress` patches in.
unfoldable pub updated_ingress : TypesenseCluster → IngressSpec → Ingress → Result Ingress
unfolding require_tls_secret first first_http_path ingress_annotations ingress_tls_secret_name
updated_ingress ts spec ig = and_then (require_tls_secret (codes "update") spec) λ _.
    and_then (first_http_path ig) λ _. and_then (first ig.tls) λ _. ok (record ig {
      meta = record ig.meta { annotations = ingress_annotations spec };
      ingress_class_name = some spec.ingress_class_name;
      tls = with_secret_name (ingress_tls_secret_name ts spec) ig.tls;
      rules = with_rule spec ig.rules;
    })

-- `getIngressAnnotations`
unfoldable pub get_ingress_annotations : Ingress → TypesenseCluster → Dict Text
get_ingress_annotations ig ts = filter_map ig.meta.annotations (
    cluster_issuer_annotation_key ∷ rancher_domain_annotation_key
    ∷ ts.ignore_annotations_from_external_mutations)

-- `a || b`, where `a` may panic and `b` is evaluated only if `a` is false.
abbrev pub or_else : Result Bool → Result Bool → Result Bool
or_else a b = and_then a λ x. if x then ok true else b

-- `p != nil && *p != s`
abbrev pub is_other : Option Text → Text → Bool
is_other none s = false
is_other (some t) s = not (text_eq t s)

module _ (E : Semantic) where
  -- Lines 96 to 102.
  unfoldable pub ingress_differs : TypesenseCluster → IngressSpec → Ingress → Result Bool
  unfolding first deref first_http_path
  ingress_differs ts spec ig =
      or_else (and_then (first ig.rules) λ rule. ok (not (text_eq spec.host rule.host))) (
        or_else
          (ok (
            is_other spec.cluster_issuer
              (get_or [] cluster_issuer_annotation_key ig.meta.annotations)))
          (or_else (ok (not (E.equal_maps spec.annotations (get_ingress_annotations ig ts)))) (
            or_else
              (elim spec.tls_secret_name [
                | none ↦ ok false
                | some name ↦ and_then (first ig.tls) λ t. ok (not (text_eq name t.secret_name))
              ])
              (or_else
                (and_then (deref ig.ingress_class_name)
                  λ c. ok (not (text_eq spec.ingress_class_name c)))
                (or_else (and_then (first_http_path ig) λ p. ok (not (text_eq spec.path p.path))) (
                  and_then (deref spec.path_type) λ wanted.
                    and_then (first_http_path ig) λ p.
                      and_then (deref p.path_type) λ there. ok (not (text_eq wanted there))))))))
