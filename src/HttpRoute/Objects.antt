-- ===== src/HttpRoute/Objects.antt =====
-- The routes and the reference grants that typesensecluster_httproute.go builds, and the comparison
-- of a route with its specification. An index out of range and a nil pointer, at which Go panics,
-- are errors.
use typesense_operator.Base.{
  Text, codes, text_eq, Bool, true, not, ◌||◌, Option, none, some, List, [], ◌∷◌, if◌then◌else◌,
}
use typesense_operator.Base.Dict.{Dict, keys}
use typesense_operator.Base.Exec.{Result, ok, first, deref, and_then}
use typesense_operator.Kube.{
  HttpRoute, ReferenceGrant, ParentReference, BackendRef, PathMatch, RouteRule,
}
use typesense_operator.Crd.{HttpRouteSpec}
use typesense_operator.Api.{TypesenseCluster, ObjectKey}
use typesense_operator.Api.Semantic.{Semantic}
use typesense_operator.Services.{cluster_rest_service}
use typesense_operator.StatefulSet.Decision.{rancher_domain_annotation_key}
use typesense_operator.Utils.{copy_into, filter_map}
use typesense_operator.Utils.Meta.{
  get_http_route_labels, get_http_route_object_meta, get_reference_grant_object_meta,
}

-- `gatewayApiGroup`, and `GroupName` of the Gateway API
abbrev pub gateway_api_group : Text
gateway_api_group = codes "gateway.networking.k8s.io"

-- `clusterIssuerAnnotationKey`
abbrev pub cluster_issuer_annotation_key : Text
cluster_issuer_annotation_key = codes "cert-manager.io/cluster-issuer"

-- `&gatewayv1.HTTPRoute{}`, which a `Get` that found nothing leaves empty.
abbrev pub no_http_route : HttpRoute
no_http_route = record {
  meta = record { namespace = []; name = []; labels = []; annotations = [] };
  parent_refs = [];
  hostnames = [];
  rules = [];
}

abbrev pub namespace_or : Text → Option Text → Text
namespace_or d none = d
namespace_or d (some ns) = ns

-- `getGatewayParentRef`
unfoldable pub get_gateway_parent_ref : HttpRouteSpec → TypesenseCluster → ParentReference
get_gateway_parent_ref spec ts = record {
  group = none;
  kind = none;
  name = spec.parent_ref.name;
  namespace = some (namespace_or ts.namespace spec.parent_ref.namespace);
  section_name = spec.parent_ref.section_name;
}

abbrev pub backend_ref_of : TypesenseCluster → BackendRef
backend_ref_of ts = record {
  group = [];
  kind = codes "Service";
  name = cluster_rest_service ts.name;
  namespace = ts.namespace;
  port = ts.api_port;
  weight = 1;
}

-- The route that `createHttpRoute` builds.
unfoldable pub http_route_of : ObjectKey → HttpRouteSpec → TypesenseCluster → HttpRoute
unfolding copy_into get_http_route_object_meta get_gateway_parent_ref
http_route_of key spec ts = record {
  meta =
      get_http_route_object_meta ts spec (some key.name) (copy_into [] spec.labels)
        (copy_into [] spec.annotations);
  parent_refs = get_gateway_parent_ref spec ts ∷ [];
  hostnames = spec.hostnames;
  rules =
      record {
        matches = some (record { kind = spec.path_type; value = some spec.path }) ∷ [];
        backend_refs = backend_ref_of ts ∷ [];
      }
      ∷ [];
}

-- The grant that `createReferenceGrant` builds.
unfoldable pub reference_grant_of : HttpRouteSpec → TypesenseCluster → Result ReferenceGrant
unfolding get_reference_grant_object_meta
reference_grant_of spec ts = and_then (get_reference_grant_object_meta ts spec) λ meta. ok (record {
  meta = meta;
  referrers =
      record { group = gateway_api_group; kind = codes "HTTPRoute"; namespace = ts.namespace } ∷ [];
  targets =
      record { group = gateway_api_group; kind = codes "Gateway"; name = spec.parent_ref.name }
      ∷ [];
})

-- `Rules[0].Matches[0].Path`, whose fields are read
unfoldable pub first_path : HttpRoute → Result PathMatch
unfolding first deref
first_path route =
    and_then (first route.rules) λ rule. and_then (first rule.matches) λ match. deref match

abbrev pub with_first_match : PathMatch → List (Option PathMatch) → List (Option PathMatch)
with_first_match p [] = []
with_first_match p (_ ∷ ms) = some p ∷ ms

-- `Rules[0].Matches[0].Path.Value = …` and `Type = …`, of lists that are not empty
abbrev pub with_first_path : PathMatch → List RouteRule → List RouteRule
with_first_path p [] = []
with_first_path p (rule ∷ rules) = record rule { matches = with_first_match p rule.matches } ∷ rules

-- `ParentRefs[0] = …`, of a list that is not empty
abbrev pub with_first_parent : ParentReference → List ParentReference → List ParentReference
with_first_parent p [] = []
with_first_parent p (_ ∷ ps) = p ∷ ps

-- The route that `updateHttpRoute` patches in.
unfoldable pub updated_http_route : HttpRouteSpec → HttpRoute → TypesenseCluster → Result HttpRoute
unfolding first first_path get_gateway_parent_ref copy_into
updated_http_route spec route ts = and_then (first route.parent_refs) λ _.
    and_then (first_path route) λ _. ok (record route {
      meta = record route.meta { annotations = copy_into [] spec.annotations };
      parent_refs = with_first_parent (get_gateway_parent_ref spec ts) route.parent_refs;
      hostnames = spec.hostnames;
      rules =
          with_first_path (record { kind = spec.path_type; value = some spec.path }) route.rules;
    })

-- `getHttpRouteAnnotations`
unfoldable pub get_http_route_annotations : HttpRoute → TypesenseCluster → Dict Text
get_http_route_annotations route ts = filter_map route.meta.annotations (
    cluster_issuer_annotation_key ∷ rancher_domain_annotation_key
    ∷ ts.ignore_annotations_from_external_mutations)

-- The method `getHttpRouteLabels`: the labels whose keys contain none of the operator's own.
unfoldable pub get_other_labels : HttpRoute → HttpRouteSpec → TypesenseCluster → Dict Text
get_other_labels route spec ts = filter_map route.meta.labels (keys (get_http_route_labels ts spec))

-- The parent that lines 121 to 130 compare with; its namespace is not defaulted.
abbrev pub wanted_parent : HttpRouteSpec → ParentReference
wanted_parent spec = record {
  group = some gateway_api_group;
  kind = some (codes "Gateway");
  name = spec.parent_ref.name;
  namespace = spec.parent_ref.namespace;
  section_name = spec.parent_ref.section_name;
}

module _ (E : Semantic) where
  -- Hostnames, labels and annotations, which are compared first.
  abbrev pub head_differs : HttpRoute → HttpRouteSpec → TypesenseCluster → Bool
  head_differs route spec ts =
      not (E.equal_lists spec.hostnames route.hostnames)
      || not (E.equal_maps spec.labels (get_other_labels route spec ts))
      || not (E.equal_maps spec.annotations (get_http_route_annotations route ts))

  -- Lines 137 to 144: each operand is evaluated only if those before it are equal.
  unfoldable pub http_route_differs : HttpRoute → HttpRouteSpec → TypesenseCluster → Result Bool
  unfolding first_path first deref
  http_route_differs route spec ts = and_then (first_path route) λ p.
      and_then (deref p.value) λ path.
        if head_differs route spec ts
        then ok true
        else and_then (first route.parent_refs) λ parent.
          if not (E.equal_parents (wanted_parent spec) parent) || not (text_eq spec.path path)
          then ok true
          else and_then (deref spec.path_type)
              λ wanted. and_then (deref p.kind) λ there. ok (not (text_eq wanted there))
