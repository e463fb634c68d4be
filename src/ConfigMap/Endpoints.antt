-- ===== src/ConfigMap/Endpoints.antt =====
-- `getEndpointSlicesForStatefulSet`, and the loop of `getNodes` over its slices.
use typesense_operator.Base.{
  Text, codes, text_eq, decimal, Bool, false, not, ◌&&◌, ◌||◌, Option, none, some, List, [], ◌∷◌,
  ◌++◌, any, keep, if◌then◌else◌,
}
use typesense_operator.Base.Exec.{Result, ok, pure, attempt}
use typesense_operator.Api.{Pod, Endpoint, EndpointSlice, StatefulSet, TypesenseCluster}
use typesense_operator.Api.Client.{Client, M, read}
use typesense_operator.Utils.{is_member}

-- `"%s:%d:%d"`, an address with the peering and the API port
unfoldable pub raft_endpoint : TypesenseCluster → Text → Text
unfolding decimal
raft_endpoint ts address =
    address ++ (codes ":" ++ (decimal ts.peering_port ++ (codes ":" ++ decimal ts.api_port)))

-- A pod that is not being deleted, runs or is pending, and has an address.
unfoldable pub is_live : Pod → Bool
unfolding text_eq
is_live pod =
    not pod.deleting
    && (text_eq pod.phase (codes "Running") || text_eq pod.phase (codes "Pending"))
    && not (text_eq pod.pod_ip [])

unfoldable pub live_ips : List Pod → List Text
unfolding is_live
live_ips [] = []
live_ips (pod ∷ pods) = if is_live pod then pod.pod_ip ∷ live_ips pods else live_ips pods

first_address_in : List Text → List Text → Bool
first_address_in ips [] = false
first_address_in ips (ip ∷ _) = is_member ips ip

refers_to_pod : Option Text → Bool
unfolding text_eq
refers_to_pod none = false
refers_to_pod (some kind) = text_eq kind (codes "Pod")

unfoldable pub is_live_endpoint : List Text → Endpoint → Bool
unfolding first_address_in refers_to_pod
is_live_endpoint ips ep = refers_to_pod ep.target_kind && first_address_in ips ep.addresses

-- The slices with at least one live endpoint.
unfoldable pub ready_slices : List Text → List EndpointSlice → List EndpointSlice
unfolding is_live_endpoint
ready_slices ips = keep (λ slice. any (is_live_endpoint ips) slice.endpoints)

module _ (C : Client) where
  unfoldable pub get_endpoint_slices_for_stateful_set :
      StatefulSet → M C (Result (List EndpointSlice))
  get_endpoint_slices_for_stateful_set sts =
      attempt (read C (C.list_endpoint_slices sts.namespace sts.service_name)) λ slices.
        attempt (read C (C.list_pods sts.namespace sts.match_labels))
          λ pods. pure (ok (ready_slices (live_ips pods) slices))

add_first_address : TypesenseCluster → List Text → List Text → List Text
unfolding raft_endpoint
add_first_address ts [] rest = rest
add_first_address ts (address ∷ _) rest = raft_endpoint ts address ∷ rest

-- The first address of each endpoint of a slice, as raft endpoints.
unfoldable pub endpoint_nodes : TypesenseCluster → List Endpoint → List Text
unfolding add_first_address
endpoint_nodes ts [] = []
endpoint_nodes ts (ep ∷ eps) = add_first_address ts ep.addresses (endpoint_nodes ts eps)

unfoldable pub slice_nodes : TypesenseCluster → List EndpointSlice → List Text
unfolding endpoint_nodes
slice_nodes ts [] = []
slice_nodes ts (slice ∷ slices) = endpoint_nodes ts slice.endpoints ++ slice_nodes ts slices
