-- ===== src/Api/Client.antt =====
-- What the operator calls and does not implement: the Kubernetes API, the Typesense nodes' HTTP
-- endpoints, and the decoders of `encoding/json`, `net` and `net/url`.
--
-- A call may answer anything and may move the state: other controllers, the kubelets and users act
-- between two calls. The requests that write are kept in a list, the last one first.
pub mod Trace
pub mod Stored
use typesense_operator.Base.{Text, ℕ, Bool, Option, List, [], ◌∷◌}
use typesense_operator.Base.Exec.{Result, Exec, err, pure, ◌>>=◌, ◌>>◌, on_result, found, check}
use typesense_operator.Base.Dict.{Dict}
use typesense_operator.Node.{NodeStatus, NodeHealth}
use typesense_operator.Kube.{
  Service, Ingress, Deployment, PodMonitor, CronJob, HttpRoute, ReferenceGrant, Object, Kind,
}
use typesense_operator.Api.{
  ObjectKey, PodCondition, Pod, ConfigMap, Secret, Container, PodSpec, StatefulSet, EndpointSlice,
  Condition, TypesenseCluster,
}

-- A request that writes, whether or not it succeeds.
pub data Write : Type 0 where
  create_config_map : ConfigMap → Write
  create_secret : Secret → Write
  update_config_map : ConfigMap → Write
  delete_config_map : ConfigMap → Write
  update_stateful_set : StatefulSet → Write
  create_stateful_set : StatefulSet → Write
  -- a merge patch from the first to the second
  patch_stateful_set : StatefulSet → StatefulSet → Write
  -- namespace and name; `true` for background propagation
  delete_pod : Text → Text → Bool → Write
  -- a merge patch from the first to the second
  patch_pod : Pod → Pod → Write
  patch_pod_status : Pod → Pod → Write
  -- the cluster with its patched status
  patch_status : TypesenseCluster → Write
  create_object : Object → Write
  -- a merge patch from the first to the second
  patch_object : Object → Object → Write
  update_object : Object → Write
  -- by namespace and name
  delete_object : Kind → Text → Text → Write
  -- kind, reason and message
  event : Text → Text → Text → Write

-- How an HTTP call ends: the request cannot be made, no answer, an answer whose body cannot be
-- read, a body.
pub data Response : Type 0 where
  bad_request : Response
  no_answer : Response
  broken_body : Response
  body : Text → Response

-- What `buildStatefulSetHash` hashes. The encodings of the containers' resources, which it adds,
-- are functions of the containers.
pub record HashInput : Type 0 where
  pub annotations : Dict Text
  pub security_context : Text
  pub containers : List Container
  pub pod : PodSpec
  pub configuration : Dict (Dict Text)

pub record Client : Type 1 where
  pub State : Type 0
  pub get_cluster : ObjectKey → Exec State (Result TypesenseCluster)
  pub get_stateful_set : ObjectKey → Exec State (Result StatefulSet)
  pub get_config_map : ObjectKey → Exec State (Result ConfigMap)
  pub get_secret : ObjectKey → Exec State (Result Secret)
  pub get_pod : ObjectKey → Exec State (Result Pod)
  pub get_service : ObjectKey → Exec State (Result Service)
  pub get_deployment : ObjectKey → Exec State (Result Deployment)
  pub get_ingress : ObjectKey → Exec State (Result Ingress)
  pub get_pod_monitor : ObjectKey → Exec State (Result PodMonitor)
  pub get_cron_job : ObjectKey → Exec State (Result CronJob)
  pub get_http_route : ObjectKey → Exec State (Result HttpRoute)
  pub get_reference_grant : ObjectKey → Exec State (Result ReferenceGrant)
  -- by namespace and labels
  pub list_pods : Text → Dict Text → Exec State (Result (List Pod))
  pub list_cron_jobs : Text → Dict Text → Exec State (Result (List CronJob))
  pub list_http_routes : Text → Dict Text → Exec State (Result (List HttpRoute))
  -- by labels, in all namespaces
  pub list_reference_grants : Dict Text → Exec State (Result (List ReferenceGrant))
  pub list_clusters : Exec State (Result (List TypesenseCluster))
  -- by namespace and service
  pub list_endpoint_slices : Text → Text → Exec State (Result (List EndpointSlice))
  pub send : Write → Exec State (Result (Unit {0}))
  -- the last fifty lines, by namespace and pod
  pub get_logs : Text → Text → Exec State (Result Text)
  -- by URL and API key; the key is empty where no header is sent
  pub http_get : Text → Text → Exec State Response
  -- `json.Unmarshal` into a `NodeStatus` and into a `NodeHealth`
  pub decode_status : Text → Option NodeStatus
  pub decode_health : Text → Option NodeHealth
  -- `rand.Read` of so many bytes
  pub random : ℕ → Exec State (Result Text)
  -- `base64.StdEncoding.EncodeToString`
  pub base64 : Text → Text
  pub now : Exec State Text
  -- `DiscoveryClient.ServerVersion`: `GitVersion`
  pub server_version : Exec State (Result Text)
  -- `DiscoveryClient.ServerGroups`: the names of the groups
  pub server_groups : Exec State (Result (List Text))
  -- `version.ParseGeneric` and `AtLeast`
  pub Version : Type 0
  pub parse_version : Text → Result Version
  pub at_least : Version → Version → Bool
  -- `rest.HTTPClientFor`, outside the cluster
  pub http_client : Result (Unit {0})
  pub in_cluster : Bool
  -- the URL of the API server's proxy for a namespace, "pod:port" and a path
  pub proxy_url : Text → Text → Text → Text
  -- `url.JoinPath`
  pub join_path : Text → Text → Result Text
  -- `net.ParseIP(s).String()`
  pub parse_ip : Text → Text
  -- `cases.Title` of `golang.org/x/text`
  pub to_title : Text → Text
  -- `meta.SetStatusCondition`
  pub set_status_condition : List Condition → Condition → List Condition
  -- `ctrl.SetControllerReference`
  pub set_controller_reference : TypesenseCluster → ConfigMap → Result ConfigMap
  pub own : TypesenseCluster → Object → Result (Unit {0})
  pub own_by_ingress : Ingress → Object → Result (Unit {0})
  pub own_config_map_by_ingress : Ingress → ConfigMap → Result ConfigMap
  pub set_secret_controller_reference : TypesenseCluster → Secret → Result Secret
  pub own_stateful_set : TypesenseCluster → StatefulSet → Result StatefulSet
  -- `hashstructure.Hash`, printed and hashed again by `sha256.Sum256`
  pub hash_template : HashInput → Result Text

pub record World (C : Client) : Type 0 where
  pub state : C.State
  pub writes : List Write

abbrev pub M : Client → Type 0 → Type 0
M C = Exec (World C)

module _ (C : Client) where
  -- A call that writes nothing.
  unfoldable pub read : {A : Type 0} → Exec C.State A → M C A
  read f w = let (a, s) = f w.state in (a, record w { state = s })

  -- A request that writes.
  unfoldable pub request : Write → M C (Result (Unit {0}))
  request r w = let (a, s) = C.send r w.state in (a, record { state = s; writes = r ∷ w.writes })

  -- `Recorder.Eventf`
  unfoldable pub record_event : Text → Text → Text → M C (Unit {0})
  record_event kind reason msg = request (event kind reason (C.to_title msg)) >> pure tt

  -- `r.Get`, with what is missing as `none`.
  unfoldable pub find : {A : Type 0} → Exec C.State (Result A) → M C (Result (Option A))
  unfolding found
  find get = read get >>= λ r. pure (found r)

  -- `ctrl.SetControllerReference`, then `r.Create`.
  unfoldable pub create_owned : TypesenseCluster → Object → M C (Result (Unit {0}))
  create_owned ts o = check (C.own ts o) λ _. request (create_object o)
