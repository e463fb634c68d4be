-- ===== src/Quorum/Probe.antt =====
-- `buildUrl`, `inspectPodLogs`, `getPodLogs`, `getHttpClient`, `getNodeStatus` and `getNodeHealth`.
pub mod Logs
use typesense_operator.Base.{
  Text, codes, text_eq, contains_text, decimal, ℕ, Bool, true, false, not, ◌&&◌, ◌||◌, Option, none,
  some, List, [], ◌∷◌, ◌++◌, any, if◌then◌else◌,
}
use typesense_operator.Base.Exec.{Error, Result, ok, err, pure, ◌>>=◌, on_result, or_return}
use typesense_operator.Api.{TypesenseCluster}
use typesense_operator.Api.Client.{
  Client, M, read, Response, bad_request, no_answer, broken_body, body,
}
use typesense_operator.ConfigMap.Force.{get_node_endpoint, get_short_name}
use typesense_operator.Node.{
  NodeState, missing, error_state, unreachable, NodeStatus, with_state, NodeHealth, NodeEndpoint,
  errors_require_pod_termination,
}

-- `inspectPodLogs`; no error of the list is nil
unfoldable pub inspect_pod_logs : Text → List Text → Bool
unfolding contains_text
inspect_pod_logs logs errs = any (contains_text logs) errs

abbrev is_missing : NodeState → Bool
is_missing missing = true
is_missing _ = false

-- What `getNodeStatus` makes of a decoded status and the pod's logs.
unfoldable pub amend_status : Text → NodeStatus → NodeStatus
unfolding inspect_pod_logs
amend_status logs s =
    let named : NodeStatus = if is_missing s.state then record s { state = error_state } else s in
    if inspect_pod_logs logs errors_require_pod_termination
    then record named { state = error_state }
    else named

-- What `getNodeHealth` makes of a decoded answer and the pod's logs.
unfoldable pub amend_health : Text → NodeHealth → NodeHealth
unfolding inspect_pod_logs
amend_health logs h =
    if h.healthy && inspect_pod_logs logs errors_require_pod_termination
    then record h { healthy = false }
    else h

abbrev pub unhealthy : NodeHealth
unhealthy = record { healthy = false; resource_error = none }

module _ (C : Client) where
  -- `buildUrl` for a path that is given without its leading slash
  unfoldable pub build_url : NodeEndpoint → TypesenseCluster → ℕ → Text → Result Text
  unfolding get_node_endpoint get_short_name decimal
  build_url node ts port path =
      if C.in_cluster
      then C.join_path
          (codes "http://" ++ (get_node_endpoint ts node.ip ++ (codes ":" ++ decimal port)))
          (codes "/" ++ path)
      else ok (
          C.proxy_url ts.namespace (get_short_name node.pod_name ++ (codes ":" ++ decimal port))
            path)

  -- The status that an answer stands for.
  unfoldable pub status_of : Text → Response → NodeStatus
  unfolding amend_status
  status_of logs bad_request = with_state error_state
  status_of logs no_answer = with_state unreachable
  status_of logs broken_body = with_state error_state
  status_of logs (body b) = elim (C.decode_status b) [
    | none ↦ with_state error_state
    | some s ↦ amend_status logs s
  ]

  -- `getNodeStatus`, whose error is always nil
  unfoldable pub get_node_status : NodeEndpoint → TypesenseCluster → Text → Text → M C NodeStatus
  get_node_status node ts api_key logs =
      on_result (build_url node ts ts.api_port (codes "status"))
        (λ _. pure (with_state unreachable))
        λ url. read C (C.http_get url api_key) >>= λ r. pure (status_of logs r)

  unfoldable pub health_of : Text → Response → NodeHealth
  unfolding amend_health
  health_of logs (body b) = elim (C.decode_health b) [
    | none ↦ unhealthy
    | some h ↦ amend_health logs h
  ]
  health_of logs _ = unhealthy

  -- `getNodeHealth`
  unfoldable pub get_node_health : NodeEndpoint → TypesenseCluster → Text → M C (Result NodeHealth)
  get_node_health node ts logs =
      on_result (build_url node ts ts.api_port (codes "health")) (λ e. pure (err e))
        λ url. read C (C.http_get url []) >>= λ r. pure (ok (health_of logs r))

  -- `getPodLogs`
  unfoldable pub get_pod_logs : NodeEndpoint → Text → M C (Result Text)
  get_pod_logs node namespace = read C (C.get_logs namespace node.pod_name)

  -- `getHttpClient`; its timeout is not modelled
  unfoldable pub get_http_client : Result (Unit {0})
  get_http_client = if C.in_cluster then ok tt else C.http_client
