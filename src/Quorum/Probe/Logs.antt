-- ===== src/Quorum/Probe/Logs.antt =====
-- What the logs of a pod do to its status and to its health.
use typesense_operator.Base.{Text, ◌≡◌, ◌≢◌, ◌⊎◌, true, false, arith}
use typesense_operator.Api.Client.{Client, Response, bad_request, no_answer, broken_body, body}
use typesense_operator.Node.{
  error_state, unreachable, missing, NodeStatus, errors_require_pod_termination,
}
use typesense_operator.Quorum.Probe.{
  inspect_pod_logs, amend_status, amend_health, status_of, health_of,
}

amend_status_lem :
    (logs : Text) (s : NodeStatus)
    → ((amend_status logs s).state ≢ missing)
      × (inspect_pod_logs logs errors_require_pod_termination ≡ true
          → (amend_status logs s).state ≡ error_state)
unfolding amend_status
amend_status_lem logs s = ground arith

module _ (C : Client) where
  -- Whatever a node answers, its status has a state. If its logs hold one of the errors that call for
  -- the pod's termination, the state is `ERROR` or `UNREACHABLE`, so the node counts as no leader,
  -- and its health is not good.
  pub probe-logs :
      (logs : Text) (r : Response)
      → ((status_of C logs r).state ≢ missing)
        × (inspect_pod_logs logs errors_require_pod_termination ≡ true
            → (((status_of C logs r).state ≡ error_state)
                ⊎ ((status_of C logs r).state ≡ unreachable))
              × ((health_of C logs r).healthy ≡ false))
  unfolding status_of health_of amend_status amend_health
  probe-logs logs bad_request = ground arith
  probe-logs logs no_answer = ground arith
  probe-logs logs broken_body = ground arith
  probe-logs logs (body b) = ground arith
