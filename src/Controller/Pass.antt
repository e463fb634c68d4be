-- ===== src/Controller/Pass.antt =====
-- `Reconcile` up to line 210: the parts of a cluster one after the other, each with the reason that
-- its failure leaves in the status.
--
-- Services, routes, scrapers, the pod monitor and the stateful set are parameters here, as arbitrary
-- actions; Controller/Parts has the ones of the source.
pub mod Results
pub mod Stages
use typesense_operator.Base.{Text, codes, ℕ, Bool, Option, none, some, [], ◌++◌}
use typesense_operator.Base.Dict.{get_or}
use typesense_operator.Base.Exec.{
  Error, not_found, other, panic, Result, ok, err, pure, ◌>>=◌, on_result, attempt, or_return,
}
use typesense_operator.Api.{StatefulSet, TypesenseCluster, ObjectKey}
use typesense_operator.Api.Client.{Client, M, read}
use typesense_operator.ConfigMap.Update.{reconcile_config_map}
use typesense_operator.Controller.{error_text, init_conditions, set_condition_not_ready, finish}
use typesense_operator.Secret.{admin_api_key_secret_key_name, reconcile_secret}

-- The calls of `Reconcile` that it takes as arbitrary actions; the last one returns the stateful set and the
-- termination grace period of its pods.
pub record Parts (C : Client) : Type 0 where
  pub reconcile_services : TypesenseCluster → M C (Result (Unit {0}))
  pub reconcile_ingress : TypesenseCluster → M C (Result (Unit {0}))
  pub reconcile_http_route : TypesenseCluster → M C (Result (Unit {0}))
  pub reconcile_scraper : TypesenseCluster → M C (Result (Unit {0}))
  pub reconcile_pod_monitor : TypesenseCluster → M C (Result (Unit {0}))
  pub reconcile_stateful_set : TypesenseCluster → M C (Result (StatefulSet × ℕ))

-- `errors.Wrap(err, cerr.Error())`
unfoldable pub wrap : Error → Error → Error
unfolding error_text
wrap (not_found m) c = not_found (error_text c ++ (codes ": " ++ m))
wrap (other m) c = other (error_text c ++ (codes ": " ++ m))
wrap (panic m) c = panic m

unfoldable pub failure_of : Error → Result TypesenseCluster → Error
unfolding wrap
failure_of e (ok ts) = e
failure_of e (err c) = wrap e c

module _ (C : Client) where
  -- What `Reconcile` does of a part that failed.
  unfoldable pub fail_part : {A : Type 0} → TypesenseCluster → Text → Error → M C (Result A)
  fail_part ts reason e =
      set_condition_not_ready C ts reason (error_text e) >>= λ r. pure (err (failure_of e r))

  -- A panic ends the pass at once.
  unfoldable pub on_failure : {A : Type 0} → TypesenseCluster → Text → Error → M C (Result A)
  on_failure ts reason (panic m) = pure (err (panic m))
  on_failure ts reason (not_found m) = fail_part ts reason (not_found m)
  on_failure ts reason (other m) = fail_part ts reason (other m)

  -- A part, and the rest of the pass.
  abbrev pub part :
      {A B : Type 0}
      → TypesenseCluster
      → Text
      → M C (Result A)
      → (A → M C (Result B))
      → M C (Result B)
  part ts reason m rest = or_return m (on_failure ts reason) rest

  -- Lines 132 to 210.
  unfoldable pub reconcile_parts : Parts C → TypesenseCluster → M C (Result (TypesenseCluster × ℕ))
  reconcile_parts parts ts = part ts (codes "SecretNotReady") (reconcile_secret C ts) λ secret.
      part ts (codes "ConfigMapNotReady") (reconcile_config_map C ts) λ updated.
        part ts (codes "ServicesNotReady") (parts.reconcile_services ts) λ _.
          part ts (codes "IngressNotReady") (parts.reconcile_ingress ts) λ _.
            part ts (codes "HttpRouteNotReady") (parts.reconcile_http_route ts) λ _.
              part ts (codes "ScrapersNotReady") (parts.reconcile_scraper ts) λ _.
                part ts (codes "MetricsExporterNotReady") (parts.reconcile_pod_monitor ts) λ _.
                  part ts (codes "StatefulSetNotReady") (parts.reconcile_stateful_set ts) λ found.
                    finish C ts (get_or [] admin_api_key_secret_key_name secret.entries)
                      (record { namespace = found.0.namespace; name = found.0.name }) updated
                      found.1

  unfoldable pub reconcile_found :
      Parts C → TypesenseCluster → M C (Result (Option (TypesenseCluster × ℕ)))
  reconcile_found parts ts =
      attempt (init_conditions C ts)
        λ t. attempt (reconcile_parts parts t) λ done. pure (ok (some done))

  -- `client.IgnoreNotFound`
  unfoldable pub without_cluster : Error → M C (Result (Option (TypesenseCluster × ℕ)))
  without_cluster (not_found m) = pure (ok none)
  without_cluster (other m) = pure (err (other m))
  without_cluster (panic m) = pure (err (panic m))

  -- `Reconcile`: `none` where the cluster is gone, else the cluster as it was reported and the
  -- seconds until the next pass.
  unfoldable pub reconcile : Parts C → ObjectKey → M C (Result (Option (TypesenseCluster × ℕ)))
  reconcile parts key =
      or_return (read C (C.get_cluster key)) without_cluster (reconcile_found parts)
