-- ===== src/Controller/Parts.antt =====
-- `Reconcile` of typesensecluster_controller.go with its own parts.
pub mod Blocked
use typesense_operator.Base.{ℕ, Option}
use typesense_operator.Base.Exec.{Result, ok, pure, deref, attempt, check}
use typesense_operator.Api.{StatefulSet, TypesenseCluster, ObjectKey}
use typesense_operator.Api.Client.{Client, M}
use typesense_operator.Api.Semantic.{Semantic}
use typesense_operator.Controller.Pass.{Parts, reconcile}
use typesense_operator.HttpRoute.{reconcile_http_route}
use typesense_operator.Ingress.{reconcile_ingress}
use typesense_operator.PodMonitor.{reconcile_pod_monitor}
use typesense_operator.Scraper.{reconcile_scraper}
use typesense_operator.Services.{reconcile_services}
use typesense_operator.StatefulSet.Reconcile.{reconcile_stateful_set}

module _ (C : Client) (E : Semantic) where
  -- Lines 198 to 209: the stateful set, and the termination grace period of its pods, which panics
  -- where it is nil.
  unfoldable pub stateful_set_part : TypesenseCluster → M C (Result (StatefulSet × ℕ))
  stateful_set_part ts =
      attempt (reconcile_stateful_set C E ts) λ sts.
        check (deref sts.pod.termination_grace_period_seconds) λ grace. pure (ok (sts, grace))

  unfoldable pub cluster_parts : Parts C
  unfolding stateful_set_part
  cluster_parts = record {
    reconcile_services = reconcile_services C E;
    reconcile_ingress = reconcile_ingress C E;
    reconcile_http_route = reconcile_http_route C E;
    reconcile_scraper = reconcile_scraper C;
    reconcile_pod_monitor = reconcile_pod_monitor C;
    reconcile_stateful_set = stateful_set_part;
  }

  -- A pass over the cluster of a key.
  abbrev pub reconcile_cluster : ObjectKey → M C (Result (Option (TypesenseCluster × ℕ)))
  reconcile_cluster = reconcile C cluster_parts
