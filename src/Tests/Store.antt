-- ===== src/Tests/Store.antt =====
-- The state of an API server that stores what it accepts.
use typesense_operator.Base.{codes, text_eq, not, Option, none, some, List, [], keep}
use typesense_operator.Base.Exec.{not_found, Result, ok, err}
use typesense_operator.Api.{ObjectKey, Pod, ConfigMap, Secret, StatefulSet, EndpointSlice}
use typesense_operator.Api.Client.{
  Write, create_config_map, create_secret, update_config_map, delete_config_map,
  update_stateful_set, create_stateful_set, patch_stateful_set, delete_pod, create_object,
  patch_object, update_object, delete_object, patch_pod, patch_pod_status, patch_status, event,
}
use typesense_operator.Kube.{
  Service, CronJob, PodMonitor, ReferenceGrant, Object, Kind, service, ingress, deployment,
  pod_monitor, cron_job, http_route, reference_grant, service_kind, pod_monitor_kind, cron_job_kind,
  deployment_kind, http_route_kind, reference_grant_kind, ingress_kind,
}
use typesense_operator.Tests.Tables.{Table, put_entry, remove_entry}

-- The objects of the kinds that the tests look at, by their keys.
pub record Objects : Type 0 where
  pub services : Table Service
  pub cron_jobs : Table CronJob
  pub pod_monitors : Table PodMonitor
  pub grants : Table ReferenceGrant
  pub listed_jobs : List CronJob

abbrev pub no_objects : Objects
no_objects = record {
  services = λ k. none;
  cron_jobs = λ k. none;
  pod_monitors = λ k. none;
  grants = λ k. none;
  listed_jobs = [];
}

abbrev pub put_object : Object → Objects → Objects
put_object (service o) t = record t { services = put_entry (λ x. x.meta) o t.services }
put_object (cron_job o) t = record t { cron_jobs = put_entry (λ x. x.meta) o t.cron_jobs }
put_object (pod_monitor o) t = record t { pod_monitors = put_entry (λ x. x.meta) o t.pod_monitors }
put_object (reference_grant o) t = record t { grants = put_entry (λ x. x.meta) o t.grants }
put_object (ingress o) t = t
put_object (deployment o) t = t
put_object (http_route o) t = t

abbrev pub remove_object : Kind → ObjectKey → Objects → Objects
remove_object service_kind k t = record t { services = remove_entry k t.services }
remove_object cron_job_kind k t = record t { cron_jobs = remove_entry k t.cron_jobs }
remove_object pod_monitor_kind k t = record t { pod_monitors = remove_entry k t.pod_monitors }
remove_object reference_grant_kind k t = record t { grants = remove_entry k t.grants }
remove_object ingress_kind k t = t
remove_object deployment_kind k t = t
remove_object http_route_kind k t = t

pub record Store : Type 0 where
  pub stateful_set : Option StatefulSet
  pub config_map : Option ConfigMap
  pub secret : Option Secret
  pub pods : List Pod
  pub slices : List EndpointSlice
  pub objects : Objects

abbrev pub or_missing {ℓ} : {A : Type ℓ} → Option A → Result A
or_missing none = err (not_found (codes "gone"))
or_missing (some a) = ok a

abbrev pub accept : Write → Store → Store
accept (create_config_map cm) s = record s { config_map = some cm }
accept (update_config_map cm) s = record s { config_map = some cm }
accept (delete_config_map cm) s = record s { config_map = none }
accept (update_stateful_set sts) s = record s { stateful_set = some sts }
accept (create_stateful_set sts) s = record s { stateful_set = some sts }
accept (patch_stateful_set old sts) s = record s { stateful_set = some sts }
accept (delete_pod ns name b) s = record s { pods = keep (λ p. not (text_eq p.name name)) s.pods }
accept (patch_pod p q) s = s
accept (patch_pod_status p q) s = s
accept (patch_status ts) s = s
accept (create_object o) s = record s { objects = put_object o s.objects }
accept (patch_object o p) s = record s { objects = put_object p s.objects }
accept (update_object o) s = record s { objects = put_object o s.objects }
accept (delete_object k ns n) s = record s {
  objects = remove_object k (record { namespace = ns; name = n }) s.objects;
}
accept (create_secret secret) s = record s { secret = some secret }
accept (event k r m) s = s
