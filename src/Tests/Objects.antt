-- ===== src/Tests/Objects.antt =====
-- The objects of a cluster: the theorems at concrete data.
use typesense_operator.Base.{
  Text, codes, text_eq, text_eq_iff, ◌≢◌, ◌≡◌, refl, sym, inl, false, Option, none, some, [], ◌∷◌,
  arith,
}
use mathlib.Core.Path.{subst}
use mathlib.Core.Option.{some-injective}
use typesense_operator.Utils.Meta.{get_object_meta}
use typesense_operator.Base.Exec.{ok, pure, ◌>>=◌, on_result, first, found}
use typesense_operator.Kube.{Service, CronJob, PodMonitor}
use typesense_operator.Crd.{DocSearchScraperSpec, MetricsExporterSpec}
use typesense_operator.Api.{TypesenseCluster, ObjectKey}
use typesense_operator.Api.Client.{World, find, read, request, create_owned}
use typesense_operator.Api.Client.Stored.{IsStored}
use typesense_operator.Services.{
  reconcile_services, ensure_headless, ensure_service, amend_service, update_service,
  update_headless_service, delete_service, headless_of, service_of,
}
use typesense_operator.Services
use typesense_operator.Services.Headless.{services}
use typesense_operator.Services.Sync.{HasPorts, MayStay, Served-Synced, reconcile_services-Synced}
use typesense_operator.Scraper
use typesense_operator.Scraper.{
  plain_var, scraper_key, cron_job_of, delete_orphans, sync_scraper, sync_scrapers,
  reconcile_scraper,
}
use typesense_operator.Services.Again.{reconcile_services-again}
use typesense_operator.Scraper.Again.{reconcile_scraper-again}
use typesense_operator.Scraper.Jobs.{cron_jobs}
use typesense_operator.Scraper.Sync.{HaveVariables, Configured-Synced, reconcile_scraper-Synced}
use typesense_operator.Scraper.Changes.{HasVariable}
use mathlib.Core.List.{Memᴰ}
use typesense_operator.PodMonitor
use typesense_operator.PodMonitor.{
  pod_monitor_key, pod_monitor_of, sync_pod_monitor, ensure_pod_monitor,
}
use typesense_operator.PodMonitor.Sync.{pod_monitors, ensure_pod_monitor-Synced}
use mathlib.Core.Bool.{true≢false}
use typesense_operator.Base.Dict.{lookup, insert}
use typesense_operator.Utils.{merge_labels}
use typesense_operator.Base.Int.{pos}
use typesense_operator.Tests.Sample.{sample_client, cluster, start, lax, lax-IsReflexive}
use typesense_operator.Tests.Store.{Store, Objects, no_objects}
use typesense_operator.Tests.Tables.{tables-IsStored, put_entry}

abbrev view_service : ObjectKey → Store → Option Service
view_service k s = s.objects.services k

services-IsStored : IsStored (services sample_client view_service)
services-IsStored =
    tables-IsStored (services sample_client view_service) (λ key s. refl) (λ o s k. refl)
      (λ old o s k. refl) (λ key s k. refl) (λ o. (refl, refl))

-- A service that listens on another port and has annotations of its own.
abbrev old_service : Service
old_service = record {
  meta = record {
    namespace = codes "search";
    name = codes "ts-svc";
    labels = [];
    annotations = (codes "team", codes "search") ∷ [];
  };
  kind = codes "ClusterIP";
  cluster_ip = [];
  publish_not_ready_addresses = false;
  selector = [];
  ports =
      record { name = codes "http"; port = 9000; target_port = 9000 }
      ∷ record { name = codes "healthcheck"; port = 8808; target_port = 8808 }
      ∷ [];
}

abbrev with_objects : Objects → World sample_client
with_objects t = record { state = record (start 3).state { objects = t }; writes = [] }

abbrev old_services : World sample_client
old_services =
    with_objects
      (record no_objects { services = put_entry (λ x. x.meta) old_service no_objects.services })

old_services-HasPorts :
    HasPorts sample_client view_service services-IsStored lax lax-IsReflexive cluster old_services
unfolding text_eq
old_services-HasPorts o p =
    let e : old_service ≡ o = some-injective old_service o p in
    subst (MayStay sample_client view_service services-IsStored lax lax-IsReflexive cluster) e
      (inl (_, _, refl))

services_run : (reconcile_services sample_client lax cluster old_services).0 ≡ ok tt
unfolding reconcile_services ensure_headless ensure_service amend_service update_service
    update_headless_service delete_service headless_of service_of first find read request
    create_owned found get_object_meta text_eq ◌>>=◌ on_result pure
services_run = refl

reconcile_services-Synced_example :
    Services.Sync.Served sample_client view_service services-IsStored lax lax-IsReflexive cluster
      (reconcile_services sample_client lax cluster old_services).1
reconcile_services-Synced_example =
    reconcile_services-Synced sample_client view_service services-IsStored lax lax-IsReflexive
      cluster old_services old_services-HasPorts services_run

reconcile_services-again_example :
    let v = (reconcile_services sample_client lax cluster old_services).1 in
    (reconcile_services sample_client lax cluster v).1.writes ≡ v.writes
reconcile_services-again_example =
    let v = (reconcile_services sample_client lax cluster old_services).1 in
    reconcile_services-again sample_client view_service services-IsStored lax lax-IsReflexive
      cluster v
      (Served-Synced sample_client view_service services-IsStored lax lax-IsReflexive cluster v (
        reconcile_services-Synced sample_client view_service services-IsStored lax lax-IsReflexive
          cluster old_services old_services-HasPorts services_run))

abbrev view_job : ObjectKey → Store → Option CronJob
view_job k s = s.objects.cron_jobs k

jobs-IsStored : IsStored (cron_jobs sample_client view_job)
jobs-IsStored =
    tables-IsStored (cron_jobs sample_client view_job) (λ key s. refl) (λ o s k. refl)
      (λ old o s k. refl) (λ key s k. refl) (λ o. (refl, refl))

abbrev scraper : Text → DocSearchScraperSpec
scraper name = record {
  name = name;
  image = codes "typesense/docsearch-scraper:0.11.0";
  config = codes "{}";
  schedule = codes "0 * * * *";
  auth_configuration = none;
}

abbrev scraped : TypesenseCluster
scraped = record cluster { scrapers = scraper (codes "docs") ∷ scraper (codes "blog") ∷ [] }

-- The job of a scraper that the specification no longer has.
abbrev old_job : CronJob
unfolding cron_job_of get_object_meta
old_job =
    cron_job_of (scraper_key scraped (scraper (codes "wiki"))) scraped (scraper (codes "wiki"))

-- The job of a scraper whose configuration was another one.
abbrev stale_job : CronJob
unfolding cron_job_of get_object_meta
stale_job =
    cron_job_of (scraper_key scraped (scraper (codes "docs"))) scraped
      (record (scraper (codes "docs")) { config = codes "{old}" })

abbrev old_jobs : World sample_client
old_jobs = with_objects (record no_objects {
  cron_jobs =
      put_entry (λ x. x.meta) stale_job (put_entry (λ x. x.meta) old_job no_objects.cron_jobs);
  listed_jobs = stale_job ∷ old_job ∷ [];
})

stale_job-HasVariable : HasVariable stale_job
unfolding cron_job_of first
stale_job-HasVariable =
    (_, refl, (plain_var (codes "CONFIG") (codes "{old}"), Memᴰ.head refl, refl))

old_jobs-HaveVariables :
    HaveVariables sample_client view_job scraped scraped.scrapers old_jobs.state
unfolding text_eq cron_job_of get_object_meta
old_jobs-HaveVariables = (
  λ o p. subst HasVariable (some-injective stale_job o p) stale_job-HasVariable,
  (λ o p. absurd (ground arith), tt),
)

docs_ne_blog : codes "docs" ≢ codes "blog"
unfolding text_eq
docs_ne_blog p = true≢false (sym ((text_eq_iff (codes "docs") (codes "blog")).1 p))

scraper_run :
    reconcile_scraper sample_client scraped old_jobs
    ≡ (ok tt, (reconcile_scraper sample_client scraped old_jobs).1)
unfolding reconcile_scraper delete_orphans sync_scraper sync_scrapers cron_job_of first find read
    request create_owned found get_object_meta text_eq ◌>>=◌ on_result pure
scraper_run = refl

reconcile_scraper-Synced_example :
    let v = (reconcile_scraper sample_client scraped old_jobs).1 in
    Scraper.Sync.Configured sample_client view_job scraped scraped.scrapers v.state
    × Scraper.Jobs.Gone sample_client view_job scraped.scrapers (stale_job ∷ old_job ∷ []) v.state
reconcile_scraper-Synced_example =
    reconcile_scraper-Synced sample_client view_job jobs-IsStored scraped old_jobs
      (reconcile_scraper sample_client scraped old_jobs).1 (stale_job ∷ old_job ∷ [])
      ((docs_ne_blog, tt), (tt, tt)) old_jobs-HaveVariables refl scraper_run

fresh_run :
    reconcile_scraper sample_client scraped (start 3)
    ≡ (ok tt, (reconcile_scraper sample_client scraped (start 3)).1)
unfolding reconcile_scraper delete_orphans sync_scraper sync_scrapers cron_job_of first find read
    request create_owned found get_object_meta text_eq ◌>>=◌ on_result pure
fresh_run = refl

reconcile_scraper-again_example :
    let v = (reconcile_scraper sample_client scraped (start 3)).1 in
    (reconcile_scraper sample_client scraped v).1.writes ≡ v.writes
unfolding reconcile_scraper delete_orphans sync_scraper sync_scrapers cron_job_of first find read
    request create_owned found get_object_meta text_eq ◌>>=◌ on_result pure
reconcile_scraper-again_example =
    let v = (reconcile_scraper sample_client scraped (start 3)).1 in
    reconcile_scraper-again sample_client view_job jobs-IsStored scraped v [] refl tt (
      Configured-Synced sample_client view_job scraped scraped.scrapers v.state
        (reconcile_scraper-Synced sample_client view_job jobs-IsStored scraped (start 3) v []
          ((docs_ne_blog, tt), (tt, tt))
          (λ o p. absurd (ground arith), (λ o p. absurd (ground arith), tt)) refl fresh_run).0)

abbrev view_monitor : ObjectKey → Store → Option PodMonitor
view_monitor k s = s.objects.pod_monitors k

monitors-IsStored : IsStored (pod_monitors sample_client view_monitor)
monitors-IsStored =
    tables-IsStored (pod_monitors sample_client view_monitor) (λ key s. refl) (λ o s k. refl)
      (λ old o s k. refl) (λ key s k. refl) (λ o. (refl, refl))

abbrev metrics_of : Text → MetricsExporterSpec
metrics_of release = record {
  release = release;
  image = codes "exporter:0.1";
  interval_in_seconds = 15;
  resources = none;
  log_level = pos 0;
}

abbrev measured : TypesenseCluster
measured = record cluster { metrics = some (metrics_of (codes "stack")) }

-- A pod monitor of another release.
abbrev old_monitor : PodMonitor
unfolding pod_monitor_of
old_monitor = pod_monitor_of (pod_monitor_key measured) measured (metrics_of (codes "old"))

abbrev old_monitors : World sample_client
old_monitors = with_objects (record no_objects {
  pod_monitors = put_entry (λ x. x.meta) old_monitor no_objects.pod_monitors;
})

monitor_run :
    ensure_pod_monitor sample_client measured old_monitors
    ≡ (ok tt, (ensure_pod_monitor sample_client measured old_monitors).1)
unfolding ensure_pod_monitor sync_pod_monitor pod_monitor_of lookup insert merge_labels first find
    read request create_owned found text_eq ◌>>=◌ on_result pure
monitor_run = refl

ensure_pod_monitor-Synced_example :
    PodMonitor.Sync.Synced sample_client view_monitor measured measured.metrics
      (ensure_pod_monitor sample_client measured old_monitors).1.state
ensure_pod_monitor-Synced_example =
    ensure_pod_monitor-Synced sample_client view_monitor monitors-IsStored measured old_monitors
      (ensure_pod_monitor sample_client measured old_monitors).1 monitor_run
