-- ===== src/Scraper.antt =====
-- internal/controller/typesensecluster_scraper.go: one cron job for each scraper of the specification.
--
-- `ts.Spec.Scrapers == nil` is the empty list here: the loops over either do the same.
pub mod Changes
pub mod Jobs
pub mod Sync
pub mod Again
use typesense_operator.Base.{
  Text, codes, text_eq, decimal, Bool, true, false, not, ◌&&◌, ◌||◌, Option, none, some, List, [],
  ◌∷◌, ◌++◌, any, if◌then◌else◌,
}
use typesense_operator.Base.Exec.{Result, ok, err, pure, ◌>>=◌, on_result, first, attempt, check}
use typesense_operator.Kube.{
  EnvSource, plain, secret_key, pod_field, EnvVar, JobContainer, CronJob, cron_job, cron_job_kind,
}
use typesense_operator.Crd.{DocSearchScraperSpec}
use typesense_operator.Api.{TypesenseCluster, ObjectKey}
use typesense_operator.Api.Client.{Client, M, read, request, find, create_owned, delete_object}
use typesense_operator.Secret.{admin_api_key_secret_key_name, get_admin_api_key_object_key}
use typesense_operator.Services.{cluster_rest_service}
use typesense_operator.Utils.Meta.{get_object_meta, get_labels}

-- `ClusterScraperCronJob`: the name of the cluster is no part of it.
abbrev pub scraper_name : DocSearchScraperSpec → Text
scraper_name spec = spec.name ++ codes "-scraper"

abbrev pub scraper_key : TypesenseCluster → DocSearchScraperSpec → ObjectKey
scraper_key ts spec = record { namespace = ts.namespace; name = scraper_name spec }

-- `GetScraperAuthConfiguration`
abbrev pub get_scraper_auth_configuration : Option Text → List Text
get_scraper_auth_configuration none = []
get_scraper_auth_configuration (some secret) = secret ∷ []

-- The variable that reads the admin key from its secret.
abbrev pub api_key_var : TypesenseCluster → EnvVar
api_key_var ts = record {
  name = codes "TYPESENSE_API_KEY";
  source = secret_key (get_admin_api_key_object_key ts).name admin_api_key_secret_key_name;
}

abbrev pub plain_var : Text → Text → EnvVar
plain_var name value = record { name = name; source = plain value }

abbrev pub scraper_container : TypesenseCluster → DocSearchScraperSpec → JobContainer
scraper_container ts spec = record {
  name = spec.name ++ codes "-docsearch-scraper";
  image = spec.image;
  env =
      plain_var (codes "CONFIG") spec.config
      ∷ api_key_var ts
      ∷ plain_var (codes "TYPESENSE_HOST") (cluster_rest_service ts.name)
      ∷ plain_var (codes "TYPESENSE_PORT") (decimal ts.api_port)
      ∷ plain_var (codes "TYPESENSE_PROTOCOL") (codes "http")
      ∷ [];
  env_from = get_scraper_auth_configuration spec.auth_configuration;
  resources = codes "limits:cpu=1024m,memory=512Mi;requests:cpu=128m,memory=112Mi";
}

-- The cron job that `createScraper` builds.
unfoldable pub cron_job_of : ObjectKey → TypesenseCluster → DocSearchScraperSpec → CronJob
unfolding get_object_meta
cron_job_of key ts spec = record {
  meta = get_object_meta ts (some key.name) [];
  concurrency_policy = codes "Forbid";
  successful_jobs_history_limit = 1;
  failed_jobs_history_limit = 1;
  schedule = spec.schedule;
  backoff_limit = 0;
  image_pull_secrets = ts.image_pull_secrets;
  restart_policy = codes "Never";
  containers = scraper_container ts spec ∷ [];
}

-- `env.Value`
abbrev pub env_value : EnvSource → Text
env_value (plain v) = v
env_value (secret_key s k) = []
env_value (pod_field f) = []

-- `hasChangedConfig`
abbrev pub has_changed_config : List EnvVar → DocSearchScraperSpec → Bool
has_changed_config env spec =
    any (λ e. text_eq e.name (codes "CONFIG") && not (text_eq (env_value e.source) spec.config)) env

-- `hasChanged`
abbrev pub has_changed : CronJob → JobContainer → DocSearchScraperSpec → Bool
has_changed job container spec =
    not (text_eq job.schedule spec.schedule)
    || not (text_eq container.image spec.image)
    || has_changed_config container.env spec

-- `inSpecs`
abbrev pub in_specs : Text → List DocSearchScraperSpec → Bool
in_specs name scrapers = any (λ s. text_eq name (scraper_name s)) scrapers

module _ (C : Client) where
  -- `createScraper`
  abbrev pub create_scraper :
      ObjectKey → TypesenseCluster → DocSearchScraperSpec → M C (Result (Unit {0}))
  create_scraper key ts spec = create_owned C ts (cron_job (cron_job_of key ts spec))

  -- `deleteScraper`
  abbrev pub delete_scraper : CronJob → M C (Result (Unit {0}))
  delete_scraper job = request C (delete_object cron_job_kind job.meta.namespace job.meta.name)

  -- Lines 43 to 50: the cron jobs that no scraper of the specification asks for.
  unfoldable pub delete_orphans : List DocSearchScraperSpec → List CronJob → M C (Result (Unit {0}))
  delete_orphans scrapers [] = pure (ok tt)
  delete_orphans scrapers (job ∷ jobs) =
      let rest = delete_orphans scrapers jobs in
      if not (in_specs job.meta.name scrapers)
      then attempt (delete_scraper job) (λ _. rest)
      else rest

  -- Lines 71 to 110, from what was found of a scraper's cron job.
  unfoldable pub sync_scraper :
      TypesenseCluster → DocSearchScraperSpec → Option CronJob → M C (Result (Unit {0}))
  unfolding first
  sync_scraper ts spec none = create_scraper (scraper_key ts spec) ts spec
  sync_scraper ts spec (some job) = check (first job.containers) λ container.
      if has_changed job container spec
      then attempt (delete_scraper job) (λ _. create_scraper (scraper_key ts spec) ts spec)
      else pure (ok tt)

  -- Lines 56 to 113.
  unfoldable pub sync_scrapers :
      TypesenseCluster → List DocSearchScraperSpec → M C (Result (Unit {0}))
  sync_scrapers ts [] = pure (ok tt)
  sync_scrapers ts (spec ∷ specs) =
      attempt (find C (C.get_cron_job (scraper_key ts spec)))
        λ job. attempt (sync_scraper ts spec job) λ _. sync_scrapers ts specs

  -- `ReconcileScraper`
  unfoldable pub reconcile_scraper : TypesenseCluster → M C (Result (Unit {0}))
  reconcile_scraper ts =
      attempt (read C (C.list_cron_jobs ts.namespace (get_labels ts)))
        λ jobs. attempt (delete_orphans ts.scrapers jobs) λ _. sync_scrapers ts ts.scrapers
