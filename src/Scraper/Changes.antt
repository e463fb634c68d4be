-- ===== src/Scraper/Changes.antt =====
-- What `ReconcileScraper` compares of a cron job.
use typesense_operator.Base.{
  codes, text_eq, text_eq_iff, text_eq_refl, ◌≡◌, ◌↔◌, ◌∙◌, sym, refl, inl, inr, Bool-cases, false,
  List, [], ◌∷◌, All, arith,
}
use mathlib.Core.List.{Memᴰ}
use mathlib.Core.Bool.{true≢false}
use typesense_operator.Base.Exec.{ok, ok-injective, first}
use typesense_operator.Kube.{CronJob, JobContainer, EnvVar}
use typesense_operator.Crd.{DocSearchScraperSpec}
use typesense_operator.Api.{TypesenseCluster, ObjectKey}
use typesense_operator.Scraper.{
  plain_var, cron_job_of, scraper_container, env_value, has_changed, has_changed_config,
}

-- Every variable `CONFIG` has the configuration as its value.
abbrev pub HasConfig : DocSearchScraperSpec → List EnvVar → Type 0
HasConfig spec env = All (λ e. e.name ≡ codes "CONFIG" → env_value e.source ≡ spec.config) env

-- The cron job has a container, and its schedule, image and configuration are the scraper's.
abbrev pub InSync : DocSearchScraperSpec → CronJob → Type 0
InSync spec job =
    (c : JobContainer) × (first job.containers ≡ ok c)
    × (job.schedule ≡ spec.schedule)
    × (c.image ≡ spec.image)
    × HasConfig spec c.env

-- There is a variable `CONFIG`.
abbrev pub HasVariable : CronJob → Type 0
HasVariable job =
    (c : JobContainer) × (first job.containers ≡ ok c)
    × ((e : EnvVar) × Memᴰ e c.env × (e.name ≡ codes "CONFIG"))

-- The cron job is as the scraper wants it, and a variable `CONFIG` has the configuration as its
-- value.
abbrev pub IsConfigured : DocSearchScraperSpec → CronJob → Type 0
IsConfigured spec job =
    InSync spec job
    × ((c : JobContainer) × (first job.containers ≡ ok c)
        × ((e : EnvVar) × Memᴰ e c.env
            × (e.name ≡ codes "CONFIG")
            × (env_value e.source ≡ spec.config)))

config_value :
    (spec : DocSearchScraperSpec) {e : EnvVar} {env : List EnvVar}
    → Memᴰ e env
    → HasConfig spec env
    → e.name ≡ codes "CONFIG"
    → env_value e.source ≡ spec.config
config_value spec (Memᴰ.head same) h named = rw same (h.0 (rw same at named))
config_value spec (Memᴰ.tail m) h named = config_value spec m h.1 named

pub InSync-IsConfigured :
    (spec : DocSearchScraperSpec) (job : CronJob)
    → InSync spec job
    → HasVariable job
    → IsConfigured spec job
InSync-IsConfigured spec job sync (c, first_is, (e, m, named)) =
    let (d, d_is, _, _, configured) = sync in
    let same : d ≡ c = ok-injective (sym d_is ∙ first_is) in
    (sync, (c, first_is, (e, m, named, config_value spec m (rw same at configured) named)))

has_changed_config_iff :
    (spec : DocSearchScraperSpec) (env : List EnvVar)
    → (has_changed_config env spec ≡ false) ↔ HasConfig spec env
has_changed_config_iff spec [] = (λ _. tt, λ _. refl)
has_changed_config_iff spec (e ∷ env) =
    let rest = has_changed_config_iff spec env in
    let names = text_eq_iff e.name (codes "CONFIG") in
    let values = text_eq_iff (env_value e.source) spec.config in
    elim (Bool-cases (text_eq e.name (codes "CONFIG"))) [
      | inr other ↦ (
        λ h. (λ p. absurd (true≢false (sym (names.1 p) ∙ other)), rest.0 (rw other at h)),
        λ h. rw other (rest.1 h.1),
      )
      | inl named ↦ elim (Bool-cases (text_eq (env_value e.source) spec.config)) [
        | inl same ↦ (
          λ h. (λ _. values.0 same, rest.0 (rw (named, same) at h)),
          λ h. rw (named, same) (rest.1 h.1),
        )
        | inr differs ↦ (
          λ h. absurd (true≢false (rw (named, differs) at h)),
          λ h. absurd (true≢false (sym (values.1 (h.0 (names.0 named))) ∙ differs)),
        )
      ]
    ]

-- What the code compares is what it is meant to compare.
pub has_changed_iff :
    (spec : DocSearchScraperSpec) (job : CronJob) (c : JobContainer)
    → (has_changed job c spec ≡ false)
      ↔ ((job.schedule ≡ spec.schedule) × (c.image ≡ spec.image) × HasConfig spec c.env)
has_changed_iff spec job c =
    let schedules = text_eq_iff job.schedule spec.schedule in
    let images = text_eq_iff c.image spec.image in
    let configs = has_changed_config_iff spec c.env in
    (
      λ h. (schedules.0 (ground arith), images.0 (ground arith), configs.0 (ground arith)),
      λ h. rw (schedules.1 h.0, images.1 h.1, configs.1 h.2) refl,
    )

-- A cron job that was built for a scraper is as the scraper wants it.
built-InSync :
    (key : ObjectKey) (ts : TypesenseCluster) (spec : DocSearchScraperSpec)
    → InSync spec (cron_job_of key ts spec)
unfolding cron_job_of first text_eq
built-InSync key ts spec = (
  _,
  refl,
  refl,
  refl,
  (has_changed_config_iff spec (scraper_container ts spec).env).0
      (ground (arith, text_eq_refl spec.config)),
)

pub built-IsConfigured :
    (key : ObjectKey) (ts : TypesenseCluster) (spec : DocSearchScraperSpec)
    → IsConfigured spec (cron_job_of key ts spec)
unfolding cron_job_of first
built-IsConfigured key ts spec = (
  built-InSync key ts spec,
  (_, refl, (plain_var (codes "CONFIG") spec.config, Memᴰ.head refl, refl, refl)),
)
