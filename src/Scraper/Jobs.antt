-- ===== src/Scraper/Jobs.antt =====
-- The cron jobs in the API server, and what a pass deletes of them.
use typesense_operator.Base.{
  ◌≡◌, sym, ap, ◌∙◌, ◌≢◌, inl, inr, Bool-cases, Option, none, some, List, [], ◌∷◌, All,
}
use mathlib.Core.Bool.{false≢true}
use typesense_operator.Base.Strings.Laws.{any-text_eq}
use typesense_operator.Base.Exec.{ok, pure, attempt}
use typesense_operator.Base.Exec.Rules.{attempt-ok}
use typesense_operator.Kube.{CronJob, cron_job, cron_job_kind}
use typesense_operator.Crd.{DocSearchScraperSpec}
use typesense_operator.Api.{ObjectKey}
use typesense_operator.Api.Client.{Client, World}
use typesense_operator.Api.Client.Stored
use typesense_operator.Api.Client.Stored.{Stored, Holds, key_of}
use typesense_operator.Scraper.{scraper_name, in_specs, delete_scraper, delete_orphans}

module _ (C : Client) (view : ObjectKey → C.State → Option CronJob) where
  -- The cron jobs of the API server: schedule and containers are read back as they were sent.
  abbrev pub cron_jobs : Stored C CronJob
  cron_jobs = record {
    get = C.get_cron_job;
    wrap = cron_job;
    kind = cron_job_kind;
    meta = λ o. o.meta;
    Agrees = λ a b. (b.schedule ≡ a.schedule) × (b.containers ≡ a.containers);
    view = view;
  }

  -- The cron jobs of the list that no scraper of the specification asks for are gone.
  abbrev pub Gone : List DocSearchScraperSpec → List CronJob → C.State → Type 0
  Gone scrapers jobs s =
      All
        (λ job.
          All (λ spec. job.meta.name ≢ scraper_name spec) scrapers
          → view (key_of cron_jobs job) s ≡ none)
        jobs

  module _ (I : Stored.IsStored cron_jobs) where
    pub delete_orphans-Gone :
        (scrapers : List DocSearchScraperSpec) (jobs : List CronJob) (w v : World C)
        → delete_orphans C scrapers jobs w ≡ (ok tt, v)
        → Gone scrapers jobs v.state
          × ((k : ObjectKey) → view k w.state ≡ none → view k v.state ≡ none)
    unfolding delete_orphans pure
    delete_orphans-Gone scrapers [] w v r =
        (tt, λ k gone. ap (λ p. view k p.1.state) (sym r) ∙ gone)
    delete_orphans-Gone scrapers (job ∷ jobs) w v r =
        elim (Bool-cases (in_specs job.meta.name scrapers)) [
          | inl asked ↦
              let (gone, stays) = delete_orphans-Gone scrapers jobs w v (rw asked at r) in
              (
                (
                  λ orphan. absurd (
                      false≢true
                        (sym ((any-text_eq scraper_name job.meta.name scrapers).1 orphan) ∙ asked)),
                  gone,
                ),
                stays,
              )
          | inr orphan ↦
              let key = key_of cron_jobs job in
              let r' : attempt (delete_scraper C job) (λ _. delete_orphans C scrapers jobs) w
                  ≡ (ok tt, v) =
                rw orphan at r in
              let (_, done, e) = attempt-ok (delete_scraper C job) _ w (ap (λ p. p.0) r') in
              let x = (delete_scraper C job w).1 in
              let (gone, stays) = delete_orphans-Gone scrapers jobs x v (sym e ∙ r') in
              (
                (λ _. stays key (Stored.delete_lem cron_jobs I key w done).0, gone),
                λ k none_yet. stays k (Stored.delete_gone cron_jobs I key k w done none_yet),
              )
        ]

    pub delete_orphans-only :
        (scrapers : List DocSearchScraperSpec) (jobs : List CronJob) (w v : World C)
        → delete_orphans C scrapers jobs w ≡ (ok tt, v)
        → (k : ObjectKey) {o : CronJob} → view k v.state ≡ some o
        → view k w.state ≡ some o
    unfolding delete_orphans pure
    delete_orphans-only scrapers [] w v r k there = ap (λ p. view k p.1.state) r ∙ there
    delete_orphans-only scrapers (job ∷ jobs) w v r k {o} there =
        elim (Bool-cases (in_specs job.meta.name scrapers)) [
          | inl asked ↦ delete_orphans-only scrapers jobs w v (rw asked at r) k {o = o} there
          | inr orphan ↦
              let r' : attempt (delete_scraper C job) (λ _. delete_orphans C scrapers jobs) w
                  ≡ (ok tt, v) =
                rw orphan at r in
              let (_, done, e) = attempt-ok (delete_scraper C job) _ w (ap (λ p. p.0) r') in
              let x = (delete_scraper C job w).1 in
              Stored.delete_only cron_jobs I (key_of cron_jobs job) k w {o = o} done
                (delete_orphans-only scrapers jobs x v (sym e ∙ r') k {o = o} there)
        ]
