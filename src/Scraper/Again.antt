-- ===== src/Scraper/Again.antt =====
-- A second pass over the scrapers.
use typesense_operator.Base.{◌≡◌, refl, sym, ◌∙◌, true, Option, some, List, [], ◌∷◌, All, All-map}
use typesense_operator.Base.Exec.{ok, pure, ◌>>=◌, on_result, attempt}
use typesense_operator.Kube.{CronJob}
use typesense_operator.Crd.{DocSearchScraperSpec}
use typesense_operator.Api.{TypesenseCluster, ObjectKey}
use typesense_operator.Api.Client.{Client, World, find, read}
use typesense_operator.Api.Client.Stored
use typesense_operator.Api.Client.Stored.{Stored, Holds, key_of}
use typesense_operator.Scraper.{
  scraper_key, in_specs, delete_orphans, sync_scraper, sync_scrapers, reconcile_scraper,
}
use typesense_operator.Scraper.Changes.{InSync, has_changed_iff}
use typesense_operator.Utils.Meta.{get_labels}
use typesense_operator.Scraper.Jobs.{cron_jobs}
use typesense_operator.Scraper.Sync.{Synced}

module _ (C : Client) (view : ObjectKey → C.State → Option CronJob)
    (I : Stored.IsStored (cron_jobs C view)) where
  sync_scraper-quiet :
      (ts : TypesenseCluster) (spec : DocSearchScraperSpec) (job : CronJob) (w : World C)
      → InSync spec job
      → sync_scraper C ts spec (some job) w ≡ (ok tt, w)
  unfolding sync_scraper on_result pure
  sync_scraper-quiet ts spec job w (c, first_is, scheduled, imaged, configured) =
      rw (first_is, (has_changed_iff spec job c).1 (scheduled, imaged, configured)) refl

  sync_scrapers-again :
      (ts : TypesenseCluster) (specs : List DocSearchScraperSpec) (w : World C)
      → Synced C view ts specs w.state
      → (sync_scrapers C ts specs w).1.writes ≡ w.writes
  unfolding sync_scrapers pure ◌>>=◌ on_result
  sync_scrapers-again ts [] w synced = refl
  sync_scrapers-again ts (spec ∷ specs) w ((job, there, sync), synced) =
      let key = scraper_key ts spec in
      Stored.find_then (cron_jobs C view) I key w _ λ f is.
        let v = (find C (C.get_cron_job key) w).1 in
        let e : attempt (sync_scraper C ts spec f) (λ _. sync_scrapers C ts specs) v
            ≡ sync_scrapers C ts specs v =
          (let k : f ≡ some job = sym is ∙ there in
            rw (k, sync_scraper-quiet ts spec job v sync) refl) in
        rw e (
          sync_scrapers-again ts specs v (
            All-map specs
              (λ t h. (
                h.0,
                (Stored.find_keeps (cron_jobs C view) I key (scraper_key ts t) w).0 ∙ h.1,
                h.2,
              ))
              synced))

  delete_orphans-quiet :
      (scrapers : List DocSearchScraperSpec) (jobs : List CronJob) (w : World C)
      → All (λ job. in_specs job.meta.name scrapers ≡ true) jobs
      → delete_orphans C scrapers jobs w ≡ (ok tt, w)
  unfolding delete_orphans pure
  delete_orphans-quiet scrapers [] w h = refl
  delete_orphans-quiet scrapers (job ∷ jobs) w (h, hs) =
      rw h (delete_orphans-quiet scrapers jobs w hs)

  -- A pass over scrapers whose cron jobs are as they want them, and that lists no others, sends
  -- nothing. Listing must leave the cron jobs alone.
  pub reconcile_scraper-again :
      (ts : TypesenseCluster) (w : World C) (jobs : List CronJob)
      → (C.list_cron_jobs ts.namespace (get_labels ts) w.state).0 ≡ ok jobs
      → All (λ job. in_specs job.meta.name ts.scrapers ≡ true) jobs
      → Synced C view ts ts.scrapers (C.list_cron_jobs ts.namespace (get_labels ts) w.state).1
      → (reconcile_scraper C ts w).1.writes ≡ w.writes
  unfolding reconcile_scraper read ◌>>=◌ on_result
  reconcile_scraper-again ts w jobs listed asked synced =
      let x : World C = record w {
        state = (C.list_cron_jobs ts.namespace (get_labels ts) w.state).1;
      } in
      rw (listed, delete_orphans-quiet ts.scrapers jobs x asked)
        (sync_scrapers-again ts ts.scrapers x synced)
