-- ===== src/Scraper/Sync.antt =====
-- What a pass over the scrapers leaves in the API server.
use typesense_operator.Base.{
  text_eq_iff, ◌≡◌, refl, sym, ap, ◌∙◌, ◌≢◌, inl, inr, Bool-cases, false, Option, none, some, List,
  [], ◌∷◌, All, All-map, All-map_two, arith,
}
use mathlib.Core.List.{append_cancel_right}
use typesense_operator.Base.Strings.Laws.{any-text_eq}
use typesense_operator.Base.Exec.{ok, pure, ◌>>=◌, on_result, first, attempt}
use typesense_operator.Base.Exec.Rules.{attempt-ok, check-ok}
use typesense_operator.Kube.{CronJob}
use typesense_operator.Crd.{DocSearchScraperSpec}
use typesense_operator.Api.{TypesenseCluster, ObjectKey}
use typesense_operator.Api.Client.{Client, World, find, read}
use typesense_operator.Api.Client.Stored
use typesense_operator.Api.Client.Stored.{Stored, Holds, key_of}
use typesense_operator.Scraper.{
  scraper_name, scraper_key, cron_job_of, has_changed, in_specs, delete_scraper, delete_orphans,
  sync_scraper, sync_scrapers, reconcile_scraper, create_scraper,
}
use typesense_operator.Scraper.Changes.{
  InSync, HasVariable, IsConfigured, InSync-IsConfigured, has_changed_iff, built-IsConfigured,
}
use typesense_operator.Utils.Meta.{get_labels}
use typesense_operator.Scraper.Jobs.{cron_jobs, Gone, delete_orphans-Gone, delete_orphans-only}

-- No two scrapers have the same name.
abbrev pub HasNames : List DocSearchScraperSpec → Type 0
HasNames [] = Unit
HasNames (s ∷ specs) = All (λ t. s.name ≢ t.name) specs × HasNames specs

module _ (C : Client) (view : ObjectKey → C.State → Option CronJob) where
  -- Every scraper of the list has a cron job as it wants it.
  abbrev pub Synced : TypesenseCluster → List DocSearchScraperSpec → C.State → Type 0
  Synced ts specs s =
      All (λ spec. Holds (cron_jobs C view) (InSync spec) (scraper_key ts spec) s) specs

  -- Every scraper of the list has a cron job as it wants it, with a variable `CONFIG`.
  abbrev pub Configured : TypesenseCluster → List DocSearchScraperSpec → C.State → Type 0
  Configured ts specs s =
      All (λ spec. Holds (cron_jobs C view) (IsConfigured spec) (scraper_key ts spec) s) specs

  pub Configured-Synced :
      (ts : TypesenseCluster) (specs : List DocSearchScraperSpec) (s : C.State)
      → Configured ts specs s
      → Synced ts specs s
  Configured-Synced ts specs s = All-map specs λ spec h. (h.0, h.1, h.2.0)

  -- What is there under the key of a scraper of the list has a variable `CONFIG`.
  abbrev pub HaveVariables : TypesenseCluster → List DocSearchScraperSpec → C.State → Type 0
  HaveVariables ts specs s =
      All (λ spec. (o : CronJob) → view (scraper_key ts spec) s ≡ some o → HasVariable o) specs

  -- What a call on one scraper leaves, and the cron jobs of other names.
  abbrev Leaves : TypesenseCluster → DocSearchScraperSpec → World C → World C → Type 0
  Leaves ts spec w v =
      Holds (cron_jobs C view) (IsConfigured spec) (scraper_key ts spec) v.state
      × ((k : ObjectKey) → k ≢ scraper_key ts spec → view k v.state ≡ view k w.state)

  module _ (I : Stored.IsStored (cron_jobs C view)) where
    create_scraper-Leaves :
        (ts : TypesenseCluster) (spec : DocSearchScraperSpec) (w : World C)
        → (create_scraper C (scraper_key ts spec) ts spec w).0 ≡ ok tt
        → Leaves ts spec w (create_scraper C (scraper_key ts spec) ts spec w).1
    unfolding cron_job_of
    create_scraper-Leaves ts spec w r =
        let key = scraper_key ts spec in
        let ((c, first_is, scheduled, imaged, configured), (d, d_is, variable)) =
          built-IsConfigured key ts spec in
        let ((o, found, (schedule, containers)), keeps) =
          Stored.create_owned_lem (cron_jobs C view) I ts (cron_job_of key ts spec) w r in
        (
          (
            o,
            found,
            (
              (c, rw containers first_is, schedule ∙ scheduled, imaged, configured),
              (d, rw containers d_is, variable),
            ),
          ),
          keeps,
        )

    sync_scraper-Leaves :
        (ts : TypesenseCluster) (spec : DocSearchScraperSpec) (w : World C) (f : Option CronJob)
        → view (scraper_key ts spec) w.state ≡ f
        → ((o : CronJob) → f ≡ some o → key_of (cron_jobs C view) o ≡ scraper_key ts spec)
        → ((o : CronJob) → f ≡ some o → HasVariable o)
        → (sync_scraper C ts spec f w).0 ≡ ok tt
        → Leaves ts spec w (sync_scraper C ts spec f w).1
    unfolding sync_scraper pure
    sync_scraper-Leaves ts spec w none there keyed has r = create_scraper-Leaves ts spec w r
    sync_scraper-Leaves ts spec w (some job) there keyed has r =
        let (c, first_is, e) = check-ok (first job.containers) _ w r in
        elim (Bool-cases (has_changed job c spec)) [
          | inr same ↦
              rw (e, same)
                (let (scheduled, imaged, configured) = (has_changed_iff spec job c).0 same in
                  let sync : InSync spec job = (c, first_is, scheduled, imaged, configured) in
                  ((job, there, InSync-IsConfigured spec job sync (has job refl)), λ _ _. refl))
          | inl changed ↦
              let again = create_scraper C (scraper_key ts spec) ts spec in
              let (_, gone, e1) =
                attempt-ok (delete_scraper C job) (λ _. again) w (rw (e, changed) at r) in
              let v = (delete_scraper C job w).1 in
              let (_, keeps) =
                Stored.delete_lem (cron_jobs C view) I (key_of (cron_jobs C view) job) w gone in
              let (held, kept) =
                create_scraper-Leaves ts spec v (rw e1 at (rw (e, changed) at r)) in
              rw (e, changed, e1) (held, λ k ne. kept k ne ∙ keeps k (rw (keyed job refl) ne))
        ]

    sync_scrapers-Configured :
        (ts : TypesenseCluster) (specs : List DocSearchScraperSpec) (w v : World C)
        → HasNames specs
        → HaveVariables ts specs w.state
        → sync_scrapers C ts specs w ≡ (ok tt, v)
        → Configured ts specs v.state
          × ((k : ObjectKey)
              → All (λ spec. k ≢ scraper_key ts spec) specs
              → view k v.state ≡ view k w.state)
    unfolding sync_scrapers pure
    sync_scrapers-Configured ts [] w v names has r = (tt, λ k _. ap (λ p. view k p.1.state) (sym r))
    sync_scrapers-Configured ts (spec ∷ specs) w v (fresh, names) (has, others_have) r =
        let key = scraper_key ts spec in
        let (f, got, e) = attempt-ok (find C (C.get_cron_job key)) _ w (ap (λ p. p.0) r) in
        let x = (find C (C.get_cron_job key) w).1 in
        let (_, done, e1) = attempt-ok (sync_scraper C ts spec f) _ x (ap (λ p. p.0) (sym e ∙ r)) in
        let u = (sync_scraper C ts spec f x).1 in
        let (is, keyed) = Stored.find_lem (cron_jobs C view) I key w {f = f} got in
        let (held, keeps) =
          sync_scraper-Leaves ts spec x f
            ((Stored.find_keeps (cron_jobs C view) I key key w).0 ∙ is) keyed
            (λ o p. has o (is ∙ p)) done in
        let still : HaveVariables ts specs u.state =
          All-map_two specs
            (λ t ne h o p. h o (
              sym (Stored.find_keeps (cron_jobs C view) I key (scraper_key ts t) w).0
              ∙ (sym (
                    keeps (scraper_key ts t)
                      λ q. ne (append_cancel_right _ _ _ (ap (λ k. k.name) (sym q))))
                  ∙ p)))
            fresh others_have in
        let (synced, kept) =
          sync_scrapers-Configured ts specs u v names still (sym e1 ∙ (sym e ∙ r)) in
        let others =
          All-map specs (λ t ne p. ne (append_cancel_right _ _ _ (ap (λ k. k.name) p))) fresh in
        (
          ((held.0, kept key others ∙ held.1, held.2), synced),
          λ k ne. kept k ne.1 ∙ (keeps k ne.0 ∙ (Stored.find_keeps (cron_jobs C view) I key k w).0),
        )

    not_asked :
        (ts : TypesenseCluster) (specs : List DocSearchScraperSpec) (k : ObjectKey)
        → in_specs k.name specs ≡ false
        → All (λ spec. k ≢ scraper_key ts spec) specs
    not_asked ts [] k h = tt
    not_asked ts (spec ∷ specs) k h = (
      (λ p. absurd (ground (arith, text_eq_iff k.name (scraper_name spec), ap (λ o. o.name) p))),
      not_asked ts specs k (ground arith),
    )

    -- A pass over the scrapers that succeeds leaves a cron job for each scraper of the
    -- specification, with its schedule and image and with a variable `CONFIG` whose value is its
    -- configuration; and the cron jobs of the cluster that no scraper asks for, among those that it
    -- listed, are gone. The scrapers must have different names, and a cron job that stands under the
    -- key of one of them when the jobs have been listed must have a variable `CONFIG`, of any value.
    pub reconcile_scraper-Synced :
        (ts : TypesenseCluster) (w v : World C) (jobs : List CronJob)
        → HasNames ts.scrapers
        → HaveVariables ts ts.scrapers (C.list_cron_jobs ts.namespace (get_labels ts) w.state).1
        → (C.list_cron_jobs ts.namespace (get_labels ts) w.state).0 ≡ ok jobs
        → reconcile_scraper C ts w ≡ (ok tt, v)
        → Configured ts ts.scrapers v.state × Gone C view ts.scrapers jobs v.state
    unfolding reconcile_scraper read ◌>>=◌ on_result
    reconcile_scraper-Synced ts w v jobs names has listed r =
        let x : World C = record w {
          state = (C.list_cron_jobs ts.namespace (get_labels ts) w.state).1;
        } in
        let r' : attempt (delete_orphans C ts.scrapers jobs) (λ _. sync_scrapers C ts ts.scrapers) x
            ≡ (ok tt, v) =
          rw listed at r in
        let (_, done, e) = attempt-ok (delete_orphans C ts.scrapers jobs) _ x (ap (λ p. p.0) r') in
        let u = (delete_orphans C ts.scrapers jobs x).1 in
        let (gone, _) = delete_orphans-Gone C view I ts.scrapers jobs x u (ground (arith, done)) in
        let still : HaveVariables ts ts.scrapers u.state =
          All-map ts.scrapers
            (λ spec h o p. h o (
              delete_orphans-only C view I ts.scrapers jobs x u (ground (arith, done))
                (scraper_key ts spec) {o = o} p))
            has in
        let (synced, kept) = sync_scrapers-Configured ts ts.scrapers u v names still (sym e ∙ r') in
        (
          synced,
          All-map jobs
              (λ job g orphan.
                kept (key_of (cron_jobs C view) job) (
                  not_asked ts ts.scrapers (key_of (cron_jobs C view) job)
                    ((any-text_eq scraper_name job.meta.name ts.scrapers).1 orphan))
                ∙ g orphan)
              gone,
        )
