-- ===== src/PodMonitor/Sync.antt =====
-- What a pass over the pod monitor leaves in the API server.
use typesense_operator.Base.{
  codes, text_eq, text_eq_iff, ◌≡◌, refl, sym, ap, ◌∙◌, inl, inr, Bool-cases, Option, none, some,
  [],
}
use typesense_operator.Base.Dict.{get_or, get_or-insert}
use typesense_operator.Base.Exec.{ok, pure, first, attempt}
use typesense_operator.Base.Exec.Rules.{attempt-ok, check-ok}
use typesense_operator.Kube.{PodMonitor, MetricsEndpoint, pod_monitor, pod_monitor_kind}
use typesense_operator.Crd.{MetricsExporterSpec}
use typesense_operator.Api.{TypesenseCluster, ObjectKey}
use typesense_operator.Api.Client.{Client, World, find}
use typesense_operator.Api.Client.Stored
use typesense_operator.Api.Client.Stored.{Stored, Holds, key_of}
use typesense_operator.PodMonitor.{
  pod_monitor_key, interval_of, pod_monitor_of, create_pod_monitor, delete_pod_monitor,
  sync_pod_monitor, ensure_pod_monitor,
}

-- The label `release` and the interval of the first endpoint.
abbrev pub InSync : MetricsExporterSpec → PodMonitor → Type 0
InSync metrics p =
    (get_or [] (codes "release") p.meta.labels ≡ metrics.release)
    × (e : MetricsEndpoint) × (first p.endpoints ≡ ok e)
    × (e.interval ≡ interval_of metrics)

built-InSync :
    (key : ObjectKey) (ts : TypesenseCluster) (metrics : MetricsExporterSpec)
    → InSync metrics (pod_monitor_of key ts metrics)
unfolding pod_monitor_of first
built-InSync key ts metrics = (get_or-insert [] metrics.release (codes "release") _, _, refl, refl)

module _ (C : Client) (view : ObjectKey → C.State → Option PodMonitor) where
  -- The pod monitors of the API server: labels and endpoints are read back as they were sent.
  abbrev pub pod_monitors : Stored C PodMonitor
  pod_monitors = record {
    get = C.get_pod_monitor;
    wrap = pod_monitor;
    kind = pod_monitor_kind;
    meta = λ o. o.meta;
    Agrees = λ a b. (b.meta.labels ≡ a.meta.labels) × (b.endpoints ≡ a.endpoints);
    view = view;
  }

  -- What is there for a cluster is what its specification asks for: nothing without metrics.
  abbrev pub Synced : TypesenseCluster → Option MetricsExporterSpec → C.State → Type 0
  Synced ts none s = view (pod_monitor_key ts) s ≡ none
  Synced ts (some metrics) s = Holds pod_monitors (InSync metrics) (pod_monitor_key ts) s

  module _ (I : Stored.IsStored pod_monitors) where
    create_pod_monitor-Synced :
        (ts : TypesenseCluster) (metrics : MetricsExporterSpec) (w : World C)
        → (create_pod_monitor C ts metrics w).0 ≡ ok tt
        → Synced ts (some metrics) (create_pod_monitor C ts metrics w).1.state
    unfolding pod_monitor_of
    create_pod_monitor-Synced ts metrics w r =
        let (release, e, first_is, interval) = built-InSync (pod_monitor_key ts) ts metrics in
        let ((o, found, (labels, endpoints)), _) =
          Stored.create_owned_lem pod_monitors I ts (pod_monitor_of (pod_monitor_key ts) ts metrics)
            w r in
        (o, found, (rw labels release, e, rw endpoints first_is, interval))

    sync_pod_monitor-Synced :
        (ts : TypesenseCluster) (metrics : Option MetricsExporterSpec) (f : Option PodMonitor)
        (w v : World C)
        → view (pod_monitor_key ts) w.state ≡ f
        → ((o : PodMonitor) → f ≡ some o → key_of pod_monitors o ≡ pod_monitor_key ts)
        → sync_pod_monitor C ts metrics f w ≡ (ok tt, v)
        → Synced ts metrics v.state
    unfolding sync_pod_monitor pure
    sync_pod_monitor-Synced ts none none w v there keyed r =
        ap (λ p. view (pod_monitor_key ts) p.1.state) (sym r) ∙ there
    sync_pod_monitor-Synced ts none (some p) w v there keyed r =
        let key = key_of pod_monitors p in
        let gone = Stored.delete_lem pod_monitors I key w (ap (λ p. p.0) r) in
        rw (keyed p refl) at (ap (λ p. view key p.1.state) (sym r) ∙ gone.0)
    sync_pod_monitor-Synced ts (some metrics) none w v there keyed r =
        rw (ap (λ p. p.1) r) at (create_pod_monitor-Synced ts metrics w (ap (λ p. p.0) r))
    sync_pod_monitor-Synced ts (some metrics) (some p) w v there keyed r =
        elim (Bool-cases (text_eq metrics.release (get_or [] (codes "release") p.meta.labels))) [
          | inr differs ↦ again (rw differs at r)
          | inl same ↦
              let r' = rw same at r in
              let (e, first_is, c) = check-ok (first p.endpoints) _ w (ap (λ p. p.0) r') in
              elim (Bool-cases (text_eq (interval_of metrics) e.interval)) [
                | inr differs ↦ again (rw differs at (sym c ∙ r'))
                | inl interval ↦ (
                  p,
                  ap (λ p. view (pod_monitor_key ts) p.1.state) (sym (rw interval at (sym c ∙ r')))
                      ∙ there,
                  (sym ((text_eq_iff _ _).0 same), e, first_is, sym ((text_eq_iff _ _).0 interval)),
                )
              ]
        ]
      where
        again :
            attempt (delete_pod_monitor C p) (λ _. create_pod_monitor C ts metrics) w ≡ (ok tt, v)
            → Synced ts (some metrics) v.state
        again h =
            let (_, _, e) = attempt-ok (delete_pod_monitor C p) _ w (ap (λ p. p.0) h) in
            let x = (delete_pod_monitor C p w).1 in
            let h' = sym e ∙ h in
            rw (ap (λ p. p.1) h') at (create_pod_monitor-Synced ts metrics x (ap (λ p. p.0) h'))

    -- The part of a pass behind the test for the API group, if it succeeds, leaves the pod monitor
    -- that the specification asks for, with its release and interval, whatever was there before;
    -- and none where the specification has no metrics.
    pub ensure_pod_monitor-Synced :
        (ts : TypesenseCluster) (w v : World C)
        → ensure_pod_monitor C ts w ≡ (ok tt, v)
        → Synced ts ts.metrics v.state
    unfolding ensure_pod_monitor
    ensure_pod_monitor-Synced ts w v r =
        let key = pod_monitor_key ts in
        let (f, got, e) = attempt-ok (find C (C.get_pod_monitor key)) _ w (ap (λ p. p.0) r) in
        let x = (find C (C.get_pod_monitor key) w).1 in
        let (is, keyed) = Stored.find_lem pod_monitors I key w {f = f} got in
        sync_pod_monitor-Synced ts ts.metrics f x v
          ((Stored.find_keeps pod_monitors I key key w).0 ∙ is) keyed (sym e ∙ r)
