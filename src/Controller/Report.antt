-- ===== src/Controller/Report.antt =====
-- What `Reconcile` reports of a cluster.
use typesense_operator.Base.{
  Text, codes, ℕ, ◌≡◌, ◌≢◌, refl, ◌↔◌, Bool, true, false, some, arith, ap, inl, inr, Bool-cases,
}
use typesense_operator.Base.Exec.{Result-cases, ok, pure, ◌>>=◌, on_result, attempt}
use typesense_operator.Api.{Condition, TypesenseCluster, ObjectKey}
use typesense_operator.Api.Client.{Client, World, request, record_event}
use typesense_operator.Node.{ConditionQuorum, condition_text, quorum_ready, memory_or_disk_issue}
use typesense_operator.Quorum.Resize.{Outcome}
use typesense_operator.Quorum.Reconcile.{reconcile_quorum}
use typesense_operator.Quorum.Reconcile.Outcomes.{reconcile_quorum-IsCoherent}
use typesense_operator.Controller.{
  needs_attention, is_ready, with_status, patch_status, set_condition_not_ready,
  set_condition_ready, report_not_ready, report_ready, report_quorum, report_update, requeue_after,
  finish, ready_condition, attention_message, unready_message,
}

is_ready_iff : (c : ConditionQuorum) → (is_ready c ≡ true) ↔ (c ≡ quorum_ready)
unfolding is_ready
is_ready_iff c = ground arith

ready_needs_nothing : needs_attention quorum_ready ≡ false
unfolding needs_attention
ready_needs_nothing = refl

needs_attention_ne : (c : ConditionQuorum) → needs_attention c ≡ true → c ≢ quorum_ready
needs_attention_ne c h = λ e. cc (h, ap needs_attention e, ready_needs_nothing)

module _ (C : Client) where
  -- The status of `u` is that of `ts` with the report of a condition: the phase names it, and the
  -- condition `Ready` that was set has it as its reason and is `True` for `QuorumReady` alone.
  abbrev pub Reports : TypesenseCluster → ConditionQuorum → TypesenseCluster → Type 0
  Reports ts q u =
      (u.phase ≡ condition_text q)
      × ((c : Condition) × (u.conditions ≡ C.set_status_condition ts.conditions c)
          × (c.kind ≡ codes "Ready")
          × (c.reason ≡ condition_text q)
          × ((c.status ≡ codes "True") ↔ (q ≡ quorum_ready)))

  report_not_ready_eq :
      (ts : TypesenseCluster) (reason message : Text) (w : World C) {u : TypesenseCluster}
      → (report_not_ready C ts reason message w).0 ≡ ok u
      → u ≡ with_status C ts (ready_condition (codes "False") reason message) reason
  unfolding report_not_ready set_condition_not_ready patch_status request record_event ◌>>=◌
      on_result pure
  report_not_ready_eq ts reason message w {u} h = ground arith

  report_ready_eq :
      (ts : TypesenseCluster) (reason : Text) (w : World C) {u : TypesenseCluster}
      → (report_ready C ts reason w).0 ≡ ok u
      → u
        ≡ with_status C ts (ready_condition (codes "True") reason (codes "Cluster is Ready")) reason
  unfolding report_ready set_condition_ready patch_status request record_event ◌>>=◌ on_result pure
  report_ready_eq ts reason w {u} h = ground arith

  not_ready-Reports :
      (ts : TypesenseCluster) (q : ConditionQuorum) (message : Text) {u : TypesenseCluster}
      → q ≢ quorum_ready
      → u
        ≡ with_status C ts
            (ready_condition (codes "False") (condition_text q) message)
            (condition_text q)
      → Reports ts q u
  unfolding with_status
  not_ready-Reports ts q message ne e = (
    ap (λ t. t.phase) e,
    (
      ready_condition (codes "False") (condition_text q) message,
      ap (λ t. t.conditions) e,
      refl,
      refl,
      (λ k. cc, λ k. absurd (ne k)),
    ),
  )

  ready-Reports :
      (ts : TypesenseCluster) (q : ConditionQuorum) (message : Text) {u : TypesenseCluster}
      → q ≡ quorum_ready
      → u
        ≡ with_status C ts
            (ready_condition (codes "True") (condition_text q) message)
            (condition_text q)
      → Reports ts q u
  unfolding with_status
  ready-Reports ts q message r e = (
    ap (λ t. t.phase) e,
    (
      ready_condition (codes "True") (condition_text q) message,
      ap (λ t. t.conditions) e,
      refl,
      refl,
      (λ k. r, λ k. refl),
    ),
  )

  -- Where the report of an outcome succeeds, the phase of the cluster names the outcome's condition,
  -- and the condition `Ready` that was set has it as its reason and is `True` exactly for
  -- `QuorumReady`.
  pub report_quorum-Reports :
      (ts : TypesenseCluster) (o : Outcome) (w : World C) {u : TypesenseCluster}
      → (report_quorum C ts o w).0 ≡ ok u
      → Reports ts o.condition u
  unfolding report_quorum
  report_quorum-Reports ts o w {u} h = elim (Bool-cases (needs_attention o.condition)) [
    | inl attention ↦
        not_ready-Reports ts o.condition _ (needs_attention_ne o.condition attention)
          (report_not_ready_eq ts _ (attention_message o.condition) w {u = u} (rw attention at h))
    | inr calm ↦ elim (Bool-cases (is_ready o.condition)) [
      | inl ready ↦
          ready-Reports ts o.condition _ ((is_ready_iff o.condition).0 ready)
            (report_ready_eq ts _ w {u = u} (rw (calm, ready) at h))
      | inr unready ↦
          not_ready-Reports ts o.condition _ (λ e. cc ((is_ready_iff o.condition).1 e, unready))
            (report_not_ready_eq ts _ (unready_message o.error) w {u = u} (rw (calm, unready) at h))
    ]
  ]

  -- `u` reports what `ReconcileQuorum` returns for `t`, which is not the memory or disk issue.
  abbrev pub IsReported : TypesenseCluster → Text → ObjectKey → World C → TypesenseCluster → Type 0
  IsReported t api_key key v u =
      Reports t (reconcile_quorum C t api_key key v).0.condition u
      × ((reconcile_quorum C t api_key key v).0.condition ≢ memory_or_disk_issue)

  -- The pass behind the update of the config map.
  pass-IsReported :
      (api_key : Text) (key : ObjectKey) (updated : Bool) (grace : ℕ) (t : TypesenseCluster)
      (v : World C) {u : TypesenseCluster} {n : ℕ}
      → ((reconcile_quorum C t api_key key >>= λ o.
            attempt {B = TypesenseCluster × ℕ}
              (report_quorum C t o)
              λ s. pure (ok (s, requeue_after updated grace)))
          v).0
        ≡ ok (u, n)
      → (n ≡ requeue_after updated grace) × IsReported t api_key key v u
  unfolding ◌>>=◌ on_result pure
  pass-IsReported api_key key updated grace t v {u} {n} h =
      let o = (reconcile_quorum C t api_key key v).0 in
      let x = (reconcile_quorum C t api_key key v).1 in
      elim (Result-cases (report_quorum C t o x).0) [
        | inl (e, p) ↦ absurd (ground arith)
        | inr (s, p) ↦ (
          ground arith,
          (
            report_quorum-Reports t o x {u = u} (ground arith),
            (reconcile_quorum-IsCoherent C t api_key key v).never_blocking,
          ),
        )
      ]

  pub finish-Reports :
      (ts : TypesenseCluster) (api_key : Text) (key : ObjectKey) (updated : Bool) (grace : ℕ)
      (w : World C) {u : TypesenseCluster} {n : ℕ}
      → (finish C ts api_key key (some updated) grace w).0 ≡ ok (u, n)
      → (n ≡ requeue_after updated grace)
        × ((t : TypesenseCluster) × ((report_update C ts updated w).0 ≡ ok t)
            × IsReported t api_key key (report_update C ts updated w).1 u)
  unfolding finish ◌>>=◌ on_result pure
  finish-Reports ts api_key key updated grace w {u} {n} h =
      elim (Result-cases (report_update C ts updated w).0) [
        | inl (e, p) ↦ absurd (ground arith)
        | inr (t, p) ↦
            let (due, reported) =
              pass-IsReported api_key key updated grace t (report_update C ts updated w).1 {u = u}
                {n = n} (rw p at h) in
            (due, (t, p, reported))
      ]
